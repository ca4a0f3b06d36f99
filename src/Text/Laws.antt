-- ===== src/Text/Laws.antt =====
-- What the text functions do on the texts that they meet: lines, separators, plain characters.
use mathlib.Core.List.{reverse, reverse-cons, reverse-append, reverse-reverse}
use plant_minder.Base.{
  ℕ, zero, suc, ◌+◌, ◌*◌, ◌/◌, ◌%◌, ◌≤◌, ◌<◌, ◌^◌, ◌≡◌, ◌≢◌, refl, List, [], ◌∷◌, ◌++◌, none, some,
  if◌then◌else◌, ltb, nat_eq, length, All, All-append, ◌⊎◌, arith, ap, ◌∙◌,
}
use plant_minder.Text.{
  Text, strip_prefix, strip_any, trim_rounds, trim_start_matches, trim, split, split_at_find,
  hex_digit, hex_digits, from_str_radix_16, white_space, reversed,
}

-- A line without the separator is the first piece.
pub split-append :
    (sep : ℕ) (l rest : Text)
    → All (λ c. c ≢ sep) l
    → split sep (l ++ sep ∷ rest) ≡ l ∷ split sep rest
unfolding split
split-append sep [] rest h = ground arith
split-append sep (c ∷ l) rest h = ground (arith, split-append sep l rest h.1, h.0)

strip_prefix-append : (ps rest : Text) → strip_prefix ps (ps ++ rest) ≡ some rest
unfolding strip_prefix
strip_prefix-append [] rest = refl
strip_prefix-append (p ∷ ps) rest = ground (arith, strip_prefix-append ps rest)

-- A text is found behind characters that are not its first.
pub split_at_find-append :
    (p : ℕ) (ps l rest : Text)
    → All (λ c. c ≢ p) l
    → split_at_find (p ∷ ps) (l ++ (p ∷ (ps ++ rest))) ≡ some (l, p ∷ (ps ++ rest))
unfolding split_at_find strip_prefix
split_at_find-append p ps [] rest h = ground (arith, strip_prefix-append ps rest)
split_at_find-append p ps (c ∷ l) rest h = ground (arith, split_at_find-append p ps l rest h.1, h.0)

-- The printable characters of ASCII other than the space.
abbrev pub IsPlain : ℕ → Type 0
IsPlain c = (0x20 < c) × (c < 0x7f)

-- The pattern is not empty and begins with no plain character.
abbrev pub MissesPlain : Text → Type 0
MissesPlain [] = ⊥
MissesPlain (p ∷ ps) = (p ≤ 0x20) ⊎ (0x7f ≤ p)

strip_any-plain :
    (ps : List Text) (s : Text) → All MissesPlain ps → All IsPlain s → strip_any ps s ≡ none
unfolding strip_any strip_prefix
strip_any-plain [] s h k = refl
strip_any-plain ([] ∷ ps) s h k = absurd h.0
strip_any-plain ((p ∷ q) ∷ ps) [] h k = strip_any-plain ps [] h.1 k
strip_any-plain ((p ∷ q) ∷ ps) (c ∷ s) h k =
    ground (arith, strip_any-plain ps (c ∷ s) h.1 k, h.0, k.0)

-- Only the first character of a text decides.
strip_any-head :
    (ps : List Text) (c : ℕ) (s : Text)
    → All MissesPlain ps
    → IsPlain c
    → strip_any ps (c ∷ s) ≡ none
unfolding strip_any strip_prefix
strip_any-head [] c s h k = refl
strip_any-head ([] ∷ ps) c s h k = absurd h.0
strip_any-head ((p ∷ q) ∷ ps) c s h k = ground (arith, strip_any-head ps c s h.1 k, h.0)

trim_rounds-plain :
    (n : ℕ) (ps : List Text) (s : Text)
    → All MissesPlain ps
    → All IsPlain s
    → trim_rounds n ps s ≡ s
unfolding trim_rounds
trim_rounds-plain zero ps s h k = refl
trim_rounds-plain (suc n) ps s h k = ground (arith, strip_any-plain ps s h k)

trim_rounds-head :
    (n : ℕ) (ps : List Text) (c : ℕ) (s : Text)
    → All MissesPlain ps
    → IsPlain c
    → trim_rounds n ps (c ∷ s) ≡ c ∷ s
unfolding trim_rounds
trim_rounds-head zero ps c s h k = refl
trim_rounds-head (suc n) ps c s h k = ground (arith, strip_any-head ps c s h k)

All-reverse : (s : Text) → All IsPlain s → All IsPlain (reverse s)
All-reverse [] h = tt
All-reverse (c ∷ s) h =
    rw (reverse-cons c s) (All-append IsPlain (reverse s) (c ∷ []) (All-reverse s h.1) (h.0, tt))

strips_return :
    (n : ℕ) (s : Text) → All IsPlain s → trim_rounds (suc n) (reversed white_space) (13 ∷ s) ≡ s
unfolding trim_rounds strip_any strip_prefix
strips_return n s h = trim_rounds-plain n (reversed white_space) s (omega arith) h

trim_end :
    (n : ℕ) (t : Text)
    → All IsPlain t
    → reverse (trim_rounds (suc n) (reversed white_space) (reverse (t ++ 13 ∷ []))) ≡ t
trim_end n t h =
    rw (reverse-append t (13 ∷ []), strips_return n (reverse t) (All-reverse t h))
      (reverse-reverse t)

-- Plain text before a carriage return is what `trim` leaves.
pub trim_plain : (t : Text) → All IsPlain t → trim (t ++ 13 ∷ []) ≡ t
unfolding trim
trim_plain [] h = unfold trim_rounds strip_any strip_prefix in refl
trim_plain (c ∷ t) h =
    rw (trim_rounds-head _ white_space c (t ++ 13 ∷ []) (omega arith) h.0)
      (trim_end (length (t ++ 13 ∷ [])) (c ∷ t) h)

colon_space_once :
    (n : ℕ) (t : Text)
    → All IsPlain t
    → trim_rounds n ((b':' ∷ b' ' ∷ []) ∷ []) (t ++ 13 ∷ []) ≡ t ++ 13 ∷ []
unfolding trim_rounds strip_any strip_prefix
colon_space_once zero t h = refl
colon_space_once (suc n) [] h = refl
colon_space_once (suc n) (c ∷ []) h = ground arith
colon_space_once (suc n) (c ∷ d ∷ t) h = ground arith

-- Of a separator before plain text nothing is left.
pub trim_start_matches-plain :
    (t : Text)
    → All IsPlain t
    → trim_start_matches (b':' ∷ b' ' ∷ []) (b':' ∷ b' ' ∷ (t ++ 13 ∷ [])) ≡ t ++ 13 ∷ []
unfolding trim_start_matches trim_rounds strip_any strip_prefix
trim_start_matches-plain t h = colon_space_once (suc (length (t ++ 13 ∷ []))) t h

-- The lower case digit of a number below sixteen.
abbrev pub hex_char : ℕ → ℕ
hex_char d = if ltb d 10 then d + 48 else d + 87

-- As `printf("%04x")` writes a sixteen bit number.
abbrev pub hex4 : ℕ → Text
hex4 n =
    hex_char (n / 4096) ∷ hex_char (n / 256 % 16) ∷ hex_char (n / 16 % 16) ∷ hex_char (n % 16) ∷ []

hex_digit-hex_char : (d : ℕ) → d < 16 → hex_digit (hex_char d) ≡ some d
unfolding hex_digit
hex_digit-hex_char d h = ground arith

hex_digits-hex_char :
    (acc d : ℕ) (s : Text)
    → d < 16
    → acc * 16 + d < 2 ^ 16
    → hex_digits acc (hex_char d ∷ s) ≡ hex_digits (acc * 16 + d) s
unfolding hex_digits
hex_digits-hex_char acc d s h k = ground (arith, hex_digit-hex_char d h)

hex_digits-hex4 : (n : ℕ) → n < 2 ^ 16 → hex_digits 0 (hex4 n) ≡ some n
hex_digits-hex4 n h =
    hex_digits-hex_char 0 (n / 4096) _ (omega arith) (omega arith)
    ∙ hex_digits-hex_char _ (n / 256 % 16) _ (omega arith) (omega arith)
    ∙ hex_digits-hex_char _ (n / 16 % 16) _ (omega arith) (omega arith)
    ∙ hex_digits-hex_char _ (n % 16) [] (omega arith) (omega arith)
    ∙ unfold hex_digits in ap some (omega arith)

-- Four hexadecimal digits are read back.
pub from_str_radix_16-hex4 : (n : ℕ) → n < 2 ^ 16 → from_str_radix_16 (hex4 n) ≡ some n
unfolding from_str_radix_16
from_str_radix_16-hex4 n h = ground (arith, hex_digits-hex4 n h)
