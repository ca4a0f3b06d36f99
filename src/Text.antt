-- ===== src/Text.antt =====
-- The functions of Rust's `str` that the parser of the command line client calls. A text is its
-- UTF-8 bytes.
pub mod Laws
use plant_minder.Base.{
  ℕ, zero, suc, ◌+◌, ◌*◌, ◌-◌, ◌^◌, List, [], ◌∷◌, ◌++◌, Bool, true, false, ◌&&◌, Option, none,
  some, if◌then◌else◌, ltb, leb, ◌==◌, nat_eq, length,
}
use mathlib.Core.List.{reverse}

abbrev pub Text : Type 0
Text = List ℕ

-- `s.strip_prefix(pattern)`
unfoldable pub strip_prefix : Text → Text → Option Text
strip_prefix [] s = some s
strip_prefix (p ∷ ps) [] = none
strip_prefix (p ∷ ps) (c ∷ s) = let rest = strip_prefix ps s in if p == c then rest else none

-- The first of the patterns that begins the text is taken off.
unfoldable pub strip_any : List Text → Text → Option Text
strip_any [] s = none
strip_any (p ∷ ps) s = elim (strip_prefix p s) [ some rest ↦ some rest | none ↦ strip_any ps s ]

-- Patterns are taken off as long as one fits; no pattern is empty, so that there are at most as
-- many rounds as bytes.
unfoldable pub trim_rounds : ℕ → List Text → Text → Text
trim_rounds zero ps s = s
trim_rounds (suc n) ps s = elim (strip_any ps s) [ none ↦ s | some rest ↦ trim_rounds n ps rest ]

-- `s.trim_start_matches(pattern)`
unfoldable pub trim_start_matches : Text → Text → Text
trim_start_matches p s = trim_rounds (length s) (p ∷ []) s

-- `s.trim_end_matches(pattern)`
unfoldable pub trim_end_matches : Text → Text → Text
trim_end_matches p s = reverse (trim_rounds (length s) (reverse p ∷ []) (reverse s))

abbrev pub reversed : List Text → List Text
reversed [] = []
reversed (p ∷ ps) = reverse p ∷ reversed ps

-- The characters with Unicode's property White_Space.
abbrev pub white_space : List Text
white_space =
    (9 ∷ [])
    ∷ (10 ∷ [])
    ∷ (11 ∷ [])
    ∷ (12 ∷ [])
    ∷ (13 ∷ [])
    ∷ (32 ∷ [])
    ∷ (0xc2 ∷ 0x85 ∷ [])
    ∷ (0xc2 ∷ 0xa0 ∷ [])
    ∷ (0xe1 ∷ 0x9a ∷ 0x80 ∷ [])
    ∷ (0xe2 ∷ 0x80 ∷ 0x80 ∷ [])
    ∷ (0xe2 ∷ 0x80 ∷ 0x81 ∷ [])
    ∷ (0xe2 ∷ 0x80 ∷ 0x82 ∷ [])
    ∷ (0xe2 ∷ 0x80 ∷ 0x83 ∷ [])
    ∷ (0xe2 ∷ 0x80 ∷ 0x84 ∷ [])
    ∷ (0xe2 ∷ 0x80 ∷ 0x85 ∷ [])
    ∷ (0xe2 ∷ 0x80 ∷ 0x86 ∷ [])
    ∷ (0xe2 ∷ 0x80 ∷ 0x87 ∷ [])
    ∷ (0xe2 ∷ 0x80 ∷ 0x88 ∷ [])
    ∷ (0xe2 ∷ 0x80 ∷ 0x89 ∷ [])
    ∷ (0xe2 ∷ 0x80 ∷ 0x8a ∷ [])
    ∷ (0xe2 ∷ 0x80 ∷ 0xa8 ∷ [])
    ∷ (0xe2 ∷ 0x80 ∷ 0xa9 ∷ [])
    ∷ (0xe2 ∷ 0x80 ∷ 0xaf ∷ [])
    ∷ (0xe2 ∷ 0x81 ∷ 0x9f ∷ [])
    ∷ (0xe3 ∷ 0x80 ∷ 0x80 ∷ [])
    ∷ []

-- `s.trim()`
unfoldable pub trim : Text → Text
trim s =
    let s1 = trim_rounds (length s) white_space s in
    reverse (trim_rounds (length s1) (reversed white_space) (reverse s1))

abbrev pub onto_first : ℕ → List Text → List Text
onto_first c [] = (c ∷ []) ∷ []
onto_first c (l ∷ ls) = (c ∷ l) ∷ ls

-- `s.split(c)`: always at least one piece.
unfoldable pub split : ℕ → Text → List Text
split sep [] = [] ∷ []
split sep (c ∷ s) = let rest = split sep s in if c == sep then [] ∷ rest else onto_first c rest

abbrev pub behind : ℕ → Option (Text × Text) → Option (Text × Text)
behind c none = none
behind c (some (before, rest)) = some (c ∷ before, rest)

-- `s.find(pattern).map(|i| s.split_at(i))`
unfoldable pub split_at_find : Text → Text → Option (Text × Text)
split_at_find p [] = none
split_at_find p (c ∷ s) =
    let later = behind c (split_at_find p s) in
    elim (strip_prefix p (c ∷ s)) [ some _ ↦ some ([], c ∷ s) | none ↦ later ]

unfoldable pub hex_digit : ℕ → Option ℕ
hex_digit c =
    if leb b'0' c && leb c b'9'
    then some (c - 48)
    else if leb b'a' c && leb c b'f'
    then some (c - 87)
    else if leb b'A' c && leb c b'F'
    then some (c - 55)
    else none

-- The digits of a `u16`; `none` on another character or an overflow.
unfoldable pub hex_digits : ℕ → Text → Option ℕ
hex_digits acc [] = some acc
hex_digits acc (c ∷ s) = elim (hex_digit c) [
  | none ↦ none
  | some d ↦
      let more = hex_digits (acc * 16 + d) s in if ltb (acc * 16 + d) (2 ^ 16) then more else none
]

abbrev pub digits_only : Text → Option ℕ
digits_only [] = none
digits_only (c ∷ s) = hex_digits 0 (c ∷ s)

-- `u16::from_str_radix(s, 16)`: a leading plus sign is allowed.
unfoldable pub from_str_radix_16 : Text → Option ℕ
from_str_radix_16 [] = none
from_str_radix_16 (c ∷ s) = if c == b'+' then digits_only s else digits_only (c ∷ s)
