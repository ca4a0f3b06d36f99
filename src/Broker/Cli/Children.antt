-- ===== src/Broker/Cli/Children.antt =====
-- The list of the mesh's nodes, as `ot-ctl childip` prints it, and what the client reads from it.
use mathlib.Core.List.{reverse, reverse-cons, reverse-reverse, reverse-append, append_assoc}
use plant_minder.Base.{
  ℕ, ◌⊎◌, inl, inr, ◌/◌, ◌%◌, zero, suc, ◌<◌, ◌≢◌, ◌^◌, ◌≡◌, refl, List, [], ◌∷◌, ◌++◌, Option,
  some, ok, arith, ap, ◌∙◌, All, All-append, length, from_utf8-ascii,
}
use plant_minder.Text.{
  Text, trim_end_matches, trim_rounds, strip_any, strip_prefix, split, split_at_find,
}
use plant_minder.Text.Laws.{
  IsPlain, hex4, hex_char, split-append, split_at_find-append, trim_plain, trim_start_matches-plain,
  from_str_radix_16-hex4,
}
use plant_minder.Net.{Ipv6Addr}
use plant_minder.Broker.Types.{Rloc}
use plant_minder.Broker.Cli.{
  wrote, done, collect, read_line, parse_childip_output, get_children_from_cli,
}

-- One line: the locator in four digits, the address, and a carriage return.
abbrev pub child_line : (Ipv6Addr → Text) → Rloc × Ipv6Addr → Text
child_line show (r, a) = hex4 r ++ (b':' ∷ (b' ' ∷ (show a ++ 13 ∷ [])))

-- The whole output: the lines, and then `Done`.
abbrev pub child_lines : (Ipv6Addr → Text) → List (Rloc × Ipv6Addr) → Text
child_lines show [] = b'D' ∷ b'o' ∷ b'n' ∷ b'e' ∷ 13 ∷ 10 ∷ []
child_lines show (p ∷ ps) = child_line show p ++ (10 ∷ child_lines show ps)

-- The locator has sixteen bits, and the address is printed in plain characters that are read back.
abbrev pub IsPrintable : (Ipv6Addr → Text) → (Text → Option Ipv6Addr) → Rloc × Ipv6Addr → Type 0
IsPrintable show parse_ip (r, a) =
    (r < 2 ^ 16) × All IsPlain (show a) × (parse_ip (show a) ≡ some a)

hex_char-ne : (d c : ℕ) → (c < 48) ⊎ (57 < c) → c < 87 → hex_char d ≢ c
hex_char-ne d c h k e = ground arith

-- None of the digits is the given character.
hex4-without : (r c : ℕ) → (c < 48) ⊎ (57 < c) → c < 87 → All (λ x. x ≢ c) (hex4 r)
hex4-without r c h k = (
  hex_char-ne (r / 4096) c h k,
  (
    hex_char-ne (r / 256 % 16) c h k,
    (hex_char-ne (r / 16 % 16) c h k, (hex_char-ne (r % 16) c h k, tt)),
  ),
)

plain-no_newline : (t : Text) → All IsPlain t → All (λ c. c ≢ b'\n') (t ++ 13 ∷ [])
plain-no_newline [] h = (omega arith, tt)
plain-no_newline (c ∷ t) h = (omega arith, plain-no_newline t h.1)

plain-ascii : (t : Text) → All IsPlain t → All (λ b. b < 0x80) (t ++ 13 ∷ [])
plain-ascii [] h = (omega arith, tt)
plain-ascii (c ∷ t) h = (omega arith, plain-ascii t h.1)

hex_char-ascii : (d : ℕ) → d < 16 → hex_char d < 0x80
hex_char-ascii d h = ground arith

hex4-ascii : (r : ℕ) → r < 2 ^ 16 → All (λ b. b < 0x80) (hex4 r)
hex4-ascii r h = (
  hex_char-ascii (r / 4096) (omega arith),
  (
    hex_char-ascii (r / 256 % 16) (omega arith),
    (hex_char-ascii (r / 16 % 16) (omega arith), (hex_char-ascii (r % 16) (omega arith), tt)),
  ),
)

collect-some {ℓ} :
    {A B : Type ℓ} (f : A → Option B) (x : A) (xs : List A) (y : B)
    → f x ≡ some y
    → collect f (x ∷ xs) ≡ y ∷ collect f xs
unfolding collect
collect-some f x xs y h = rw (h, collect)

newline-kept : (n : ℕ) (t : Text) → trim_rounds n (reverse done ∷ []) (b'\n' ∷ t) ≡ b'\n' ∷ t
unfolding trim_rounds strip_any strip_prefix
newline-kept zero t = refl
newline-kept (suc n) t = refl

-- A text that ends in a newline does not end in `Done`.
untrimmed : (s : Text) → trim_end_matches done (s ++ b'\n' ∷ []) ≡ s ++ b'\n' ∷ []
unfolding trim_end_matches
untrimmed s =
    rw (reverse-append s (b'\n' ∷ []), newline-kept (length (s ++ b'\n' ∷ [])) (reverse s))
      (reverse-cons b'\n' (reverse s) ∙ ap (λ l. l ++ b'\n' ∷ []) (reverse-reverse s))

module _ (show : Ipv6Addr → Text) (parse_ip : Text → Option Ipv6Addr) where
  read_line-child_line :
      (p : Rloc × Ipv6Addr)
      → IsPrintable show parse_ip p
      → read_line parse_ip (child_line show p) ≡ some p
  unfolding read_line
  read_line-child_line (r, a) (h, plain, back) = rw (
    split_at_find-append b':' (b' ' ∷ []) (hex4 r) (show a ++ 13 ∷ [])
        (hex4-without r b':' (inr (omega arith)) (omega arith)),
    read_line,
    trim_start_matches-plain (show a) plain,
    trim_plain (show a) plain,
    back,
    from_str_radix_16-hex4 r h,
  )

  child_line-no_newline :
      (p : Rloc × Ipv6Addr) → IsPrintable show parse_ip p → All (λ c. c ≢ b'\n') (child_line show p)
  child_line-no_newline (r, a) (h, plain, back) =
      All-append (λ c. c ≢ b'\n') (hex4 r) (b':' ∷ (b' ' ∷ (show a ++ 13 ∷ [])))
        (hex4-without r b'\n' (inl (omega arith)) (omega arith))
        (omega arith, (omega arith, plain-no_newline (show a) plain))

  collect-child_lines :
      (ps : List (Rloc × Ipv6Addr))
      → All (IsPrintable show parse_ip) ps
      → collect (read_line parse_ip) (split b'\n' (child_lines show ps)) ≡ ps
  collect-child_lines [] h = unfold collect read_line split split_at_find strip_prefix in refl
  collect-child_lines (p ∷ ps) h =
      rw
        (split-append b'\n' (child_line show p) (child_lines show ps) (child_line-no_newline p h.0))
        (collect-some (read_line parse_ip) _ _ p (read_line-child_line p h.0)
          ∙ ap (◌∷◌ p) (collect-child_lines ps h.1))

  child_lines-newline :
      (ps : List (Rloc × Ipv6Addr)) → (s : Text) × (child_lines show ps ≡ s ++ b'\n' ∷ [])
  child_lines-newline [] = (b'D' ∷ b'o' ∷ b'n' ∷ b'e' ∷ 13 ∷ [], refl)
  child_lines-newline (p ∷ ps) =
      let (s, e) = child_lines-newline ps in
      (
        child_line show p ++ (b'\n' ∷ s),
        rw (e, append_assoc (child_line show p) (b'\n' ∷ s) (b'\n' ∷ [])),
      )

  parse_childip_output-child_lines :
      (ps : List (Rloc × Ipv6Addr))
      → All (IsPrintable show parse_ip) ps
      → parse_childip_output parse_ip (child_lines show ps) ≡ ps
  unfolding parse_childip_output
  parse_childip_output-child_lines ps h =
      let (s, e) = child_lines-newline ps in rw (e, untrimmed s, ← e) (collect-child_lines ps h)

  child_lines-ascii :
      (ps : List (Rloc × Ipv6Addr))
      → All (IsPrintable show parse_ip) ps
      → All (λ b. b < 0x80) (child_lines show ps)
  child_lines-ascii [] h = omega arith
  child_lines-ascii ((r, a) ∷ ps) (h, hs) =
      All-append (λ b. b < 0x80) (child_line show (r, a)) (10 ∷ child_lines show ps)
        (All-append (λ b. b < 0x80) (hex4 r) (b':' ∷ (b' ' ∷ (show a ++ 13 ∷ [])))
          (hex4-ascii r h.0) (omega arith, (omega arith, plain-ascii (show a) h.1)))
        (omega arith, child_lines-ascii ps hs)

  -- The command line client reads back every list of nodes that `ot-ctl childip` prints, with the
  -- sixteen bit locators and the addresses in place and in order, if each address is printed in plain
  -- characters that the parser of addresses reads back; the closing `Done` adds nothing.
  pub get_children-child_lines :
      (ps : List (Rloc × Ipv6Addr))
      → All (IsPrintable show parse_ip) ps
      → get_children_from_cli parse_ip (wrote (child_lines show ps)) ≡ ok ps
  unfolding get_children_from_cli
  get_children-child_lines ps h =
      rw (from_utf8-ascii (child_lines show ps) (child_lines-ascii ps h))
        (ap ok (parse_childip_output-child_lines ps h))
