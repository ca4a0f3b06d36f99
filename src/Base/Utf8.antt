-- ===== src/Base/Utf8.antt =====
-- `String::from_utf8` of Rust's library: which byte sequences are well-formed UTF-8.
use Prim.Native.Nat.{ℕ, zero, suc, ◌<◌}
use mathlib.Core.Path.{◌≡◌, refl}
use mathlib.Core.Bool.{Bool, true, false, ◌&&◌}
use mathlib.Core.Option.{Option, none, some}
use mathlib.Core.List.{List, [], ◌∷◌}
use native.Mathlib.Omega.{arith}
use plant_minder.Base.Tests.{ltb, leb, nat_beq, if◌then◌else◌}
use plant_minder.Base.Lists.{All}

-- How many continuation bytes are due, and the range of the next one.
pub record Due : Type 0 where
  pub count : ℕ
  pub low : ℕ
  pub high : ℕ

abbrev due : ℕ → ℕ → ℕ → Option Due
due n lo hi = some (record { count = n; low = lo; high = hi })

abbrev pub at_start : Due
at_start = record { count = 0; low = 0x80; high = 0xbf }

abbrev within : ℕ → ℕ → ℕ → Bool
within lo b hi = leb lo b && leb b hi

lead : ℕ → Option Due
lead b =
    if ltb b 0x80
    then some at_start
    else if within 0xc2 b 0xdf
    then due 1 0x80 0xbf
    else if nat_beq b 0xe0
    then due 2 0xa0 0xbf
    else if nat_beq b 0xed
    then due 2 0x80 0x9f
    else if within 0xe1 b 0xef
    then due 2 0x80 0xbf
    else if nat_beq b 0xf0
    then due 3 0x90 0xbf
    else if within 0xf1 b 0xf3
    then due 3 0x80 0xbf
    else if nat_beq b 0xf4
    then due 3 0x80 0x8f
    else none

next_byte : ℕ → ℕ → ℕ → ℕ → Option Due
unfolding lead
next_byte zero lo hi b = lead b
next_byte (suc n) lo hi b = if within lo b hi then due n 0x80 0xbf else none

well_formed_from : Option Due → List ℕ → Bool
unfolding next_byte
well_formed_from none bs = false
well_formed_from (some d) [] = nat_beq d.count 0
well_formed_from (some d) (b ∷ bs) = well_formed_from (next_byte d.count d.low d.high b) bs

unfoldable pub from_utf8 : List ℕ → Option (List ℕ)
unfolding well_formed_from
from_utf8 bs = if well_formed_from (some at_start) bs then some bs else none

well_formed-ascii :
    (bs : List ℕ) → All (λ b. b < 0x80) bs → well_formed_from (some at_start) bs ≡ true
unfolding well_formed_from
well_formed-ascii [] h = refl
well_formed-ascii (b ∷ bs) h = ground (arith, well_formed-ascii bs h.1)

-- ASCII text is kept as it is.
pub from_utf8-ascii : (bs : List ℕ) → All (λ b. b < 0x80) bs → from_utf8 bs ≡ some bs
unfolding from_utf8
from_utf8-ascii bs h = rw (well_formed-ascii bs h)

-- An accepted string is the bytes themselves.
pub from_utf8-eq : (bs s : List ℕ) → from_utf8 bs ≡ some s → s ≡ bs
unfolding from_utf8
from_utf8-eq bs s h = ground arith

accent : from_utf8 (0x63 ∷ 0xc3 ∷ 0xa9 ∷ []) ≡ some (0x63 ∷ 0xc3 ∷ 0xa9 ∷ [])
unfolding from_utf8
accent = refl

cut_short : from_utf8 (0x63 ∷ 0xc3 ∷ []) ≡ none
unfolding from_utf8
cut_short = refl
