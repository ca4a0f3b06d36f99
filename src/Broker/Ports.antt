-- ===== src/Broker/Ports.antt =====
-- `Ports` of pmind-broker/src/monitor.rs: the pool of free receive ports.
pub mod Laws
use plant_minder.Base.{
  ℕ, zero, suc, ◌+◌, ◌^◌, ◌≡◌, ◌≢◌, Option, none, some, [], ◌∷◌, if◌then◌else◌, leb, nat_eq, Result,
  ok, err, Bool, true, false,
}
use plant_minder.Map.{Map, lookup, insert, remove, contains_key}
use plant_minder.Broker.Types.{OtMonitorError, port_error}

-- A `HashSet` is a map to the unit, as in Rust.
abbrev pub PortSet : Type 0
PortSet = Map ℕ (Unit {0})

pub record Ports : Type 0 where
  pub base : ℕ
  pub ports : PortSet

-- `set.iter().next()`: some member, which one is left open by Rust.
pub record Order : Type 0 where
  pub first : PortSet → Option ℕ
  pub first_mem : (s : PortSet) (p : ℕ) → first s ≡ some p → lookup p s ≡ some tt
  pub first_total : (s : PortSet) → s ≢ [] → first s ≢ none

unfoldable pub default : Ports
unfolding insert
default = record {
  base = 6666;
  ports = insert 6666 tt (insert 6667 tt (insert 6668 tt (insert 6669 tt [])));
}

-- `for i in i..i + n { ports.insert(base + i) }`
unfoldable pub insert_range : ℕ → ℕ → ℕ → PortSet → PortSet
insert_range base i zero s = s
insert_range base i (suc n) s = insert_range base (i + 1) n (insert (base + i) tt s)

-- `base` and `size` are below 2 ^ 16.
unfoldable pub new : ℕ → ℕ → Result Ports OtMonitorError
unfolding insert_range
new base size =
    if leb (2 ^ 16) (base + size)
    then err (port_error "Incompatible port base + size requested")
    else ok (record { base = base; ports = insert_range base 0 size [] })

unfoldable pub mark_port_free_to_use : Ports → ℕ → Ports
mark_port_free_to_use s port = record s { ports = insert port tt s.ports }

unfoldable pub is_empty : PortSet → Bool
is_empty [] = true
is_empty (_ ∷ _) = false

abbrev pub or_base : ℕ → Option ℕ → ℕ
or_base base none = base
or_base base (some top) = top

unfoldable pub get_free_port : Order → Ports → Result ℕ OtMonitorError × Ports
unfolding is_empty
get_free_port o s =
    let port = or_base s.base (o.first s.ports) in
    if is_empty s.ports
    then (err (port_error "No free ports available"), s)
    else (ok port, record s { ports = remove port s.ports })

abbrev pub is_free : Ports → ℕ → Bool
is_free s p = contains_key p s.ports
