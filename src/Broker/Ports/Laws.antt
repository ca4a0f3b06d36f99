-- ===== src/Broker/Ports/Laws.antt =====
-- What the pool of free ports holds after each of its operations.
use plant_minder.Base.{
  ℕ, zero, suc, ◌+◌, ◌^◌, ◌≤◌, ◌<◌, ◌≡◌, ◌⊎◌, refl, some, [], ◌∷◌, if◌then◌else◌, leb, ltb, ◌==◌,
  nat_eq, Result, ok, err, true, false, ◌&&◌, ◌||◌, arith, Option-cases, Bool-cases, leb→le, inl,
  inr,
}
use plant_minder.Map.{lookup, insert, remove, contains_key, IsMap}
use plant_minder.Map.Laws.{lookup-insert, lookup-remove, insert-IsMap}
use plant_minder.Broker.Types.{OtMonitorError, port_error}
use plant_minder.Broker.Ports.{
  PortSet, Ports, Order, insert_range, new, mark_port_free_to_use, get_free_port, is_free,
}

insert_range-IsMap : (base i n : ℕ) (s : PortSet) → IsMap s → IsMap (insert_range base i n s)
unfolding insert_range
insert_range-IsMap base i zero s h = h
insert_range-IsMap base i (suc n) s h =
    insert_range-IsMap base (i + 1) n _ (insert-IsMap (base + i) tt s h)

contains-insert_range :
    (base i n p : ℕ) (s : PortSet)
    → contains_key p (insert_range base i n s)
      ≡ ((leb (base + i) p && ltb p (base + i + n)) || contains_key p s)
unfolding insert_range
contains-insert_range base i zero p s = ground arith
contains-insert_range base i (suc n) p s = ground (
  arith,
  contains-insert_range base (i + 1) n p (insert (base + i) tt s),
  lookup-insert (base + i) p tt s,
)

-- `Ports::new` fails exactly if the range leaves the 16-bit numbers; otherwise the free ports
-- are those of the range `base .. base + size` and no others, none of them twice.
pub new_lem :
    (base size : ℕ)
    → ((2 ^ 16 ≤ base + size)
        × (new base size ≡ err (port_error "Incompatible port base + size requested")))
      ⊎ ((s : Ports) × (base + size < 2 ^ 16)
          × (new base size ≡ ok s)
          × (s.base ≡ base)
          × IsMap s.ports
          × ((p : ℕ) → is_free s p ≡ (leb base p && ltb p (base + size))))
unfolding new lookup
new_lem base size = elim (Bool-cases (leb (2 ^ 16) (base + size))) [
  | inl big ↦ inl (leb→le _ _ big, rw big)
  | inr fits ↦ inr (
    record { base = base; ports = insert_range base 0 size [] },
    ground arith,
    rw fits,
    refl,
    insert_range-IsMap base 0 size [] tt,
    λ p. ground (arith, contains-insert_range base 0 size p []),
  )
]

-- The first member that the iteration meets.
first_found :
    (o : Order) (x : ℕ × Unit {0}) (s : PortSet)
    → (p : ℕ) × (o.first (x ∷ s) ≡ some p) × (lookup p (x ∷ s) ≡ some tt)
first_found o x s = elim (Option-cases (o.first (x ∷ s))) [
  | inl e ↦ absurd (o.first_total (x ∷ s) (λ c. cc c) e)
  | inr (p, e) ↦ (p, e, o.first_mem (x ∷ s) p e)
]

-- What `get_free_port` has done, on each of its branches.
abbrev pub Handed : Ports → Result ℕ OtMonitorError × Ports → Type 0
Handed s r =
    ((s.ports ≡ []) × (r ≡ (err (port_error "No free ports available"), s)))
    ⊎ ((p : ℕ) × (is_free s p ≡ true)
        × (r ≡ (ok p, record s { ports = remove p s.ports }))
        × ((q : ℕ) → is_free r.1 q ≡ (if p == q then false else is_free s q)))

handed :
    (o : Order) (base : ℕ) (m : PortSet)
    → let s : Ports = record { base = base; ports = m } in Handed s (get_free_port o s)
unfolding get_free_port
handed o base [] = inl (refl, refl)
handed o base (x ∷ m) =
    let (p, found, mem) = first_found o x m in
    inr (p, ground arith, ground arith, λ q. ground (arith, lookup-remove p q (x ∷ m)))

-- A port handed out was free and is no longer, and every other port is as it was. The request
-- fails exactly on the empty pool, which it leaves as it is.
pub get_free_port_lem : (o : Order) (s : Ports) → Handed s (get_free_port o s)
get_free_port_lem o s = handed o s.base s.ports

pub get_free_port-empty :
    (o : Order) (s : Ports)
    → s.ports ≡ []
    → get_free_port o s ≡ (err (port_error "No free ports available"), s)
unfolding get_free_port
get_free_port-empty o s h = ground arith

-- A port that is put back is free, and every other port is as it was.
pub mark_port_free_to_use_lem :
    (s : Ports) (p q : ℕ)
    → is_free (mark_port_free_to_use s p) q ≡ (if p == q then true else is_free s q)
unfolding mark_port_free_to_use
mark_port_free_to_use_lem s p q = ground (arith, lookup-insert p q tt s.ports)
