-- ===== src/Broker/Router/Names.antt =====
-- The names under which plants are registered.
use plant_minder.Base.{
  ℕ, ◌≤◌, ◌≡◌, refl, ◌⊎◌, inl, inr, List, [], ◌++◌, arith, if◌then◌else◌, length, ltb, take, drop,
  take_all, take-append-drop, sym, length-take-le, from_utf8, from_utf8-eq, Option-cases,
}
use plant_minder.Broker.Types.{max_plant_name_size}
use plant_minder.Broker.Router.{plant_name}

cut_name :
    (name : List ℕ)
    → (if ltb max_plant_name_size (length name) then take max_plant_name_size name else name)
      ≡ take max_plant_name_size name
cut_name name = ground (arith, take_all max_plant_name_size name)

-- Empty or a beginning of the name, and at most twenty bytes.
abbrev pub IsCut : List ℕ → List ℕ → Type 0
IsCut name shown =
    ((shown ≡ []) ⊎ ((rest : List ℕ) × (name ≡ shown ++ rest)))
    × (length shown ≤ max_plant_name_size)

-- The name under which a plant is registered has at most twenty bytes, and it is empty or the
-- beginning of the reported one, whatever bytes the node reports.
pub plant_name_lem : (name : List ℕ) → IsCut name (plant_name name)
unfolding plant_name
plant_name_lem name =
    let cut = take max_plant_name_size name in
    rw (cut_name name) (elim (Option-cases (from_utf8 cut)) [
      | inl q ↦ rw q (inl refl, omega arith)
      | inr (s, q) ↦
          rw (q, from_utf8-eq cut s q)
            (
              inr (drop max_plant_name_size name, sym (take-append-drop max_plant_name_size name)),
              length-take-le max_plant_name_size name,
            )
    ])
