-- ===== src/Database/Registry.antt =====
-- The task that follows the states of the nodes: what it makes of a plant's record in the end.
use plant_minder.Base.{
  ℕ, ◌+◌, ◌-◌, ◌%◌, ◌^◌, ◌<◌, ◌≡◌, ◌⊎◌, refl, ap, ◌∙◌, List, [], ◌∷◌, Option, none, some,
  if◌then◌else◌, ok, arith, ◌==◌, list_eq, nat_eq, list_beq_iff, Bool-cases, inl, inr,
}
use plant_minder.Map.{lookup}
use plant_minder.Text.{Text}
use plant_minder.Broker.Types.{Eui, NodeStatus, registration, termination}
use plant_minder.Database.{
  Sql, PlantRecord, CreateOrModify, Conversions, create_or_modify, registry_task, new_plant,
}
use plant_minder.Database.Laws.{SqlLaws}
use plant_minder.Database.Plants.{registered_plant, create_or_modify_lem}

module _ (c : Conversions) (e : Eui) where
  -- How often the plant is registered, and the name and the address of the last time.
  abbrev pub times : List NodeStatus → ℕ
  times [] = 0
  times (registration (eui, addr, name) ∷ rest) = (if eui == e then 1 else 0) + times rest
  times (termination addr x ∷ rest) = times rest

  abbrev pub latest : List NodeStatus → Text × Text → Text × Text
  latest [] last = last
  latest (registration (eui, addr, name) ∷ rest) last =
      latest rest (if eui == e then (name, c.show addr) else last)
  latest (termination addr x ∷ rest) last = latest rest last

  -- A plant that is not known has its first record without an update.
  abbrev pub record_after : List NodeStatus → Option PlantRecord → Option PlantRecord
  record_after es none =
      if times es == 0
      then none
      else some (record {
        eui = e;
        name = (latest es ([], [])).0;
        species = [];
        addr = (latest es ([], [])).1;
        update_count = (times es - 1) % 2 ^ 32;
      })
  record_after es (some r) = some (record r {
    name = (latest es (r.name, r.addr)).0;
    addr = (latest es (r.name, r.addr)).1;
    update_count = (r.update_count + times es) % 2 ^ 32;
  })

  -- The same, one state after the other.
  abbrev pub one_by_one : List NodeStatus → Option PlantRecord → Option PlantRecord
  one_by_one [] o = o
  one_by_one (registration (eui, addr, name) ∷ rest) o = one_by_one rest (
      if eui == e
      then some (registered_plant c (record { eui = eui; addr = addr; name = name }) o)
      else o)
  one_by_one (termination addr x ∷ rest) o = one_by_one rest o

  known_after :
      (es : List NodeStatus) (r : PlantRecord)
      → r.update_count < 2 ^ 32
      → one_by_one es (some r) ≡ record_after es (some r)
  unfolding new_plant
  known_after [] r small = ground arith
  known_after (registration (eui, addr, name) ∷ rest) r small = elim (Bool-cases (eui == e)) [
    | inl same ↦ rw same (known_after rest _ (omega arith) ∙ ground arith)
    | inr different ↦ rw different (known_after rest r small ∙ ground arith)
  ]
  known_after (termination addr x ∷ rest) r small = known_after rest r small

  new_after : (es : List NodeStatus) → one_by_one es none ≡ record_after es none
  unfolding new_plant
  new_after [] = refl
  new_after (registration (eui, addr, name) ∷ rest) = elim (Bool-cases (eui == e)) [
    | inl same ↦ rw same (known_after rest _ (omega arith) ∙ ground (arith, list_beq_iff eui e))
    | inr different ↦ rw different (new_after rest ∙ ground arith)
  ]
  new_after (termination addr x ∷ rest) = new_after rest

module _ (Q : Sql) (L : SqlLaws Q) (c : Conversions) where
  -- Every registration succeeds.
  abbrev pub Succeeds : Type 0
  Succeeds = (msg : CreateOrModify) (st : Q.Store) → (create_or_modify Q c msg st).0 ≡ ok tt

  pub registry_one_by_one :
      (e : Eui) (es : List NodeStatus) (st : Q.Store)
      → Succeeds
      → lookup e (L.tables (registry_task Q c es st)).plants
        ≡ one_by_one c e es (lookup e (L.tables st).plants)
  unfolding registry_task
  registry_one_by_one e [] st done = refl
  registry_one_by_one e (registration (eui, addr, name) ∷ rest) st done =
      let msg : CreateOrModify = record { eui = eui; addr = addr; name = name } in
      registry_one_by_one e rest (create_or_modify Q c msg st).1 done
      ∙ ap (one_by_one c e rest) (create_or_modify_lem Q L c msg st (done msg st) e)
  registry_one_by_one e (termination addr x ∷ rest) st done = registry_one_by_one e rest st done

  same_as_record :
      (e : Eui) (es : List NodeStatus) (o : Option PlantRecord)
      → (o ≡ none) ⊎ (r : PlantRecord) × (o ≡ some r) × (r.update_count < 2 ^ 32)
      → one_by_one c e es o ≡ record_after c e es o
  same_as_record e es o (inl new) = rw new (new_after c e es)
  same_as_record e es o (inr (r, known, small)) = rw known (known_after c e es r small)

  -- Once the task has followed the states in a list, each plant's record is as the list has it: the name
  -- and the address of its last registration, and an update for each registration, but for the one that
  -- makes a new plant's record, on top of those the record had, modulo 2 ^ 32. Registrations of other
  -- plants and lost nodes make no difference. Every registration succeeds, and a record that is there at
  -- the start has a count below 2 ^ 32.
  pub registry_task_lem :
      (e : Eui) (es : List NodeStatus) (st : Q.Store)
      → Succeeds
      → (lookup e (L.tables st).plants ≡ none)
        ⊎ (r : PlantRecord) × (lookup e (L.tables st).plants ≡ some r) × (r.update_count < 2 ^ 32)
      → lookup e (L.tables (registry_task Q c es st)).plants
        ≡ record_after c e es (lookup e (L.tables st).plants)
  registry_task_lem e es st done bounded =
      registry_one_by_one e es st done ∙ same_as_record e es (lookup e (L.tables st).plants) bounded
