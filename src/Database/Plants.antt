-- ===== src/Database/Plants.antt =====
-- The record of a plant after its registrations.
use plant_minder.Base.{
  ◌+◌, ◌%◌, ◌^◌, ◌≡◌, refl, Bool, true, false, Option, none, some, if◌then◌else◌, ok, arith, ◌==◌,
  list_eq, list_beq_iff,
}
use plant_minder.Map.{lookup}
use plant_minder.Broker.Types.{Eui}
use plant_minder.Database.{
  Sql, Queried, found, missing, query_failed, PlantRecord, CreateOrModify, Conversions, new_plant,
  modify_queried, executed, create_or_modify_plant_record, create_or_modify, Executed,
}
use plant_minder.Database.Laws.{SqlLaws}

-- The record after a registration, by the one before it.
abbrev pub registered_plant : Conversions → CreateOrModify → Option PlantRecord → PlantRecord
unfolding new_plant
registered_plant c msg none = new_plant c msg
registered_plant c msg (some old) = record old {
  name = msg.name;
  addr = c.show msg.addr;
  update_count = (old.update_count + 1) % 2 ^ 32;
}

module _ (Q : Sql) (L : SqlLaws Q) (c : Conversions) where
  -- What the registration has done to the plants if it reports success.
  abbrev pub Registers : CreateOrModify → Q.Store → Executed Q c → Type 0
  Registers msg st r =
      (e : Eui)
      → lookup e (L.tables r.1).plants ≡ (
          if msg.eui == e
          then some (registered_plant c msg (lookup e (L.tables st).plants))
          else lookup e (L.tables st).plants)

  updated :
      (msg : CreateOrModify) (st : Q.Store) (old : PlantRecord) (p : Bool × Q.Store)
      → lookup msg.eui (L.tables st).plants ≡ some old
      → Q.insert_or_update
          (new_plant c msg)
          msg.name
          (c.show msg.addr)
          ((old.update_count + 1) % 2 ^ 32)
          st
        ≡ p
      → (executed Q c p).0 ≡ ok tt
      → Registers msg st (executed Q c p)
  unfolding new_plant
  updated msg st old (true, st') known e done = λ (j : Eui). ground (
    arith,
    L.plant_updated (new_plant c msg) msg.name (c.show msg.addr) ((old.update_count + 1) % 2 ^ 32)
        st st' old known e j,
    list_beq_iff msg.eui j,
    known,
  )
  updated msg st old (false, st') known e done = cc

  inserted :
      (msg : CreateOrModify) (st : Q.Store) (p : Bool × Q.Store)
      → lookup msg.eui (L.tables st).plants ≡ none
      → Q.insert_plant (new_plant c msg) st ≡ p
      → (executed Q c p).0 ≡ ok tt
      → Registers msg st (executed Q c p)
  unfolding new_plant
  inserted msg st (true, st') fresh e done = λ (j : Eui).
      ground (arith, L.plant_inserted (new_plant c msg) st st' e j, list_beq_iff msg.eui j, fresh)
  inserted msg st (false, st') fresh e done = cc

  by_query :
      (msg : CreateOrModify) (st : Q.Store) (q : Queried PlantRecord)
      → Q.find msg.eui st ≡ q
      → (modify_queried Q c (new_plant c msg) st q).0 ≡ ok tt
      → Registers msg st (modify_queried Q c (new_plant c msg) st q)
  unfolding new_plant
  by_query msg st (found node) e done =
      updated msg st node _ (L.find_found msg.eui st node e) refl done
  by_query msg st missing e done = inserted msg st _ (L.find_missing msg.eui st e) refl done
  by_query msg st query_failed e done = cc

  -- A registration that succeeds writes the plant's name and address down and counts an update, and
  -- the count wraps at 32 bits; a plant that is new starts at zero updates. No other plant changes.
  pub create_or_modify_lem :
      (msg : CreateOrModify) (st : Q.Store)
      → (create_or_modify Q c msg st).0 ≡ ok tt
      → Registers msg st (create_or_modify Q c msg st)
  unfolding create_or_modify create_or_modify_plant_record new_plant
  create_or_modify_lem msg st done = by_query msg st (Q.find msg.eui st) refl done
