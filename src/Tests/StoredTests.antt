-- ===== src/Tests/StoredTests.antt =====
-- Tests of the readings that are stored.
use plant_minder.Base.{
  ◌≡◌, refl, inl, inr, List, [], ◌∷◌, false, Bool-cases, Option, none, some, ◌==◌, list_eq,
  list_beq_iff, arith,
}
use plant_minder.Map.{Map, lookup}
use plant_minder.Text.{Text}
use plant_minder.Broker.Types.{Eui, NodeSensorReading}
use plant_minder.Database.{
  Queried, found, missing, query_failed, PlantRecord, insert_reading, stream_task,
}
use plant_minder.Database.Streams.{AddrLaws, Owns, Stores, AllHandled, stream_task_lem}
use plant_minder.Tests.{mesh, reading_from, eui_of}
use plant_minder.Tests.DatabaseTests.{
  memory, memory_laws, conversions, stored, plant_7, by_addr, checked,
}

found_at :
    (table : Map Eui PlantRecord) (t : Text) (m : Map Eui PlantRecord) (p : PlantRecord)
    → by_addr table t m ≡ found p
    → (lookup p.eui table ≡ some p) × (p.addr ≡ t)
found_at table t [] p h = cc
found_at table t ((j, v) ∷ m) p h = here (lookup j table) refl h (found_at table t m p)
  where
    here :
        (o : Option PlantRecord)
        → lookup j table ≡ o
        → checked j t o (by_addr table t m) ≡ found p
        → (by_addr table t m ≡ found p → (lookup p.eui table ≡ some p) × (p.addr ≡ t))
        → (lookup p.eui table ≡ some p) × (p.addr ≡ t)
    here none e h ih = ih h
    here (some q) e h ih = ground (arith, list_beq_iff q.addr t, list_beq_iff q.eui j, ih)

checked_missing :
    (j : Eui) (t : Text) (o : Option PlantRecord) (rest : Queried PlantRecord)
    → checked j t o rest ≡ missing
    → rest ≡ missing
checked_missing j t none rest h = h
checked_missing j t (some p) rest h = ground arith

other_addr :
    (j : Eui) (t : Text) (o : Option PlantRecord) (p : PlantRecord) (rest : Queried PlantRecord)
    → checked j t o rest ≡ missing
    → o ≡ some p
    → (p.addr == t) ≡ false
other_addr j t none p rest h e = cc
other_addr j t (some q) p rest h e = ground arith

missed_by :
    (table : Map Eui PlantRecord) (t : Text) (m : Map Eui PlantRecord)
    → by_addr table t m ≡ missing
    → (e : Eui) (p v : PlantRecord) → lookup e m ≡ some v
    → lookup e table ≡ some p
    → (p.addr == t) ≡ false
unfolding lookup
missed_by table t [] h e p v k l = cc
missed_by table t ((j, w) ∷ m) h e p v k l = elim (Bool-cases (j == e)) [
  | inl same ↦
      other_addr j t (lookup j table) p (by_addr table t m) h (rw ((list_beq_iff j e).0 same) l)
  | inr other ↦
      missed_by table t m (checked_missing j t (lookup j table) (by_addr table t m) h) e p v
        (rw other at k) l
]

memory-AddrLaws : AddrLaws memory memory_laws
memory-AddrLaws = record {
  addr_found = λ a t p h. found_at t.plants a t.plants p h;
  addr_missing = λ a t h e p k. missed_by t.plants a t.plants h e p p k k;
}

-- Of three senders one is known.
abbrev received : List NodeSensorReading
received = reading_from 7 ∷ reading_from 8 ∷ reading_from 7 ∷ []

only_plant :
    (j : Eui) (p : PlantRecord)
    → lookup j stored.plants ≡ some p
    → p.addr ≡ mesh 7 ∷ []
    → j ≡ eui_of 7
unfolding lookup
only_plant j p h at = ground (arith, list_beq_iff (eui_of 7) j)

stored-Owns : Owns memory memory_laws conversions (eui_of 7) (mesh 7 ∷ []) stored
unfolding lookup
stored-Owns = record { plant = plant_7; known = refl; at = refl; only = only_plant }

received-AllHandled :
    AllHandled memory memory_laws conversions (eui_of 7) (mesh 7 ∷ []) received stored
unfolding insert_reading lookup plant_minder.Database.insert_rows
received-AllHandled = (inl refl, (inr refl, (inl refl, tt)))

stream_task_example :
    Stores memory memory_laws conversions
      (eui_of 7)
      (mesh 7 ∷ [])
      stored
      (stream_task memory conversions received stored)
      received
stream_task_example =
    stream_task_lem memory memory_laws conversions (eui_of 7) (mesh 7 ∷ []) memory-AddrLaws received
      stored received-AllHandled stored-Owns
