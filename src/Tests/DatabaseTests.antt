-- ===== src/Tests/DatabaseTests.antt =====
-- Tests of the database on tables in memory.
use plant_minder.Base.{
  ℕ, ◌≡◌, refl, inr, arith, List, [], ◌∷◌, ◌++◌, Bool, true, Option, none, some, if◌then◌else◌,
  ◌==◌, list_eq, ok, ap, sym, ◌∙◌,
}
use plant_minder.Map.{Map, lookup, insert}
use plant_minder.Map.Laws.{lookup-insert}
use plant_minder.Text.{Text}
use plant_minder.Broker.Types.{Eui}
use plant_minder.Database.{
  Sql, Queried, found, missing, query_failed, PlantRecord, CreateOrModify, Conversions, NewGasData,
  NewLightData, NewMoistureData, new_plant, create_or_modify, insert_reading, registry_task,
  modify_queried, gas_row, light_row, moisture_row,
}
use plant_minder.Database.Laws.{Tables, SqlLaws}
use plant_minder.Database.Registry.{Succeeds, record_after, registry_task_lem}
use plant_minder.Broker.Types.{NodeStatus, registration, termination, timeout}
use plant_minder.Tests.{mesh, reading_from, eui_of}

abbrev found_or_missing : Option PlantRecord → Queried PlantRecord
found_or_missing none = missing
found_or_missing (some p) = found p

abbrev pub checked : Eui → Text → Option PlantRecord → Queried PlantRecord → Queried PlantRecord
checked j t none rest = rest
checked j t (some p) rest =
    if p.addr == t then (if p.eui == j then found p else query_failed) else rest

-- A scan of the keys. A record under a key that is not its own is an error.
abbrev pub by_addr : Map Eui PlantRecord → Text → Map Eui PlantRecord → Queried PlantRecord
by_addr table t [] = missing
by_addr table t ((j, _) ∷ m) = let rest = by_addr table t m in checked j t (lookup j table) rest

abbrev update_or_insert : PlantRecord → Text → Text → ℕ → Option PlantRecord → PlantRecord
update_or_insert p name addr count none = p
update_or_insert p name addr count (some old) = record old {
  name = name;
  addr = addr;
  update_count = count;
}

abbrev pub memory : Sql
memory = record {
  Store = Tables;
  find = λ e t. found_or_missing (lookup e t.plants);
  first_by_addr = λ a t. by_addr t.plants a t.plants;
  insert_plant = λ p t. (true, record t { plants = insert p.eui p t.plants });
  insert_or_update = λ p name addr count t. (
    true,
    record t {
      plants = insert p.eui (update_or_insert p name addr count (lookup p.eui t.plants)) t.plants;
    },
  );
  insert_gas = λ r t. (true, record t { gas = t.gas ++ r ∷ [] });
  insert_light = λ r t. (true, record t { light = t.light ++ r ∷ [] });
  insert_moisture = λ r t. (true, record t { moisture = t.moisture ++ r ∷ [] });
}

pub found_lem :
    (o : Option PlantRecord) (p : PlantRecord) → found_or_missing o ≡ found p → o ≡ some p
found_lem none p h = cc
found_lem (some q) p h = cc

pub missing_lem : (o : Option PlantRecord) → found_or_missing o ≡ missing → o ≡ none
missing_lem none h = refl
missing_lem (some q) h = cc

abbrev second : Bool × Tables → Tables
second p = p.1

abbrev pub memory_laws : SqlLaws memory
memory_laws = record {
  tables = λ t. t;
  find_found = λ e t p h. found_lem (lookup e t.plants) p h;
  find_missing = λ e t h. missing_lem (lookup e t.plants) h;
  plant_inserted = λ p t t' h e.
      ap (λ (x : Tables). lookup e x.plants) (sym (ap second h)) ∙ lookup-insert p.eui e p t.plants;
  plant_updated = λ p name addr count t t' old known h e.
      ap (λ (x : Tables). lookup e x.plants) (sym (ap second h))
      ∙ rw known (
          lookup-insert p.eui e (record old { name = name; addr = addr; update_count = count })
            t.plants);
  gas_inserted = λ r t t' h. sym (ap second h);
  light_inserted = λ r t t' h. sym (ap second h);
  moisture_inserted = λ r t t' h. sym (ap second h);
}

abbrev pub conversions : Conversions
conversions = record { show = λ a. a ∷ []; from_nat = λ n. n; naive_utc = λ t. t }

abbrev pub plant_7 : PlantRecord
plant_7 = record {
  eui = eui_of 7;
  name = b'f' ∷ [];
  species = [];
  addr = mesh 7 ∷ [];
  update_count = 3;
}

abbrev pub stored : Tables
stored = record { plants = (eui_of 7, plant_7) ∷ []; gas = []; light = []; moisture = [] }

abbrev moves : CreateOrModify
moves = record { eui = eui_of 7; addr = mesh 9; name = b'g' ∷ [] }

moves_succeeds : (create_or_modify memory conversions moves stored).0 ≡ ok tt
unfolding create_or_modify lookup
moves_succeeds = refl

insert_succeeds : (insert_reading memory conversions (reading_from 7) stored).0 ≡ ok tt
unfolding insert_reading plant_minder.Database.insert_rows lookup
insert_succeeds = refl

queried_succeeds :
    (plant : PlantRecord) (st : Tables) (o : Option PlantRecord)
    → (modify_queried memory conversions plant st (found_or_missing o)).0 ≡ ok tt
queried_succeeds plant st none = refl
queried_succeeds plant st (some old) = refl

pub memory_succeeds : Succeeds memory memory_laws conversions
unfolding create_or_modify
memory_succeeds msg st = queried_succeeds (new_plant conversions msg) st (lookup msg.eui st.plants)

-- A plant that is stored moves twice, while another is new and lost.
abbrev states : List NodeStatus
states =
    registration (eui_of 7, mesh 9, b'g' ∷ [])
    ∷ registration (eui_of 8, mesh 8, b'h' ∷ [])
    ∷ termination (reading_from 8).addr timeout
    ∷ registration (eui_of 7, mesh 6, b'i' ∷ [])
    ∷ []

lookup_7 : lookup (eui_of 7) stored.plants ≡ some plant_7
unfolding lookup
lookup_7 = refl

registry_task_example :
    lookup (eui_of 7) (memory_laws.tables (registry_task memory conversions states stored)).plants
    ≡ record_after conversions (eui_of 7) states (lookup (eui_of 7) stored.plants)
registry_task_example =
    registry_task_lem memory memory_laws conversions (eui_of 7) states stored memory_succeeds
      (inr (plant_7, lookup_7, omega arith))
