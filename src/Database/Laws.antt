-- ===== src/Database/Laws.antt =====
-- What the statements do to the four tables, as the documentation of SQL and Diesel has it.
use plant_minder.Base.{ℕ, ◌≡◌, List, [], ◌∷◌, ◌++◌, true, none, some, if◌then◌else◌, ◌==◌, list_eq}
use plant_minder.Map.{Map, lookup}
use plant_minder.Text.{Text}
use plant_minder.Broker.Types.{Eui}
use plant_minder.Database.{
  Sql, PlantRecord, NewGasData, NewLightData, NewMoistureData, found, missing,
}

-- The plants by their identifiers, which are the primary key, and the rows of readings in order.
pub record Tables : Type 0 where
  pub plants : Map Eui PlantRecord
  pub gas : List NewGasData
  pub light : List NewLightData
  pub moisture : List NewMoistureData

pub record SqlLaws (Q : Sql) : Type 0 where
  pub tables : Q.Store → Tables
  pub find_found :
      (e : Eui) (st : Q.Store) (p : PlantRecord)
      → Q.find e st ≡ found p
      → lookup e (tables st).plants ≡ some p
  pub find_missing :
      (e : Eui) (st : Q.Store) → Q.find e st ≡ missing → lookup e (tables st).plants ≡ none
  pub plant_inserted :
      (p : PlantRecord) (st st' : Q.Store)
      → Q.insert_plant p st ≡ (true, st')
      → (e : Eui)
      → lookup e (tables st').plants ≡ (if p.eui == e then some p else lookup e (tables st).plants)
  pub plant_updated :
      (p : PlantRecord) (name addr : Text) (count : ℕ) (st st' : Q.Store) (old : PlantRecord)
      → lookup p.eui (tables st).plants ≡ some old
      → Q.insert_or_update p name addr count st ≡ (true, st')
      → (e : Eui)
      → lookup e (tables st').plants ≡ (
          if p.eui == e
          then some (record old { name = name; addr = addr; update_count = count })
          else lookup e (tables st).plants)
  pub gas_inserted :
      (r : NewGasData) (st st' : Q.Store)
      → Q.insert_gas r st ≡ (true, st')
      → tables st' ≡ record (tables st) { gas = (tables st).gas ++ r ∷ [] }
  pub light_inserted :
      (r : NewLightData) (st st' : Q.Store)
      → Q.insert_light r st ≡ (true, st')
      → tables st' ≡ record (tables st) { light = (tables st).light ++ r ∷ [] }
  pub moisture_inserted :
      (r : NewMoistureData) (st st' : Q.Store)
      → Q.insert_moisture r st ≡ (true, st')
      → tables st' ≡ record (tables st) { moisture = (tables st).moisture ++ r ∷ [] }
