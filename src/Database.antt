-- ===== src/Database.antt =====
-- The database of plants and readings, pmindb/src/{db,models}.rs. Diesel's queries are a parameter.
pub mod Laws
pub mod Plants
pub mod Readings
pub mod Registry
pub mod Streams
pub mod Tasks
use plant_minder.Base.{
  ℕ, ◌+◌, ◌%◌, ◌^◌, List, [], ◌∷◌, Bool, true, false, Option, none, some, if◌then◌else◌, length,
  ◌==◌, nat_eq, Result, ok, err,
}
use plant_minder.Net.{Ipv6Addr}
use plant_minder.Text.{Text}
use plant_minder.Sensor.{F32, Soil, Light, Gas, SensorReading}
use plant_minder.Broker.Types.{Eui, NodeSensorReading, NodeStatus, registration, termination}

pub data DatabaseError : Type 0 where
  io sqlite_error other_error start_up_error : DatabaseError

-- `FromSql` and `ToSql` of the identifier.
unfoldable pub from_sql : List ℕ → Result Eui DatabaseError
from_sql bytes = if length bytes == 6 then ok bytes else err other_error

unfoldable pub to_sql : Eui → List ℕ
to_sql eui = eui

-- An `i32` is its bit pattern.
pub record PlantRecord : Type 0 where
  pub eui : Eui
  pub name : Text
  pub species : Text
  pub addr : Text
  pub update_count : ℕ

pub record CreateOrModify : Type 0 where
  pub eui : Eui
  pub addr : Ipv6Addr
  pub name : Text

pub record NewLightData : Type 0 where
  pub parent_plant_eui : Eui
  pub lux : F32
  pub fs : F32
  pub ts : ℕ

pub record NewGasData : Type 0 where
  pub parent_plant_eui : Eui
  pub temp : F32
  pub pressure : F32
  pub humidity : F32
  pub gas : F32
  pub ts : ℕ

pub record NewMoistureData : Type 0 where
  pub parent_plant_eui : Eui
  pub moisture : F32
  pub temp : F32
  pub ts : ℕ

pub data Queried (A : Type 0) : Type 0 where
  found : A → Queried A
  missing query_failed : Queried A

-- The statements that the program runs: two queries, the insertion of a plant, the update of its
-- name, address and count when its identifier is taken, and the insertion of the three readings.
pub record Sql : Type 1 where
  pub Store : Type 0
  pub find : Eui → Store → Queried PlantRecord
  pub first_by_addr : Text → Store → Queried PlantRecord
  pub insert_plant : PlantRecord → Store → Bool × Store
  pub insert_or_update : PlantRecord → Text → Text → ℕ → Store → Bool × Store
  pub insert_gas : NewGasData → Store → Bool × Store
  pub insert_light : NewLightData → Store → Bool × Store
  pub insert_moisture : NewMoistureData → Store → Bool × Store

-- `to_string` of an address, `as f32`, and the date of a timestamp.
pub record Conversions : Type 0 where
  pub show : Ipv6Addr → Text
  pub from_nat : ℕ → F32
  pub naive_utc : ℕ → ℕ

-- `NewPlant::new`; a new plant and a plant's record have the same fields.
unfoldable pub new_plant : Conversions → CreateOrModify → PlantRecord
new_plant c msg = record {
  eui = msg.eui;
  name = msg.name;
  species = [];
  addr = c.show msg.addr;
  update_count = 0;
}

module _ (Q : Sql) (c : Conversions) where
  abbrev pub Executed : Type 0
  Executed = Result (Unit {0}) DatabaseError × Q.Store

  abbrev pub executed : Bool × Q.Store → Executed
  executed (true, st) = (ok tt, st)
  executed (false, st) = (err sqlite_error, st)

  abbrev pub and_next : Executed → (Q.Store → Executed) → Executed
  and_next (ok _, st) next = next st
  and_next (err e, st) next = (err e, st)

  abbrev pub modify_queried : PlantRecord → Q.Store → Queried PlantRecord → Executed
  modify_queried plant st (found node) =
      executed
        (Q.insert_or_update plant plant.name plant.addr ((node.update_count + 1) % 2 ^ 32) st)
  modify_queried plant st missing = executed (Q.insert_plant plant st)
  modify_queried plant st query_failed = (err sqlite_error, st)

  unfoldable pub create_or_modify_plant_record : PlantRecord → Q.Store → Executed
  create_or_modify_plant_record plant st = modify_queried plant st (Q.find plant.eui st)

  -- The handler of `CreateOrModify`.
  unfoldable pub create_or_modify : CreateOrModify → Q.Store → Executed
  unfolding create_or_modify_plant_record new_plant
  create_or_modify msg st = create_or_modify_plant_record (new_plant c msg) st

  unfoldable pub gas_row : Eui → ℕ → Gas → NewGasData
  gas_row eui ts g = record {
    parent_plant_eui = eui;
    temp = g.temp;
    pressure = g.p;
    humidity = g.h;
    gas = c.from_nat g.gas;
    ts = c.naive_utc ts;
  }

  unfoldable pub light_row : Eui → ℕ → Light → NewLightData
  light_row eui ts l = record {
    parent_plant_eui = eui;
    lux = l.lux;
    fs = c.from_nat l.fs;
    ts = c.naive_utc ts;
  }

  unfoldable pub moisture_row : Eui → ℕ → Soil → NewMoistureData
  moisture_row eui ts s = record {
    parent_plant_eui = eui;
    moisture = c.from_nat s.moisture;
    temp = s.temp;
    ts = c.naive_utc ts;
  }

  unfoldable pub insert_gas_if : Eui → ℕ → Option Gas → Q.Store → Executed
  insert_gas_if eui ts none st = (ok tt, st)
  insert_gas_if eui ts (some g) st = executed (Q.insert_gas (gas_row eui ts g) st)

  unfoldable pub insert_light_if : Eui → ℕ → Option Light → Q.Store → Executed
  insert_light_if eui ts none st = (ok tt, st)
  insert_light_if eui ts (some l) st = executed (Q.insert_light (light_row eui ts l) st)

  -- Each statement stands for itself: what is inserted before one that fails stays.
  unfoldable pub insert_rows : Eui → SensorReading → Q.Store → Executed
  unfolding insert_gas_if insert_light_if
  insert_rows eui r st = and_next (insert_gas_if eui r.ts r.gas st) (λ st1.
      and_next (insert_light_if eui r.ts r.light st1)
        (λ st2. executed (Q.insert_moisture (moisture_row eui r.ts r.soil) st2)))

  abbrev pub insert_queried : SensorReading → Q.Store → Queried PlantRecord → Executed
  insert_queried r st (found plant) = insert_rows plant.eui r st
  insert_queried r st missing = (err sqlite_error, st)
  insert_queried r st query_failed = (err sqlite_error, st)

  unfoldable pub insert_reading : NodeSensorReading → Q.Store → Executed
  insert_reading r st = insert_queried r.reading st (Q.first_by_addr (c.show r.addr.ip) st)

  -- The task that follows the nodes' states; errors are logged, and a lost node changes nothing.
  unfoldable pub registry_task : List NodeStatus → Q.Store → Q.Store
  unfolding create_or_modify
  registry_task [] st = st
  registry_task (registration (eui, addr, name) ∷ rest) st =
      registry_task rest (create_or_modify (record { eui = eui; addr = addr; name = name }) st).1
  registry_task (termination addr e ∷ rest) st = registry_task rest st

  -- The task that stores the readings.
  unfoldable pub stream_task : List NodeSensorReading → Q.Store → Q.Store
  unfolding insert_reading
  stream_task [] st = st
  stream_task (r ∷ rest) st = stream_task rest (insert_reading r st).1
