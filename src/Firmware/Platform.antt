-- ===== src/Firmware/Platform.antt =====
-- `Esp32Platform` of pmindp-esp32-thread/src/platform.rs: reading all sensors, and the loop that
-- answers a registration and reports the readings.
pub mod Slots
pub mod Handshake
pub mod Reference
use plant_minder.Base.{
  ℕ, ◌+◌, List, [], ◌∷◌, ◌++◌, Bool, true, false, Option, none, some, if◌then◌else◌, leb, ◌==◌,
  nat_eq, Result, ok, err, Outcome, returns, panics, take, drop, length,
}
use plant_minder.Net.{Ipv6Addr}
use plant_minder.Sensor.{
  Soil, Light, Gas, SensorReading, PlatformSensorError, soil_idx, light_idx_1, hum_idx,
}
use plant_minder.Firmware.{Reading, reads, read_panics}

unfoldable pub no_reading : SensorReading
no_reading = record { soil = record { moisture = 0; temp = 0 }; light = none; gas = none; ts = 0 }

-- `serde_json::from_slice` at the three types.
pub record Json : Type 0 where
  pub soil : List ℕ → Option Soil
  pub light : List ℕ → Option Light
  pub gas : List ℕ → Option Gas

abbrev pub place_soil : SensorReading → Option Soil → SensorReading
place_soil d none = d
place_soil d (some x) = record d { soil = x }

abbrev pub place_light : SensorReading → Option Light → SensorReading
place_light d none = d
place_light d (some x) = record d { light = some x }

abbrev pub place_gas : SensorReading → Option Gas → SensorReading
place_gas d none = d
place_gas d (some x) = record d { gas = some x }

-- Where the reading of the sensor of a slot goes; other slots are not supported.
unfoldable pub place : Json → ℕ → List ℕ → SensorReading → SensorReading
place json idx bytes d =
    if idx == soil_idx
    then place_soil d (json.soil bytes)
    else if idx == light_idx_1
    then place_light d (json.light bytes)
    else if idx == hum_idx
    then place_gas d (json.gas bytes)
    else d

-- The reading so far and the sensors, unless a read panics.
abbrev pub Sensed : Type 0 → Type 0
Sensed S = Outcome (SensorReading × List (Option S))

abbrev pub beside : {S : Type 0} → Option S → Sensed S → Sensed S
beside s panics = panics
beside s (returns (d, rest)) = returns (d, s ∷ rest)

abbrev pub stamp_zero : {S : Type 0} → Sensed S → Sensed S
stamp_zero panics = panics
stamp_zero (returns (d, sensors)) = returns (record d { ts = 0 }, sensors)

-- The sensors are objects of the trait `Sensor`, with `read`.
module _ {S : Type 0} (read : List ℕ → ℕ → S → Reading S PlatformSensorError) (json : Json) where
  -- After the read of a sensor; `next` goes on with the others.
  abbrev pub after_read :
      ℕ
      → ℕ
      → SensorReading
      → Reading S PlatformSensorError
      → (ℕ → SensorReading → List ℕ → Sensed S)
      → Sensed S
  after_read idx start d read_panics next = panics
  after_read idx start d (reads (err e) buffer s) next = beside (some s) (next start d buffer)
  after_read idx start d (reads (ok size) buffer s) next =
      if leb (start + size) (length buffer)
      then beside (some s)
          (next (start + size) (place json idx (take size (drop start buffer)) d) buffer)
      else panics

  -- A sensor that fails leaves its slot of the reading as it is, and the next one writes where it
  -- would have written.
  unfoldable pub sensor_loop : ℕ → ℕ → SensorReading → List ℕ → List (Option S) → Sensed S
  sensor_loop idx start d buffer [] = returns (d, [])
  sensor_loop idx start d buffer (none ∷ rest) =
      beside none (sensor_loop (idx + 1) start d buffer rest)
  sensor_loop idx start d buffer (some s ∷ rest) =
      after_read idx start d (read buffer start s)
        (λ start' d' buffer'. sensor_loop (idx + 1) start' d' buffer' rest)

  unfoldable pub sensor_read : List ℕ → List (Option S) → Sensed S
  unfolding sensor_loop no_reading place
  sensor_read buffer sensors = stamp_zero (sensor_loop 0 0 no_reading buffer sensors)

-- `record` in the loop of the platform: the payload of the answer to a registration.
unfoldable pub record_payload : List ℕ → List ℕ → List ℕ
record_payload eui plant_name = eui ++ plant_name

-- The answer goes to the port that the request's message id names, and so do the readings from then
-- on. `encode` is the CoAP response's `to_bytes`, which does not fail.
pub record Answer : Type 0 where
  pub datagram : List ℕ
  pub to_port : ℕ
  pub observer : Ipv6Addr × ℕ

unfoldable pub answer : (List ℕ → List ℕ) → List ℕ → List ℕ → Ipv6Addr → ℕ → Answer
unfolding record_payload
answer encode eui plant_name from message_id = record {
  datagram = encode (record_payload eui plant_name);
  to_port = message_id;
  observer = (from, message_id);
}
