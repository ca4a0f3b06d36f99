-- ===== src/Tests/SoilTests.antt =====
-- Tests of the soil sensor.
use plant_minder.Base.{◌≡◌, refl, ℕ, List, [], ◌∷◌, Option, some, ok, err, arith, true, false, suc}
use plant_minder.Sensor.{Soil, i2c_write_error}
use plant_minder.Firmware.Atsamd10.{SoilI2c, Atsamd10, measure, read}
use plant_minder.Firmware.Atsamd10.Report.{soil_sent}
use plant_minder.Firmware.Node.{Node, goes_on, report_sent, turn, unfire}
use plant_minder.Firmware.Node.Progress.{quiet}
use plant_minder.Tests.{mesh}
use plant_minder.Tests.NodeTests.{codec}
use plant_minder.Tests.FirmwareTests.{whole, json}

-- A bus that counts the transfers, and a sensor that answers each the same.
abbrev pub soil_bus : SoilI2c
soil_bus = record {
  Bus = ℕ;
  write = λ address bytes n. (true, suc n);
  read_two = λ address n. (some (3, 32), suc n);
  read_four = λ address n. (some (0, 20, 0, 0), suc n);
}

abbrev probe : ℕ → Atsamd10 ℕ
probe n = record { temp_delay = 2000; moisture_delay = 5000; address = 0x36; i2c = n }

abbrev damp : Soil
damp = record { moisture = 800; temp = 32 }

abbrev pub soil_json : Soil → Option (List ℕ)
soil_json x = some (x.moisture ∷ x.temp ∷ [])

measured_damp : measure soil_bus whole (probe 0) ≡ (ok damp, probe 4)
unfolding measure
measured_damp = refl

-- A bus on which every write fails.
abbrev broken_bus : SoilI2c
broken_bus = record soil_bus { write = λ address bytes n. (false, suc n) }

measured_nothing : measure broken_bus whole (probe 0) ≡ (err i2c_write_error, probe 1)
unfolding measure
measured_nothing = refl

-- The timer of the node has fired, and its sensor is the probe.
abbrev due : Node (Atsamd10 ℕ)
due = record {
  statics = record {
    sensor_timer = true;
    sensor_timer_interval = 25000;
    sensor_timer_fired = true;
  };
  sensors = some (probe 0) ∷ [];
  observer_addr = some (mesh 1, 1300);
}

soil_sent_example :
    turn
      (read broken_bus whole soil_json)
      json
      codec
      (quiet (read broken_bus whole soil_json) json codec (0 ∷ 0 ∷ 0 ∷ []))
      due
    ≡ goes_on
        (record (unfire due) { sensors = some (probe 1) ∷ [] })
        (report_sent (0 ∷ []) (mesh 1) 1300 ∷ [])
soil_sent_example =
    soil_sent broken_bus whole soil_json json codec due (mesh 1) 1300 (0 ∷ 0 ∷ 0 ∷ []) (0 ∷ [])
      (probe 0) (probe 1) (err i2c_write_error) refl refl refl measured_nothing
      (λ x e. absurd (cc e)) refl

-- With a bus that works the same node sends what was measured.
sent_damp :
    turn
      (read soil_bus whole soil_json)
      json
      codec
      (quiet (read soil_bus whole soil_json) json codec (0 ∷ 0 ∷ 0 ∷ []))
      due
    ≡ goes_on
        (record (unfire due) { sensors = some (probe 4) ∷ [] })
        (report_sent (800 ∷ []) (mesh 1) 1300 ∷ [])
sent_damp =
    soil_sent soil_bus whole soil_json json codec due (mesh 1) 1300 (0 ∷ 0 ∷ 0 ∷ []) (800 ∷ [])
      (probe 0) (probe 4) (ok damp) refl refl refl measured_damp
      (λ x e. (x.moisture ∷ x.temp ∷ [], refl, refl, omega arith)) refl
