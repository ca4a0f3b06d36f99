-- ===== src/Tests/BoardTests.antt =====
-- Tests of the sensors of a node and of its report.
use plant_minder.Base.{
  ◌≡◌, refl, ℕ, suc, List, [], ◌∷◌, true, false, Option, none, some, returns, panics, length, arith,
  if◌then◌else◌, leb, ◌&&◌, ◌||◌,
}
use plant_minder.Sensor.{Gas}
use plant_minder.Firmware.Board.{Features, Parts, nones, sensors}
use plant_minder.Firmware.Board.Layout.{
  came_up, gas_asked, gas_part, soil_slot, if_asked, unused, sensors_lem,
}
use plant_minder.Firmware.Board.Drivers.{Hardware, read_any, probe_circuit, bme680}
use plant_minder.Firmware.Board.Reports.{probe_not_reported, bme680_report}
use plant_minder.Firmware.ProbeCircuit.{Converter}
use plant_minder.Firmware.Gases.Bme680.{Driver, FieldData, gas_of}
use plant_minder.Firmware.Gases.Sht40.{Sht4x}
use plant_minder.Firmware.Platform.{Json, sensor_read}
use plant_minder.Firmware.Platform.Reference.{
  Slot, absent, failed, wrote, bytes_in, report, no_more, is_absent, fails, writes,
  sensor_read-reference, soil_at, light_at,
}
use plant_minder.Tests.FirmwareTests.{
  TestSensor, writer, broken, read_test, json, soil-Writes, light-Fails, whole, bus, light_json,
}
use plant_minder.Tests.SoilTests.{soil_bus, soil_json}

-- A soil sensor that writes, a light sensor that fails, an empty slot.
abbrev three : List (Option TestSensor)
three = some (writer 800 20) ∷ some broken ∷ none ∷ []

abbrev three_slots : List Slot
three_slots = wrote (800 ∷ 20 ∷ []) ∷ failed ∷ absent ∷ []

reference_example : sensor_read read_test json (0 ∷ 0 ∷ 0 ∷ []) three ≡ (
    if leb (bytes_in three_slots) (length {A = ℕ} (0 ∷ 0 ∷ 0 ∷ []))
    then returns (report json three_slots, three)
    else panics)
reference_example = sensor_read-reference read_test json (0 ∷ 0 ∷ 0 ∷ []) three three_slots three (
    writes (writer 800 20) (writer 800 20) (800 ∷ 20 ∷ []) soil-Writes
      (fails broken broken light-Fails (is_absent no_more)))

abbrev features : Features
features = record {
  atsamd10 = true;
  probe_circuit = false;
  st0160 = false;
  tsl2591 = false;
  bme680 = false;
  sht40 = true;
  esp32h2 = true;
}

abbrev test_parts : Parts ℕ
test_parts = record {
  atsamd10 = 1;
  probe_circuit = 2;
  tsl2591 = none;
  bme680 = some 4;
  sht40 = some 5;
}

sensors_example : sensors features test_parts ≡ (
    if (features.atsamd10 || features.probe_circuit)
      && (came_up features.tsl2591 test_parts.tsl2591
          && came_up (gas_asked features) (gas_part features test_parts))
    then returns (
        soil_slot features test_parts
        ∷ if_asked features.tsl2591 test_parts.tsl2591
        ∷ if_asked (gas_asked features) (gas_part features test_parts)
        ∷ nones (unused features))
    else panics)
sensors_example = sensors_lem features test_parts

sensors_five :
    sensors features test_parts ≡ returns (some 1 ∷ none ∷ some 5 ∷ none ∷ none ∷ none ∷ none ∷ [])
unfolding sensors
sensors_five = refl

-- A converter that reads 5 more each time.
abbrev converter : Converter
converter = record { Adc = ℕ; read_oneshot = λ n. (some (suc n), suc n) }

abbrev field : FieldData
field = record {
  temperature_celsius = 20;
  pressure_hpa = 1000;
  humidity_percent = 50;
  gas_resistance_ohm = 12;
}

abbrev bme680_test : Driver
bme680_test = record {
  Bus = ℕ;
  Sensor = ℕ;
  init = λ n. some n;
  set_sensor_settings = λ _ n. (true, n);
  set_forced_mode = λ n. (true, suc n);
  get_sensor_data = λ n. (some field, n);
}

abbrev sht4x_test : Sht4x
sht4x_test = record { Sensor = ℕ; Bus = ℕ; new = λ n. n; measure = λ n. (some (20, 50), n) }

abbrev gas_json_test : Gas → Option (List ℕ)
gas_json_test x = some (x.temp ∷ x.p ∷ x.h ∷ x.gas ∷ [])

abbrev gas_back : List ℕ → Option Gas
gas_back (t ∷ (p ∷ (h ∷ (g ∷ [])))) = some (record { temp = t; p = p; h = h; gas = g })
gas_back _ = none

abbrev hardware : Hardware
hardware = record {
  soil_bus = soil_bus;
  converter = converter;
  light_bus = bus;
  bme680_driver = bme680_test;
  sht4x = sht4x_test;
  floats = whole;
  soil_json = soil_json;
  light_json = light_json;
  gas_json = gas_json_test;
}

-- Two bytes are no reading of the soil.
abbrev strict_json : Json
strict_json = record { soil = λ _. none; light = λ _. none; gas = gas_back }

probe_example :
    sensor_read
      (read_any hardware)
      strict_json
      (0 ∷ 0 ∷ 0 ∷ [])
      (some (probe_circuit (record { pwr_pin = false; adc1 = 700 })) ∷ none ∷ [])
    ≡ returns (
      record { soil = record { moisture = 0; temp = 0 }; light = none; gas = none; ts = 0 },
      some (probe_circuit (record { pwr_pin = false; adc1 = 701 })) ∷ none ∷ [],
    )
probe_example =
    probe_not_reported hardware strict_json (0 ∷ 0 ∷ 0 ∷ [])
      (record { pwr_pin = false; adc1 = 700 }) 701 701 (none ∷ []) (none ∷ []) (absent ∷ [])
      (λ x y. refl) refl (is_absent no_more) (omega arith)

bme680_example :
    sensor_read
      (read_any hardware)
      strict_json
      (0 ∷ 0 ∷ 0 ∷ 0 ∷ 0 ∷ [])
      (none ∷ none ∷ some (bme680 7) ∷ [])
    ≡ returns (
      record {
        soil = soil_at strict_json absent;
        light = light_at strict_json absent;
        gas = some (gas_of bme680_test whole field);
        ts = 0;
      },
      none ∷ none ∷ some (bme680 8) ∷ [],
    )
unfolding gas_of
bme680_example =
    bme680_report hardware strict_json (0 ∷ 0 ∷ 0 ∷ 0 ∷ 0 ∷ []) 7 7 8 field true none none none none
      absent absent _ (is_absent (is_absent no_more)) refl refl refl refl (omega arith)
