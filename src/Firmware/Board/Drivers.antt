-- ===== src/Firmware/Board/Drivers.antt =====
-- The drivers behind the trait `Sensor` of pmindp-sensor/src/lib.rs, and their construction in
-- pmindp-esp32-thread/src/bin/main.rs.
use plant_minder.Base.{ℕ, List, Option, none, some, Result, ok, err}
use plant_minder.Sensor.{Soil, Light, Gas, PlatformSensorError}
use plant_minder.Firmware.{I2c, F32Ops, Reading, reads, read_panics}
use plant_minder.Firmware.Atsamd10
use plant_minder.Firmware.Atsamd10.{Atsamd10, SoilI2c}
use plant_minder.Firmware.ProbeCircuit
use plant_minder.Firmware.ProbeCircuit.{ProbeCircuit, Converter}
use plant_minder.Firmware.Tsl2591
use plant_minder.Firmware.Tsl2591.{Tsl2591}
use plant_minder.Firmware.Tsl2591.Sense
use plant_minder.Firmware.Gases.Bme680
use plant_minder.Firmware.Gases.Sht40
use plant_minder.Firmware.Board.{Parts}

-- What the node's drivers stand on. The devices of the bus have addresses of their own, so that each
-- driver's view of it is its own. The last three are `serde_json::to_vec`.
pub record Hardware : Type 1 where
  pub soil_bus : SoilI2c
  pub converter : Converter
  pub light_bus : I2c
  pub bme680_driver : Bme680.Driver
  pub sht4x : Sht40.Sht4x
  pub floats : F32Ops
  pub soil_json : Soil → Option (List ℕ)
  pub light_json : Light → Option (List ℕ)
  pub gas_json : Gas → Option (List ℕ)

-- The states of the pins and the bus that the drivers start with.
pub record Peripherals (H : Hardware) : Type 0 where
  pub soil_i2c : H.soil_bus.Bus
  pub adc : H.converter.Adc
  pub light_i2c : H.light_bus.Bus
  pub bme680_i2c : H.bme680_driver.Bus
  pub sht40_i2c : H.sht4x.Bus

module _ (H : Hardware) where
  -- `Box<dyn Sensor>`
  pub data AnySensor : Type 0 where
    atsamd10 : Atsamd10 H.soil_bus.Bus → AnySensor
    probe_circuit : ProbeCircuit H.converter.Adc → AnySensor
    tsl2591 : Tsl2591 H.light_bus.Bus → AnySensor
    bme680 : H.bme680_driver.Sensor → AnySensor
    sht40 : H.sht4x.Sensor → AnySensor

  abbrev pub boxed :
      {S : Type 0}
      → (S → AnySensor)
      → Reading S PlatformSensorError
      → Reading AnySensor PlatformSensorError
  boxed f read_panics = read_panics
  boxed f (reads r buffer s) = reads r buffer (f s)

  -- `Sensor::read` of the driver in the box.
  unfoldable pub read_any : List ℕ → ℕ → AnySensor → Reading AnySensor PlatformSensorError
  unfolding Atsamd10.read ProbeCircuit.read Sense.read Bme680.read Sht40.read
  read_any buffer start (atsamd10 s) =
      boxed atsamd10 (Atsamd10.read H.soil_bus H.floats H.soil_json buffer start s)
  read_any buffer start (probe_circuit s) =
      boxed probe_circuit (ProbeCircuit.read H.converter buffer start s)
  read_any buffer start (tsl2591 s) =
      boxed tsl2591 (Sense.read H.light_bus H.floats H.light_json buffer start s)
  read_any buffer start (bme680 s) =
      boxed bme680 (Bme680.read H.bme680_driver H.floats H.gas_json buffer start s)
  read_any buffer start (sht40 s) =
      boxed sht40 (Sht40.read H.sht4x H.floats H.gas_json buffer start s)

  abbrev pub made : {A E : Type 0} → (A → AnySensor) → Result A E → Option AnySensor
  made f (ok a) = some (f a)
  made f (err e) = none

  unfoldable pub parts : Peripherals H → Parts AnySensor
  parts p = record {
    atsamd10 = atsamd10 (Atsamd10.new H.soil_bus p.soil_i2c 0x36 2000 5000);
    probe_circuit = probe_circuit (ProbeCircuit.new H.converter p.adc);
    tsl2591 = made tsl2591 (Tsl2591.new H.light_bus p.light_i2c 0x29);
    bme680 = made bme680 (Bme680.new H.bme680_driver H.floats p.bme680_i2c);
    sht40 = made sht40 (Sht40.new H.sht4x H.floats p.sht40_i2c);
  }
