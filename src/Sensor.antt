-- ===== src/Sensor.antt =====
-- pmindp-sensor/src/lib.rs: the readings that the nodes report, and the errors of the sensors.
use plant_minder.Base.{ℕ, Option}

-- An `f32` is its bit pattern. Arithmetic on it is a parameter where a component computes with it.
abbrev pub F32 : Type 0
F32 = ℕ

pub record Soil : Type 0 where
  pub moisture : ℕ
  pub temp : F32

pub record Light : Type 0 where
  pub fs : ℕ
  pub lux : F32

pub record Gas : Type 0 where
  pub temp : F32
  pub p : F32
  pub h : F32
  pub gas : ℕ

-- `ts`, an `i64`, is its bit pattern too.
pub record SensorReading : Type 0 where
  pub soil : Soil
  pub light : Option Light
  pub gas : Option Gas
  pub ts : ℕ

abbrev pub max_sensors : ℕ
max_sensors = 5

abbrev pub soil_idx : ℕ
soil_idx = 0

abbrev pub light_idx_1 : ℕ
light_idx_1 = 1

abbrev pub hum_idx : ℕ
hum_idx = 2

pub data I2cError : Type 0 where
  i2c_read_error i2c_write_error i2c_write_read_error : I2cError

pub data LightSensorError : Type 0 where
  i2c_error : I2cError → LightSensorError
  setup_error sensor_error signal_overflow : LightSensorError

pub data SoilSensorError : Type 0 where
  i2c_read_error i2c_write_error : SoilSensorError

pub data PlatformSensorError : Type 0 where
  soil_sensor_error : SoilSensorError → PlatformSensorError
  light_sensor_error : LightSensorError → PlatformSensorError
  sensor_setup other : PlatformSensorError
