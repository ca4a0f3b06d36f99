-- ===== src/Firmware/Tsl2591.antt =====
-- The driver of the light sensor, pmindp-esp32-thread/src/sensor/tsl2591.rs: its set up.
pub mod Registers
pub mod Control
pub mod Sense
use plant_minder.Base.{
  bit_or, ℕ, ◌+◌, ◌*◌, ◌/◌, ◌%◌, ◌^◌, ◌-◌, List, [], ◌∷◌, Bool, true, false, ◌||◌, Option, none,
  some, if◌then◌else◌, leb, ltb, ◌==◌, nat_eq, Result, ok, err, Outcome, returns, panics,
}
use plant_minder.Sensor.{
  F32, Light, I2cError, i2c_write_error, i2c_write_read_error, LightSensorError,
  PlatformSensorError, light_sensor_error, other,
}
use plant_minder.Sensor
use plant_minder.Firmware.{I2c, then_step, lift_err}
pub use Registers.{
  command_bit, enable_poweroff, enable_flags, cmd_chan0_low_data, cmd_ctrl_set, cmd_enable_set,
  cmd_disable, cmd_enable,
}

pub data Tsl2591Error : Type 0 where
  i2c_error : I2cError → Tsl2591Error
  setup_error sensor_error signal_overflow : Tsl2591Error

-- `LightSensorError::from`
unfoldable pub light_error : Tsl2591Error → LightSensorError
light_error (i2c_error i) = LightSensorError.i2c_error i
light_error sensor_error = LightSensorError.sensor_error
light_error signal_overflow = LightSensorError.signal_overflow
light_error setup_error = LightSensorError.setup_error

pub data Gain : Type 0 where
  low medium high max : Gain

pub data Mode : Type 0 where
  full_spectrum infrared visible : Mode

pub data IntegrationTime : Type 0 where
  int_time_100 int_time_200 int_time_300 int_time_400 int_time_500 int_time_600 : IntegrationTime

-- `gain as u8`
unfoldable pub gain_code : Gain → ℕ
gain_code low = 0
gain_code medium = 0x10
gain_code high = 0x20
gain_code max = 0x30

-- `int_time as u8`
unfoldable pub time_code : IntegrationTime → ℕ
time_code int_time_100 = 0x0
time_code int_time_200 = 0x1
time_code int_time_300 = 0x2
time_code int_time_400 = 0x3
time_code int_time_500 = 0x4
time_code int_time_600 = 0x5

abbrev pub fault_threshold : ℕ
fault_threshold = 5

-- The delay has no state.
pub record Tsl2591 (Bus : Type 0) : Type 0 where
  pub address : ℕ
  pub i2c : Bus
  pub gain : Gain
  pub int_time : IntegrationTime
  pub mode : Mode
  pub fault_count : ℕ

-- What `adjust_for_bright_light`, `adjust_for_mid_light`, `adjust_for_low_light` and
-- `adjust_for_ultra_low_light` set, one after the other round the four gains.
unfoldable pub adjusted : Gain → Gain × IntegrationTime
adjusted low = (medium, int_time_300)
adjusted medium = (high, int_time_500)
adjusted high = (max, int_time_600)
adjusted max = (low, int_time_100)

module _ (I : I2c) where
  abbrev pub written : Tsl2591 I.Bus → Bool × I.Bus → Result (Unit {0}) I2cError × Tsl2591 I.Bus
  written s (true, bus) = (ok tt, record s { i2c = bus })
  written s (false, bus) = (err i2c_write_error, record s { i2c = bus })

  unfoldable pub enable : Tsl2591 I.Bus → Result (Unit {0}) I2cError × Tsl2591 I.Bus
  enable s = written s (I.write s.address cmd_enable s.i2c)

  unfoldable pub disable : Tsl2591 I.Bus → Result (Unit {0}) I2cError × Tsl2591 I.Bus
  disable s = written s (I.write s.address cmd_disable s.i2c)

  unfoldable pub set_mode : Mode → Tsl2591 I.Bus → Tsl2591 I.Bus
  set_mode mode s = record s { mode = mode }

  unfoldable pub set_gain : Gain → Tsl2591 I.Bus → Result (Unit {0}) I2cError × Tsl2591 I.Bus
  set_gain gain s = written s (
      I.write s.address (cmd_ctrl_set ∷ (bit_or (time_code s.int_time) (gain_code gain)) ∷ [])
        s.i2c)

  unfoldable pub set_timing :
      IntegrationTime → Tsl2591 I.Bus → Result (Unit {0}) I2cError × Tsl2591 I.Bus
  set_timing int_time s = written s (
      I.write s.address (cmd_ctrl_set ∷ (bit_or (time_code int_time) (gain_code s.gain)) ∷ [])
        s.i2c)

  unfoldable pub new : I.Bus → ℕ → Result (Tsl2591 I.Bus) I2cError
  unfolding enable set_timing set_gain
  new bus address =
      let start : Tsl2591 I.Bus = record {
        address = address;
        i2c = bus;
        gain = medium;
        int_time = int_time_300;
        mode = full_spectrum;
        fault_count = 0;
      } in
      (then_step (enable start) (λ _ s1.
        then_step (set_timing int_time_300 s1)
          (λ _ s2. then_step (set_gain medium s2) (λ _ s3. (ok s3, s3))))).0

  unfoldable pub configure_gain :
      Option Gain → Tsl2591 I.Bus → Result (Unit {0}) Tsl2591Error × Tsl2591 I.Bus
  configure_gain none s = (ok tt, s)
  configure_gain (some g) s =
      then_step (lift_err i2c_error (set_gain g s)) (λ _ s1. (ok tt, record s1 { gain = g }))

  unfoldable pub configure_time :
      Option IntegrationTime → Tsl2591 I.Bus → Result (Unit {0}) Tsl2591Error × Tsl2591 I.Bus
  configure_time none s = (ok tt, s)
  configure_time (some t) s =
      then_step (lift_err i2c_error (set_timing t s)) (λ _ s1. (ok tt, record s1 { int_time = t }))

  unfoldable pub configure :
      Option Gain
      → Option IntegrationTime
      → Tsl2591 I.Bus
      → Result (Unit {0}) Tsl2591Error × Tsl2591 I.Bus
  configure gain int_time s = then_step (configure_gain gain s) (λ _ s1. configure_time int_time s1)

  unfoldable pub adjust_for_current_light :
      Tsl2591 I.Bus → Result (Unit {0}) Tsl2591Error × Tsl2591 I.Bus
  unfolding configure adjusted
  adjust_for_current_light s =
      let (g, t) = adjusted s.gain in
      then_step (configure (some g) (some t) s) (λ _ s1. (ok tt, record s1 { fault_count = 0 }))
