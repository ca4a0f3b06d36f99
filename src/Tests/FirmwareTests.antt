-- ===== src/Tests/FirmwareTests.antt =====
-- Tests of the firmware's drivers and of the platform.
use plant_minder.Firmware.Tsl2591.{cmd_enable, cmd_disable, cmd_ctrl_set, cmd_chan0_low_data}
use plant_minder.Base.{
  ℕ, ◌+◌, ◌*◌, ◌-◌, ◌/◌, ◌%◌, ◌^◌, ◌≡◌, refl, List, [], ◌∷◌, ◌++◌, Bool, true, false, Option, none,
  some, if◌then◌else◌, ltb, ◌==◌, nat_eq, ok, err, arith, ap, sym,
}
use plant_minder.Sensor.{Soil, Light, PlatformSensorError, other}
use plant_minder.Broker.Router.Coap.{Exchange, datagram, settled, request, coap_observer_register}
use plant_minder.Firmware.{I2c, F32Ops, Reading, reads, put_bytes, copy_to}
use plant_minder.Firmware.Tsl2591.{
  Tsl2591, Gain, low, medium, high, max, IntegrationTime, int_time_100, int_time_300, int_time_500,
  full_spectrum, infrared, visible, signal_overflow, configure, adjust_for_current_light,
}
use plant_minder.Firmware.Tsl2591.Control.{Device, Configured, gain_or, time_or, configure_lem}
use plant_minder.Firmware.Tsl2591.Sense.{get_lux}
use plant_minder.Firmware.Tsl2591.Sense.Channels.{get_lux-dark}
use plant_minder.Firmware.Platform.{Json, answer, record_payload}
use plant_minder.Firmware.Platform.Slots.{Writes, Fails}
use plant_minder.Firmware.Platform.Handshake.{handshake}
use plant_minder.Tests.{mesh, eui_of}

-- A bus with the control register and the four bytes that the sensor answers.
abbrev pub TestBus : Type 0
TestBus = ℕ × (ℕ × ℕ × ℕ × ℕ)

abbrev pub write_bus : ℕ → List ℕ → TestBus → Bool × TestBus
write_bus address (r ∷ (v ∷ [])) (control, b) =
    if r == 0xa1 then (true, (v, b)) else (true, (control, b))
write_bus address _ bus = (false, bus)

abbrev pub bus : I2c
bus = record { Bus = TestBus; write = write_bus; write_read = λ address bytes b. (some b.1, b) }

abbrev device : Device bus
device = record {
  control = λ b. b.0;
  control_written = λ address v b b' e. ap (λ (p : Bool × TestBus). p.1.0) (sym e);
}

-- A driver whose control register is in step.
abbrev driver : Tsl2591 TestBus
driver = record {
  address = 0x29;
  i2c = (0x12, (10, 1, 5, 0));
  gain = medium;
  int_time = int_time_300;
  mode = full_spectrum;
  fault_count = 5;
}

configure_example :
    Configured bus device
      (gain_or medium (some high))
      (time_or int_time_300 (some int_time_500))
      driver
      (configure bus (some high) (some int_time_500) driver)
unfolding plant_minder.Firmware.Tsl2591.time_code plant_minder.Firmware.Tsl2591.gain_code
configure_example = configure_lem bus device (some high) (some int_time_500) driver refl

-- Whole numbers in place of floats.
abbrev pub whole : F32Ops
whole = record {
  from_nat = λ n. n;
  to_u16 = λ n. n % 2 ^ 16;
  lt = ltb;
  eq = λ a b. a == b;
  add = λ a b. a + b;
  sub = λ a b. a - b;
  mul = λ a b. a * b;
  div = λ a b. a / b;
}

abbrev in_the_dark : Tsl2591 TestBus
in_the_dark = record driver { i2c = (0x12, (0, 0, 3, 0)); fault_count = 0 }

no_lux_in_the_dark :
    get_lux bus whole in_the_dark
    ≡ (err signal_overflow, record in_the_dark { fault_count = (0 + 1) % 2 ^ 32 })
no_lux_in_the_dark = get_lux-dark bus in_the_dark in_the_dark.i2c 0 0 3 0 whole refl refl refl

abbrev pub light_json : Light → Option (List ℕ)
light_json l = some (l.fs ∷ l.lux ∷ [])

-- A sensor that writes two bytes, or fails.
pub data TestSensor : Type 0 where
  writer : ℕ → ℕ → TestSensor
  broken : TestSensor

abbrev pub read_test : List ℕ → ℕ → TestSensor → Reading TestSensor PlatformSensorError
read_test buffer start (writer a b) =
    put_bytes (a ∷ b ∷ []) (writer a b) (copy_to buffer start (a ∷ b ∷ []))
read_test buffer start broken = reads (err other) buffer broken

abbrev pub soil_of : List ℕ → Option Soil
soil_of (a ∷ (b ∷ [])) = some (record { moisture = a; temp = b })
soil_of _ = none

abbrev pub light_of : List ℕ → Option Light
light_of (a ∷ (b ∷ [])) = some (record { fs = a; lux = b })
light_of _ = none

abbrev pub json : Json
json = record { soil = soil_of; light = light_of; gas = λ _. none }

pub soil-Writes : Writes read_test json (writer 800 20) (800 ∷ 20 ∷ []) (writer 800 20)
soil-Writes buffer start = refl

pub light-Writes : Writes read_test json (writer 300 40) (300 ∷ 40 ∷ []) (writer 300 40)
light-Writes buffer start = refl

pub light-Fails : Fails read_test json broken broken
light-Fails buffer start = (other, refl)

-- The codec puts one byte in front.
abbrev encode_test : List ℕ → List ℕ
encode_test payload = 0x60 ∷ payload

abbrev decode_test : List ℕ → Option (List ℕ)
decode_test [] = none
decode_test (h ∷ payload) = some payload

abbrev fig_name : List ℕ
fig_name = b'f' ∷ b'i' ∷ b'g' ∷ []

abbrev node_exchange : Exchange
node_exchange = record {
  encodes = λ _. true;
  binds = λ _. true;
  first = some (datagram (encode_test (eui_of 7 ++ fig_name)));
  later = [];
  decode = decode_test;
}

node_answered :
    node_exchange.first
    ≡ some (
        datagram
          (answer encode_test
            (eui_of 7)
            fig_name
            (mesh 1)
            (request (mesh 7) 1213).message_id).datagram)
unfolding answer
node_answered = refl

node_encoded : encode_test (record_payload (eui_of 7) fig_name) ≡ 0x60 ∷ (eui_of 7 ++ fig_name)
unfolding record_payload
node_encoded = refl

node_decoded :
    decode_test (encode_test (record_payload (eui_of 7) fig_name))
    ≡ some (record_payload (eui_of 7) fig_name)
node_decoded = refl

handshake_example :
    let a = answer encode_test (eui_of 7) fig_name (mesh 1) (request (mesh 7) 1213).message_id in
    (coap_observer_register (mesh 1) (mesh 7) 1213 node_exchange
      ≡ settled (ok (some (record { ip = mesh 1; port = 1213 }, eui_of 7, fig_name))))
    × (a.to_port ≡ 1213)
    × (a.observer ≡ (mesh 1, 1213))
handshake_example =
    handshake encode_test (eui_of 7) fig_name (mesh 1) (mesh 1) (mesh 7) 1213 node_exchange 0x60
      (eui_of 7 ++ fig_name) refl refl refl node_answered node_encoded (omega arith) node_decoded

-- The commands and the flags as bytes.
commands :
    (cmd_enable ≡ 0xa0 ∷ 0x93 ∷ [])
    × (cmd_disable ≡ 0xa0 ∷ 0 ∷ [])
    × (cmd_ctrl_set ≡ 0xa1)
    × (cmd_chan0_low_data ≡ 0xb4)
commands = (refl, refl, refl, refl)
