-- ===== src/Firmware.antt =====
-- The firmware of the nodes, pmindp-esp32-thread: the bus and the buffer that the drivers share.
pub mod Tsl2591
pub mod Atsamd10
pub mod ProbeCircuit
pub mod Gases
pub mod Board
pub mod Platform
pub mod Timer
pub mod Node
pub mod Server
use plant_minder.Base.{
  ℕ, ◌+◌, ◌*◌, ◌/◌, ◌%◌, List, [], ◌∷◌, ◌++◌, Bool, true, false, Option, none, some, if◌then◌else◌,
  leb, Result, ok, err, Outcome, returns, panics, take, drop, length,
}
use plant_minder.Sensor.{F32}

-- `embedded_hal::i2c::I2c`: a write of some bytes to an address, and a write followed by a read of
-- four bytes. An error's kind is dropped.
pub record I2c : Type 1 where
  pub Bus : Type 0
  pub write : ℕ → List ℕ → Bus → Bool × Bus
  pub write_read : ℕ → List ℕ → Bus → Option (ℕ × ℕ × ℕ × ℕ) × Bus

-- The operations of `f32` that the firmware uses: `n as f32`, `x as u16`, comparisons, arithmetic.
pub record F32Ops : Type 0 where
  pub from_nat : ℕ → F32
  pub to_u16 : F32 → ℕ
  pub lt : F32 → F32 → Bool
  pub eq : F32 → F32 → Bool
  pub add : F32 → F32 → F32
  pub sub : F32 → F32 → F32
  pub mul : F32 → F32 → F32
  pub div : F32 → F32 → F32

-- `buffer[start..start + bytes.len()].copy_from_slice(&bytes)`
unfoldable pub copy_to : List ℕ → ℕ → List ℕ → Outcome (List ℕ)
copy_to buffer start bytes =
    if leb (start + length bytes) (length buffer)
    then returns (take start buffer ++ bytes ++ drop (start + length bytes) buffer)
    else panics

-- A step of a driver: its result and its new state.
abbrev pub then_step {ℓ} :
    {S A B E : Type ℓ} → Result A E × S → (A → S → Result B E × S) → Result B E × S
then_step (ok a, s) next = next a s
then_step (err e, s) next = (err e, s)

abbrev pub lift_err {ℓ} : {S A E E' : Type ℓ} → (E → E') → Result A E × S → Result A E' × S
lift_err f (ok a, s) = (ok a, s)
lift_err f (err e, s) = (err (f e), s)

-- What a read of a sensor does to the buffer and the sensor.
pub data Reading (S E : Type 0) : Type 0 where
  reads : Result ℕ E → List ℕ → S → Reading S E
  read_panics : Reading S E

abbrev pub put_bytes : {S E : Type 0} → List ℕ → S → Outcome (List ℕ) → Reading S E
put_bytes bytes s (returns buffer) = reads (ok (length bytes)) buffer s
put_bytes bytes s panics = read_panics
