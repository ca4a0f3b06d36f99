-- ===== src/Firmware/Board.antt =====
-- The sensors of a node: the checks of pmindp-esp32-thread/src/lib.rs on the features of the build,
-- and the list of sensors that `main` of src/bin/main.rs puts together.
pub mod Drivers
pub mod Layout
pub mod Reports
use plant_minder.Base.{
  ℕ, zero, suc, List, [], ◌∷◌, Bool, true, false, not, ◌&&◌, ◌||◌, Option, none, some, Outcome,
  returns, panics,
}
use plant_minder.Sensor.{soil_idx, light_idx_1, hum_idx, max_sensors}

pub record Features : Type 0 where
  pub atsamd10 : Bool
  pub probe_circuit : Bool
  pub st0160 : Bool
  pub tsl2591 : Bool
  pub bme680 : Bool
  pub sht40 : Bool
  pub esp32h2 : Bool

-- The three `compile_error!`s.
unfoldable pub multiple_soil_sensors : Features → Bool
multiple_soil_sensors b =
    (b.atsamd10 && (b.st0160 || b.probe_circuit))
    || (b.st0160 && (b.atsamd10 || b.probe_circuit))
    || (b.probe_circuit && (b.atsamd10 || b.st0160))

unfoldable pub multiple_gas_sensors : Features → Bool
multiple_gas_sensors b = b.bme680 && b.sht40

unfoldable pub unsupported_probe : Features → Bool
unsupported_probe b = b.esp32h2 && b.probe_circuit

unfoldable pub builds : Features → Bool
unfolding multiple_soil_sensors multiple_gas_sensors unsupported_probe
builds b = not (multiple_soil_sensors b || multiple_gas_sensors b || unsupported_probe b)

-- The sensors as their drivers' constructors give them; `none` is an error.
pub record Parts (S : Type 0) : Type 0 where
  pub atsamd10 : S
  pub probe_circuit : S
  pub tsl2591 : Option S
  pub bme680 : Option S
  pub sht40 : Option S

module _ {S : Type 0} where
  abbrev pub nones : ℕ → List (Option S)
  nones zero = []
  nones (suc n) = none ∷ nones n

  abbrev pub and_then :
      Outcome (List (Option S))
      → (List (Option S) → Outcome (List (Option S)))
      → Outcome (List (Option S))
  and_then panics next = panics
  and_then (returns sensors) next = next sensors

  abbrev pub after_first : Option S → Outcome (List (Option S)) → Outcome (List (Option S))
  after_first x panics = panics
  after_first x (returns sensors) = returns (x ∷ sensors)

  -- `Vec::insert`, which moves the later elements up and panics beyond the end.
  abbrev pub insert_at : ℕ → Option S → List (Option S) → Outcome (List (Option S))
  insert_at zero x sensors = returns (x ∷ sensors)
  insert_at (suc i) x [] = panics
  insert_at (suc i) x (y ∷ sensors) = after_first y (insert_at i x sensors)

  -- `unwrap` of a constructor's result.
  abbrev pub insert_unwrapped : ℕ → Option S → List (Option S) → Outcome (List (Option S))
  insert_unwrapped i none sensors = panics
  insert_unwrapped i (some s) sensors = insert_at i (some s) sensors

  abbrev pub when :
      Bool
      → (List (Option S) → Outcome (List (Option S)))
      → List (Option S)
      → Outcome (List (Option S))
  when true f sensors = f sensors
  when false f sensors = returns sensors

  abbrev pub soil_of : Bool → Bool → Parts S → List (Option S) → Outcome (List (Option S))
  soil_of true _ parts sensors = insert_at soil_idx (some parts.atsamd10) sensors
  soil_of false true parts sensors = insert_at soil_idx (some parts.probe_circuit) sensors
  soil_of false false parts sensors = panics

  abbrev pub gas_of : Bool → Bool → Parts S → List (Option S) → Outcome (List (Option S))
  gas_of true _ parts sensors = insert_unwrapped hum_idx parts.bme680 sensors
  gas_of false sht40 parts sensors = when sht40 (insert_unwrapped hum_idx parts.sht40) sensors

  -- The soil sensor, without which the node panics, then the light sensor and the gas sensor.
  unfoldable pub sensors : Features → Parts S → Outcome (List (Option S))
  sensors b parts =
      and_then (soil_of b.atsamd10 b.probe_circuit parts (nones max_sensors)) (λ with_soil.
        and_then (when b.tsl2591 (insert_unwrapped light_idx_1 parts.tsl2591) with_soil)
          (λ with_light. gas_of b.bme680 b.sht40 parts with_light))
