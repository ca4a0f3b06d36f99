-- ===== src/Firmware/Timer.antt =====
-- The timer of the sensors, pmindp-esp32-thread/src/lib.rs: its statics, its interrupt handler and
-- its set up. The timer is esp_hal's; what the code does with it is a list of commands.
use plant_minder.Base.{ℕ, List, [], ◌∷◌, Bool, true, false, Outcome, returns, panics}

pub data TimerCommand : Type 0 where
  set_interrupt_handler clear_interrupt enable_interrupt start listen : TimerCommand
  load_value : ℕ → TimerCommand

-- `SENSOR_TIMER` holds the timer or nothing; intervals are in milliseconds.
pub record Statics : Type 0 where
  pub sensor_timer : Bool
  pub sensor_timer_interval : ℕ
  pub sensor_timer_fired : Bool

abbrev pub default_min_interval : ℕ
default_min_interval = 5000

-- The statics as a reset leaves them.
unfoldable pub initial : Statics
initial = record {
  sensor_timer = false;
  sensor_timer_interval = default_min_interval;
  sensor_timer_fired = false;
}

-- `SENSOR_TIMER_TG0_T0_LEVEL`; without a timer `unwrap` panics.
unfoldable pub sensor_timer_interrupt : Statics → Outcome (Statics × List TimerCommand)
sensor_timer_interrupt s =
    let commands = clear_interrupt ∷ load_value s.sensor_timer_interval ∷ start ∷ [] in
    elim s.sensor_timer [
      | true ↦ returns (record s { sensor_timer_fired = true }, commands)
      | false ↦ panics
    ]

unfoldable pub setup_sensor_timer : ℕ → Statics → Statics × List TimerCommand
setup_sensor_timer interval s = (
  record s { sensor_timer = true; sensor_timer_interval = interval },
  set_interrupt_handler
      ∷ clear_interrupt
      ∷ enable_interrupt
      ∷ load_value interval
      ∷ start
      ∷ listen
      ∷ [],
)
