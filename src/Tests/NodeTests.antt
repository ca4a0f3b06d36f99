-- ===== src/Tests/NodeTests.antt =====
-- Tests of a node at work.
use mathlib.Core.Path.{subst}
use plant_minder.Base.{
  Bool, if◌then◌else◌, ◌==◌, nat_eq, ℕ, zero, suc, ◌+◌, ◌≤◌, ◌≡◌, refl, sym, List, [], ◌∷◌, ◌++◌,
  true, false, Option, none, some, arith,
}
use plant_minder.Firmware.Platform.Reference.{wrote, Perform, no_more, writes}
use plant_minder.Firmware.Node.{
  Turn, incoming, Codec, Node, goes_on, breaks, init, turn, answer_sent,
}
use plant_minder.Firmware.Node.Runs.{Run, boots, turns, fired_once, IsArmed, Run-reports}
use plant_minder.Firmware.Node.Turns.{Serves, turn-Serves}
use plant_minder.Firmware.Node.Leaving.{CannotSend, turn-CannotSend}
use plant_minder.Firmware.Node.Progress.{Works, keeps_reporting}
use plant_minder.Tests.{mesh, eui_of}
use plant_minder.Tests.FirmwareTests.{TestSensor, writer, read_test, json, soil-Writes}

-- Requests start with 0x40 and carry their message id, the port.
abbrev pub parsed : List ℕ → Option (ℕ × Bool)
parsed (b ∷ (id ∷ [])) = if b == 0x40 then some (id, true) else none
parsed _ = none

abbrev pub codec : Codec
codec = record {
  from_bytes = parsed;
  to_bytes = λ payload. 0x60 ∷ payload;
  report_json = λ d. some (d.soil.moisture ∷ []);
  eui = eui_of 7;
  plant_name = b'f' ∷ [];
}

abbrev pub soil_only : List (Option TestSensor)
soil_only = some (writer 800 20) ∷ []

abbrev pub asked : Turn
asked = record {
  send_data_buf = [];
  send_ok = true;
  received = incoming (0x40 ∷ 1300 ∷ []) (mesh 1);
  reply_ok = true;
}

-- The node after the request of the border router, at port 1300.
abbrev pub observed : Node TestSensor
observed = record {
  statics = record {
    sensor_timer = true;
    sensor_timer_interval = 25000;
    sensor_timer_fired = false;
  };
  sensors = soil_only;
  observer_addr = some (mesh 1, 1300);
}

turn-asked :
    turn read_test json codec asked (init soil_only)
    ≡ goes_on observed (answer_sent (0x60 ∷ (eui_of 7 ++ b'f' ∷ [])) (mesh 1) 1300 ∷ [])
unfolding turn init
turn-asked = refl

abbrev observed_run : Run read_test json codec soil_only 0 0 observed
observed_run = turns asked _ boots turn-asked

-- With an interrupt and its report.
abbrev reported : Node TestSensor
reported = record observed { sensors = soil_only }

Run-reports_example : (0 + fired_once observed.statics ≤ 0) × IsArmed observed.statics
Run-reports_example = Run-reports read_test json codec soil_only observed_run

turn-Serves_example :
    Serves read_test json codec asked none (turn read_test json codec asked (init soil_only))
unfolding init
turn-Serves_example = turn-Serves read_test json codec asked (init soil_only)

abbrev IsSoilOnly : List (Option TestSensor) → Type 0
IsSoilOnly ss = ss ≡ soil_only

IsSoilOnly-Works : Works read_test json codec IsSoilOnly
IsSoilOnly-Works ss e = (
  wrote (800 ∷ 20 ∷ []) ∷ [],
  soil_only,
  800 ∷ [],
  subst
      (λ (l : List (Option TestSensor)).
        Perform read_test json l (wrote (800 ∷ 20 ∷ []) ∷ []) soil_only)
      (sym e) (writes (writer 800 20) (writer 800 20) (800 ∷ 20 ∷ []) soil-Writes no_more),
  omega arith,
  refl,
  refl,
)

abbrev pub zeros : ℕ → List ℕ
zeros zero = []
zeros (suc n) = 0 ∷ zeros n

keeps_reporting_example :
    (n' : Node TestSensor) × Run read_test json codec soil_only (0 + 5) (0 + 5) n'
    × (n'.observer_addr ≡ some (mesh 1, 1300))
    × IsSoilOnly n'.sensors
keeps_reporting_example =
    keeps_reporting read_test json codec IsSoilOnly soil_only (mesh 1) 1300 (zeros 127)
      IsSoilOnly-Works refl observed_run refl refl 5

-- The timer has fired, and the report cannot be sent.
abbrev unsent : Turn
unsent = record asked { send_data_buf = zeros 127; send_ok = false }

abbrev fired : Node TestSensor
fired = record observed { statics = record observed.statics { sensor_timer_fired = true } }

leaves_unsent : turn read_test json codec unsent fired ≡ breaks observed []
unfolding turn plant_minder.Firmware.copy_to
leaves_unsent = refl

turn-CannotSend_example : CannotSend read_test json codec unsent fired observed []
turn-CannotSend_example =
    turn-CannotSend read_test json codec unsent fired observed [] leaves_unsent
