-- ===== src/Tests/StartedTests.antt =====
-- Tests of the program from its start on.
use plant_minder.Base.{
  ◌≡◌, refl, List, [], ◌∷◌, ◌++◌, true, none, ok, returns, arith, list_eq, nat_eq,
}
use plant_minder.Map.{lookup}
use plant_minder.Broker.Types.{NodeSensorReading, registration}
use plant_minder.Broker.Hub.{
  Step, takes_event, event_arrives, event_loop, step, take_event, take_api, handle_api,
  handle_event, send_status, node_registration,
}
use plant_minder.Broker.Hub.FanOut.{statuses_to}
use plant_minder.Database.{registry_task}
use plant_minder.Minder.{PlantMinder, run}
use plant_minder.Minder.Input.{Event, node_state, tick_event}
use plant_minder.Minder.Addresses.{statuses_in}
use plant_minder.Startup.{start}
use plant_minder.Delivery.Agreement.{addr_of, shown}
use plant_minder.Delivery.Started.{started_agree}
use plant_minder.Tests.{mesh, eui_of}
use plant_minder.Tests.DatabaseTests.{memory, memory_laws, conversions, stored, memory_succeeds}
use plant_minder.Tests.StartupTests.{set_up, all_alive, early, rest, started, channels_IsOpen}

starts : start all_alive true set_up early [] ≡ ok started
unfolding start event_loop step
starts = refl

-- A plant that is new to the database registers.
abbrev later : List Step
later = event_arrives (node_registration (eui_of 8, mesh 8, b'f' ∷ [])) ∷ takes_event ∷ []

abbrev handled : List (List NodeSensorReading × Event)
handled = ([], tick_event) ∷ ([], node_state (registration (eui_of 8, mesh 8, b'f' ∷ []))) ∷ []

all_handled :
    statuses_in handled ≡ statuses_to 11 (event_loop all_alive started.broker (rest ++ later)).1
unfolding event_loop step take_event take_api handle_api handle_event send_status
    plant_minder.Map.insert plant_minder.Minder.new
all_handled = refl

unknown : lookup (eui_of 8) (memory_laws.tables stored).plants ≡ none
unfolding lookup
unknown = refl

started_agree_example :
    (m' : PlantMinder) × (run started.app handled ≡ returns m')
    × (addr_of (
          lookup
            (eui_of 8)
            (memory_laws.tables (
              registry_task memory conversions
                (statuses_to 21 (event_loop all_alive started.broker (rest ++ later)).1)
                stored)).plants)
        ≡ shown conversions.show (lookup (eui_of 8) m'.node_addrs))
started_agree_example =
    started_agree all_alive set_up early [] rest later started handled memory memory_laws
      conversions stored (eui_of 8) (tt, tt) tt (tt, (tt, tt)) (omega arith) (tt, (tt, tt))
      channels_IsOpen starts all_handled (tt, (tt, tt)) memory_succeeds unknown
