-- ===== src/Tests/MinderTests.antt =====
-- Tests of the front end.
use plant_minder.Base.{
  ◌^◌, ◌<◌, ◌≡◌, ◌≢◌, refl, ◌⊎◌, inr, List, [], ◌∷◌, ◌++◌, true, none, some, returns, take, drop,
  nat_eq, list_eq, ◌==◌, if◌then◌else◌, arith,
}
use plant_minder.Net.{Ipv6Addr}
use plant_minder.Map.{lookup, IsMap}
use plant_minder.Broker.Types.{Eui, NodeSensorReading, registration, online}
use plant_minder.Minder.{
  Node, Nodes, PlantMinder, num_tabs, tick, from_key, node_registration, handle_app_cmd, run,
}
use plant_minder.Minder.Input.{Event, tick_event, app_cmd, node_state, quit, next, back, up, down}
use plant_minder.Minder.Ticks.{after_batch, tick_lem}
use plant_minder.Minder.Registering.{registration_moves, registration_stale}
use plant_minder.Minder.Commands.{handle_app_cmd_lem}
use plant_minder.Minder.Running.{IsSound, run_returns}
use plant_minder.Minder.Order.{Same}
use plant_minder.Minder.Order.View.{Sound, view_of, run-view_of}
use mathlib.Core.Quot
use plant_minder.Tests.{mesh, reading_from, eui_of}

-- A plant with one reading.
abbrev pub fig : Node
fig = record {
  addr = mesh 7;
  eui = eui_of 7;
  name = b'f' ∷ [];
  history = reading_from 7 ∷ [];
  state = online;
}

-- A plant without readings.
abbrev pub ivy : Node
ivy = record { addr = mesh 8; eui = eui_of 8; name = b'i' ∷ []; history = []; state = online }

abbrev pub app : PlantMinder
app = record {
  running = true;
  data_queue = reading_from 7 ∷ reading_from 9 ∷ [];
  nodes = (mesh 7, fig) ∷ (mesh 8, ivy) ∷ [];
  node_addrs = (eui_of 7, mesh 7) ∷ (eui_of 8, mesh 8) ∷ [];
  read_timeout = 100;
  tab = 0;
  row = 0;
  window_start = 0;
  window_end = 0;
}

pub app-IsSound : IsSound app
unfolding lookup
app-IsSound = ((refl, (refl, tt)), (refl, (refl, tt)))

tick_example :
    (nodes' : Nodes) × (tick app
      ≡ returns (record app { data_queue = drop 20 app.data_queue; nodes = nodes' }))
    × IsMap nodes'
    × ((j : Ipv6Addr)
        → lookup j nodes' ≡ after_batch (from_key j (take 20 app.data_queue)) (lookup j app.nodes))
tick_example = tick_lem app (app-IsSound.0)

abbrev pub some_events : List (List NodeSensorReading × Event)
some_events =
    ([], app_cmd next)
    ∷ (reading_from 8 ∷ [], tick_event)
    ∷ ([], node_state (registration (eui_of 7, mesh 9, b'f' ∷ [])))
    ∷ ([], app_cmd quit)
    ∷ []

run_returns_example : (m' : PlantMinder) × (run app some_events ≡ returns m') × IsSound m'
run_returns_example = run_returns app some_events app-IsSound

handle_app_cmd_example :
    let m' = handle_app_cmd up app in
    (m'.tab < num_tabs)
    × (m'.row < 2 ^ 64)
    × (m' ≡ record app { running = m'.running; tab = m'.tab; row = m'.row })
    × ((up ≡ quit) ⊎ (m'.running ≡ app.running))
    × ((up ≡ next) ⊎ (up ≡ back) ⊎ (m'.tab ≡ app.tab))
    × ((up ≡ up) ⊎ (up ≡ down) ⊎ (m'.row ≡ app.row))
handle_app_cmd_example = handle_app_cmd_lem up app (omega arith) (omega arith) (omega arith)

-- Twenty readings, the most that a tick takes.
abbrev copies : List NodeSensorReading → List NodeSensorReading
copies l = l ++ l ++ l ++ l

abbrev batch : List NodeSensorReading
batch = copies (copies (reading_from 7 ∷ [])) ++ copies (reading_from 7 ∷ [])

address_7 : lookup (eui_of 7) app.node_addrs ≡ some (mesh 7)
unfolding lookup
address_7 = refl

pub node_7 : lookup (mesh 7) app.nodes ≡ some fig
unfolding lookup
node_7 = refl

address_8 : lookup (eui_of 8) app.node_addrs ≡ some (mesh 8)
unfolding lookup
address_8 = refl

node_8 : lookup (mesh 8) app.nodes ≡ some ivy
unfolding lookup
node_8 = refl

unknown_plant_9 : lookup (eui_of 9) app.node_addrs ≡ none
unfolding lookup
unknown_plant_9 = refl

free_9 : lookup (mesh 9) app.nodes ≡ none
unfolding lookup
free_9 = refl

filled : fig.history ≢ []
filled e = cc

registration_moves_example :
    let m' = node_registration app (eui_of 7, mesh 9, b'f' ∷ []) in
    ((a : Ipv6Addr)
      → lookup a m'.nodes ≡ (
          if mesh 9 == a
          then some (record {
            addr = mesh 9;
            eui = eui_of 7;
            name = b'f' ∷ [];
            history = fig.history;
            state = online;
          })
          else if mesh 7 == a
          then none
          else lookup a app.nodes))
    × ((e : Eui)
        → lookup e m'.node_addrs
          ≡ (if eui_of 7 == e then some (mesh 9) else lookup e app.node_addrs))
registration_moves_example =
    registration_moves app (eui_of 7) (mesh 9) (mesh 7) (b'f' ∷ []) fig address_7 node_7 filled
      (inr free_9)

moved_away : mesh 9 ≢ mesh 8
moved_away e = omega (arith, e)

registration_stale_example :
    let m' = node_registration app (eui_of 8, mesh 9, b'i' ∷ []) in
    (lookup (mesh 8) m'.nodes ≡ some ivy) × (lookup (eui_of 8) m'.node_addrs ≡ some (mesh 9))
registration_stale_example =
    registration_stale app (eui_of 8) (mesh 9) (mesh 8) (b'i' ∷ []) ivy address_8 node_8 refl
      moved_away

-- The same program with the plants the other way round.
abbrev shuffled : PlantMinder
shuffled = record app { nodes = (mesh 8, ivy) ∷ (mesh 7, fig) ∷ [] }

shuffled-IsSound : IsSound shuffled
unfolding lookup
shuffled-IsSound = ((refl, (refl, tt)), (refl, (refl, tt)))

abbrev as_app : Sound
as_app = (app, app-IsSound)

abbrev as_shuffled : Sound
as_shuffled = (shuffled, shuffled-IsSound)

shuffled-Same : Same app shuffled
unfolding lookup
shuffled-Same = record { nodes = λ k. ground arith; addrs = λ e. refl; others = refl }

run-view_of_example :
    (x' : Sound) × (y' : Sound) × (run app some_events ≡ returns x'.0)
    × (run shuffled some_events ≡ returns y'.0)
    × (view_of x' ≡ view_of y')
run-view_of_example = run-view_of some_events as_app as_shuffled (Quot.sound shuffled-Same)
