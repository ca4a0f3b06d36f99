-- ===== src/Minder/Running.antt =====
-- The loop over the events of pmindd/src/bin/main.rs: whether it ends, and how.
use plant_minder.Base.{
  ◌≡◌, refl, ap, ◌∙◌, inl, inr, List, [], ◌∷◌, ◌++◌, Bool, true, false, Outcome, returns, nat_eq,
  list_eq, Bool-cases,
}
use plant_minder.Map.{IsMap}
use plant_minder.Broker.Types.{NodeSensorReading, NodeStatus, registration, termination}
use plant_minder.Minder.{
  PlantMinder, quits, handle_app_cmd, handle_node_state_change, handle_event, arrive, run,
  if_running, then_run,
}
use plant_minder.Minder.Input.{
  AppCmd, quit, invalid, error, next, back, up, down, Event, tick_event, app_cmd, node_state,
}
use plant_minder.Minder.Ticks.{tick_lem}
use plant_minder.Minder.Registering.{registration-IsMap}

-- Neither map of the program repeats a key.
abbrev pub IsSound : PlantMinder → Type 0
IsSound m = IsMap m.nodes × IsMap m.node_addrs

pub handle_app_cmd-IsSound :
    (c : AppCmd) (m : PlantMinder) → IsSound m → IsSound (handle_app_cmd c m)
unfolding handle_app_cmd quits
handle_app_cmd-IsSound quit m h = h
handle_app_cmd-IsSound invalid m h = h
handle_app_cmd-IsSound error m h = h
handle_app_cmd-IsSound next m h = h
handle_app_cmd-IsSound back m h = h
handle_app_cmd-IsSound up m h = h
handle_app_cmd-IsSound down m h = h

pub handle_node_state_change-IsSound :
    (s : NodeStatus) (m : PlantMinder) → IsSound m → IsSound (handle_node_state_change s m)
unfolding handle_node_state_change
handle_node_state_change-IsSound (registration (eui, addr, name)) m h =
    registration-IsMap m eui addr name h.0 h.1
handle_node_state_change-IsSound (termination addr e) m h = h

pub handle_event_lem :
    (e : Event) (m : PlantMinder)
    → IsSound m
    → (m' : PlantMinder) × (handle_event e m ≡ returns m') × IsSound m'
unfolding handle_event
handle_event_lem tick_event m h =
    let (nodes', ticked, maps, look) = tick_lem m h.0 in
    (record m { data_queue = _; nodes = nodes' }, ticked, (maps, h.1))
handle_event_lem (app_cmd c) m h = (handle_app_cmd c m, refl, handle_app_cmd-IsSound c m h)
handle_event_lem (node_state s) m h =
    (handle_node_state_change s m, refl, handle_node_state_change-IsSound s m h)

pub if_running-on :
    (m : PlantMinder) (f : PlantMinder → Outcome PlantMinder)
    → m.running ≡ true
    → if_running m f ≡ f m
if_running-on m f on =
    ap (λ (b : Bool). elim b as (λ _. Outcome PlantMinder) [ true ↦ f m | false ↦ returns m ]) on

-- Once the program is stopped no event changes anything.
pub run-stopped :
    (m : PlantMinder) (es : List (List NodeSensorReading × Event))
    → m.running ≡ false
    → run m es ≡ returns m
unfolding run
run-stopped m [] stopped = refl
run-stopped m (e ∷ es) stopped = rw stopped refl

-- Whatever events and readings come in, in whatever order, the loop ends without a panic, and
-- neither map repeats a key, if neither does at the start.
pub run_returns :
    (m : PlantMinder) (es : List (List NodeSensorReading × Event))
    → IsSound m
    → (m' : PlantMinder) × (run m es ≡ returns m') × IsSound m'
unfolding run
run_returns m [] h = (m, refl, h)
run_returns m ((arrived, e) ∷ es) h = elim (Bool-cases m.running) [
  | inl on ↦
      (let (m1, handled, h1) = handle_event_lem e (arrive arrived m) h in
        let (m2, returned, h2) = run_returns m1 es h1 in
        (
          m2,
          if_running-on m (λ x. then_run (handle_event e (arrive arrived x)) (λ m''. run m'' es)) on
              ∙ ap (λ (o : Outcome PlantMinder). then_run o (λ m''. run m'' es)) handled
              ∙ returned,
          h2,
        ))
  | inr stopped ↦ (m, run-stopped m ((arrived, e) ∷ es) stopped, h)
]

-- In a program that runs, the command to quit is the last that changes anything, whatever comes
-- after it; the readings that came in before it are still queued.
pub run-quit :
    (m : PlantMinder) (arrived : List NodeSensorReading)
    (rest : List (List NodeSensorReading × Event))
    → m.running ≡ true
    → run m ((arrived, app_cmd quit) ∷ rest)
      ≡ returns (record m { running = false; data_queue = m.data_queue ++ arrived })
unfolding run handle_event handle_app_cmd quits
run-quit m arrived rest on =
    if_running-on m
      (λ x. then_run (handle_event (app_cmd quit) (arrive arrived x)) (λ m''. run m'' rest)) on
    ∙ run-stopped (quits (arrive arrived m)) rest refl
