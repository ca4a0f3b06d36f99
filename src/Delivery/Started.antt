-- ===== src/Delivery/Started.antt =====
-- From the start of the program on: Startup, Broker.Hub, Minder and Database in a row.
use plant_minder.Base.{
  ◌≤◌, ◌≡◌, refl, ◌∙◌, List, [], ◌∷◌, ◌++◌, Bool, true, none, ok, returns, All, list_eq, nat_eq,
  arith,
}
use plant_minder.Map.{lookup}
use plant_minder.Broker.Types.{Eui, NodeSensorReading}
use plant_minder.Broker.Hub.{
  Sender, Broker, Step, takes_event, takes_data, takes_api, data_arrives, event_arrives,
  api_arrives, step, event_loop, take_data, take_api, ClientApi,
}
use plant_minder.Broker.Hub.FanOut.{statuses_to, statuses_to-append, statuses_of_reading, NoApi}
use plant_minder.Minder
use plant_minder.Minder.{PlantMinder, run}
use plant_minder.Minder.Input.{Event}
use plant_minder.Minder.Addresses.{statuses_in, GoesOn}
use plant_minder.Database.{Sql, Conversions, registry_task}
use plant_minder.Database.Laws.{SqlLaws}
use plant_minder.Database.Registry.{Succeeds}
use plant_minder.Startup.{Setup, Started, start}
use plant_minder.Startup.Settling.{NoArrival, api_turns, queue_emptied}
use plant_minder.Startup.Serving.{IsOpen, both_listen, start_settles}
use plant_minder.Delivery.Agreement.{addr_of, shown, clients_agree}

-- The loop takes no event, and no client sends anything.
abbrev pub NoEvent : Step → Type 0
NoEvent takes_event = ⊥
NoEvent (api_arrives a) = ⊥
NoEvent _ = Unit {0}

NoEvent-NoArrival : (steps : List Step) → All NoEvent steps → All NoArrival steps
NoEvent-NoArrival [] h = tt
NoEvent-NoArrival (takes_event ∷ steps) h = absurd h.0
NoEvent-NoArrival (takes_data ∷ steps) h = (tt, NoEvent-NoArrival steps h.1)
NoEvent-NoArrival (takes_api ∷ steps) h = (tt, NoEvent-NoArrival steps h.1)
NoEvent-NoArrival (data_arrives r ∷ steps) h = (tt, NoEvent-NoArrival steps h.1)
NoEvent-NoArrival (event_arrives e ∷ steps) h = (tt, NoEvent-NoArrival steps h.1)
NoEvent-NoArrival (api_arrives a ∷ steps) h = absurd h.0

module _ (alive : Sender → Bool) (d : Sender) where
  data_tells_none :
      (b : Broker) (q : List NodeSensorReading) → statuses_to d (take_data alive b q).1 ≡ []
  unfolding take_data
  data_tells_none b [] = refl
  data_tells_none b (r ∷ q) = statuses_of_reading alive d b.subscribers r

  api_tells_none : (b : Broker) (q : List ClientApi) → statuses_to d (take_api alive b q).1 ≡ []
  unfolding take_api
  api_tells_none b [] = refl
  api_tells_none b (a ∷ q) = refl

  step_tells_none : (b : Broker) (s : Step) → NoEvent s → statuses_to d (step alive b s).1 ≡ []
  unfolding step
  step_tells_none b takes_event h = absurd h
  step_tells_none b takes_data h = data_tells_none b b.data_queue
  step_tells_none b takes_api h = api_tells_none b b.subscription_receiver
  step_tells_none b (data_arrives r) h = refl
  step_tells_none b (event_arrives e) h = refl
  step_tells_none b (api_arrives a) h = absurd h

  -- Steps without an event, then others.
  later_statuses :
      (b : Broker) (rest later : List Step)
      → All NoEvent rest
      → statuses_to d (event_loop alive b (rest ++ later)).1
        ≡ statuses_to d (event_loop alive (event_loop alive b rest).0 later).1
  unfolding event_loop
  later_statuses b [] later h = refl
  later_statuses b (s ∷ rest) later h =
      statuses_to-append d (step alive b s).1
        (event_loop alive (step alive b s).0 (rest ++ later)).1
      ∙ rw (step_tells_none b s h.0) (later_statuses (step alive b s).0 rest later h.1)

-- From its start on, the program's front end and its database agree on where a plant is that is new to
-- the database: whatever the event loop and the nodes do, and whatever events and readings come in at
-- the front end, once both have handled all that the loop has sent them they have the plant at the same
-- address, or both at none. The start succeeds, with the database; the loop takes no event until it has
-- taken its clients' branch twice; the channels are open and not shared, no client sends anything
-- later, the front end is not stopped, and every registration of the database succeeds.
pub started_agree :
    (alive : Sender → Bool) (s : Setup) (early between rest later : List Step) (st : Started)
    (es : List (List NodeSensorReading × Event)) (Q : Sql) (L : SqlLaws Q) (conv : Conversions)
    (tables : Q.Store) (e : Eui)
    → All NoEvent early
    → All NoEvent between
    → All NoEvent rest
    → 2 ≤ api_turns rest
    → All NoApi later
    → IsOpen alive s
    → start alive true s early between ≡ ok st
    → statuses_in es ≡ statuses_to s.front_end.1 (event_loop alive st.broker (rest ++ later)).1
    → All GoesOn es
    → Succeeds Q L conv
    → lookup e (L.tables tables).plants ≡ none
    → (m' : PlantMinder) × (run st.app es ≡ returns m')
      × (addr_of (
            lookup e
              (L.tables (
                registry_task Q conv
                  (statuses_to s.database.1 (event_loop alive st.broker (rest ++ later)).1)
                  tables)).plants)
          ≡ shown conv.show (lookup e m'.node_addrs))
unfolding Minder.new lookup
started_agree alive s early between rest later st es Q L conv tables e n n' n'' twice no_api open_
      started handled goes done fresh =
    let (settles, few, app) =
      start_settles alive true s early between st (NoEvent-NoArrival early n)
        (NoEvent-NoArrival between n') started in
    let b = (event_loop alive st.broker rest).0 in
    let (front, database) =
      both_listen alive s b open_
        (queue_emptied alive st.broker rest (NoEvent-NoArrival rest n'') (omega arith) ∙ settles) in
    rw (app, later_statuses alive s.database.1 st.broker rest later n'')
      (clients_agree alive s.front_end.0 s.front_end.1 s.database.0 s.database.1 b later
        (Minder.new 500) es Q L conv tables e no_api front database
        (handled ∙ later_statuses alive s.front_end.1 st.broker rest later n'') goes (tt, tt) refl
        done (rw fresh refl))
