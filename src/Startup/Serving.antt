-- ===== src/Startup/Serving.antt =====
-- Who is served once the program has started.
use plant_minder.Base.{
  ◌≤◌, ◌≡◌, ◌≢◌, refl, ap, ◌∙◌, List, [], ◌∷◌, Bool, true, false, none, some, if◌then◌else◌, ok,
  All, arith, ok-injective, bind-ok, map_err, nat_beq_iff, nat_eq,
}
use plant_minder.Map.{insert}
use plant_minder.Broker.Hub
use plant_minder.Broker.Hub.{
  Sender, Broker, BrokerEvent, ClientApi, subscribe, unsubscribe, Subscribers, handle_api, Step,
  takes_event, takes_data, takes_api, data_arrives, event_arrives, api_arrives, step, event_loop,
  take_event, take_data, take_api, handle_event, handle_client, node_registration, node_termination,
  sensor_report_handle_create,
}
use plant_minder.Broker.Hub.FanOut.{NoApi}
use plant_minder.Broker.Hub.Interleaving.{Listens, Conserves, event_loop-Conserves}
use plant_minder.Database.Tasks.{new_with_db_conn_tasks, open_database, DbConn}
use plant_minder.Minder
use plant_minder.Minder.{PlantMinder}
use plant_minder.Startup.{database_error, Setup, Started, start, subscribe_client, start_database}
use plant_minder.Startup.Settling.{
  NoArrival, api_turns, settled, queued, event_loop_settles, queue_emptied,
  subscribe_client_settles,
}

-- The connection has the database's channels.
conn_lem :
    (establishes migrates : Bool) (r t : Sender) (conn : DbConn)
    → map_err database_error (new_with_db_conn_tasks establishes migrates (r, t)) ≡ ok conn
    → (conn.stream_tx ≡ r) × (conn.registration_tx ≡ t)
unfolding new_with_db_conn_tasks open_database
conn_lem false migrates r t conn h = cc
conn_lem true false r t conn h = cc
conn_lem true true r t conn h = ground arith

-- The clients of the program, by its feature `database`.
abbrev pub clients : Bool → Setup → Subscribers
clients true s = (0, s.front_end) ∷ (1, s.database) ∷ []
clients false s = (0, s.front_end) ∷ []

module _ (alive : Sender → Bool) where
  started_settles :
      (with_database : Bool) (s : Setup) (app : PlantMinder) (b : Broker) (st : Started)
      → settled b ≡ (0, s.front_end) ∷ []
      → queued b ≤ 1
      → (if with_database
          then start_database alive s app b
          else ok (record { broker = b; app = app; db = none }))
        ≡ ok st
      → (settled st.broker ≡ clients with_database s) × (queued st.broker ≤ 2) × (st.app ≡ app)
  unfolding start_database insert
  started_settles false s app b st e q h =
      let same : ◌≡◌ {A = Started} (record { broker = b; app = app; db = none }) st =
        ok-injective h in
      rw (← same) (e, omega arith, refl)
  started_settles true s app b st e q h =
      let (conn, opened, h1) = bind-ok _ _ h in
      let (b', subscribed, h2) = bind-ok _ _ h1 in
      let (settles, longer) =
        subscribe_client_settles s.db_mailbox s.db_looping 1 (conn.stream_tx, conn.registration_tx)
          b b' subscribed in
      let (r_same, t_same) =
        conn_lem s.establishes s.migrates s.database.0 s.database.1 conn opened in
      let same : ◌≡◌ {A = Started} (record { broker = b'; app = app; db = some conn }) st =
        ok-injective h2 in
      rw (← same) (settles ∙ rw (r_same, t_same, e) refl, omega arith, refl)

  pub start_settles :
      (with_database : Bool) (s : Setup) (early between : List Step) (st : Started)
      → All NoArrival early
      → All NoArrival between
      → start alive with_database s early between ≡ ok st
      → (settled st.broker ≡ clients with_database s)
        × (queued st.broker ≤ 2)
        × (st.app ≡ Minder.new 500)
  unfolding start Hub.new insert
  start_settles with_database s early between st n n' h =
      let b0 = (event_loop alive Hub.new early).0 in
      let (b1, subscribed, h1) =
        bind-ok (subscribe_client s.mailbox s.looping 0 s.front_end b0) _ h in
      let (settles0, empty0) = event_loop_settles alive Hub.new early n in
      let (settles1, longer) =
        subscribe_client_settles s.mailbox s.looping 0 s.front_end b0 b1 subscribed in
      let (settles2, shorter) = event_loop_settles alive b1 between n' in
      started_settles with_database s _ _ st
        (settles2 ∙ settles1 ∙ ap (insert 0 s.front_end) settles0) (omega arith) h1

module _ (alive : Sender → Bool) (s : Setup) where
  -- Receivers that exist, on four channels of which no two of a kind are the same.
  pub record IsOpen : Type 0 where
    pub front_readings : alive s.front_end.0 ≡ true
    pub front_status : alive s.front_end.1 ≡ true
    pub database_readings : alive s.database.0 ≡ true
    pub database_status : alive s.database.1 ≡ true
    pub two_readings : s.front_end.0 ≢ s.database.0
    pub two_status : s.front_end.1 ≢ s.database.1

  pub both_listen :
      (b : Broker)
      → IsOpen
      → b.subscribers ≡ clients true s
      → Listens alive s.front_end.0 s.front_end.1 b × Listens alive s.database.0 s.database.1 b
  both_listen b o e =
      let r = o.two_readings in
      let t = o.two_status in
      (
        record {
          data_alive = o.front_readings;
          status_alive = o.front_status;
          data_once = rw e (
              ground (
                arith,
                nat_beq_iff s.front_end.0 s.front_end.0,
                nat_beq_iff s.database.0 s.front_end.0,
              ));
          status_once = rw e (
              ground (
                arith,
                nat_beq_iff s.front_end.1 s.front_end.1,
                nat_beq_iff s.database.1 s.front_end.1,
              ));
        },
        record {
          data_alive = o.database_readings;
          status_alive = o.database_status;
          data_once = rw e (
              ground (
                arith,
                nat_beq_iff s.database.0 s.database.0,
                nat_beq_iff s.front_end.0 s.database.0,
              ));
          status_once = rw e (
              ground (
                arith,
                nat_beq_iff s.database.1 s.database.1,
                nat_beq_iff s.front_end.1 s.database.1,
              ));
        },
      )

  -- When the program starts with its database, whatever else the event loop does meanwhile, and the loop
  -- then takes its clients' branch twice, the front end and the database are served from there on: each
  -- gets exactly the readings and the states that are then queued or arrive later, each once and in
  -- order, up to those that are still queued. The channels are open and not shared, nobody but the
  -- program sends a subscription, and the clients stay the same later.
  pub start-Conserves :
      (early between rest later : List Step) (st : Started)
      → All NoArrival early
      → All NoArrival between
      → All NoArrival rest
      → 2 ≤ api_turns rest
      → All NoApi later
      → IsOpen
      → start alive true s early between ≡ ok st
      → let b = (event_loop alive st.broker rest).0 in
        let end = event_loop alive b later in
        Conserves s.front_end.0 s.front_end.1 b end.0 later end.1
        × Conserves s.database.0 s.database.1 b end.0 later end.1
  start-Conserves early between rest later st n n' n'' twice no_api o h =
      let (settles, few, app) = start_settles alive true s early between st n n' h in
      let b = (event_loop alive st.broker rest).0 in
      let (front, database) =
        both_listen b o (queue_emptied alive st.broker rest n'' (omega arith) ∙ settles) in
      (
        event_loop-Conserves alive s.front_end.0 s.front_end.1 b later no_api front,
        event_loop-Conserves alive s.database.0 s.database.1 b later no_api database,
      )
