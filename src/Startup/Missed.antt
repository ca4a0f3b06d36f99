-- ===== src/Startup/Missed.antt =====
-- What the event loop of pmind-broker/src/broker.rs takes before its first client is there: `broker`
-- starts it, and `main` of pmindd/src/bin/main.rs subscribes afterwards.
use plant_minder.Base.{◌≡◌, refl, List, [], ◌∷◌, Bool, false, All, arith, ok}
use plant_minder.Broker.Types.{NodeSensorReading, OtClient, Rloc}
use plant_minder.Net.{Ipv6Addr}
use plant_minder.Text.{Text}
use plant_minder.Broker.Monitor.{
  OtMonitor, InternalRegistration, internal_registration, check_new_node, is_listed,
}
use plant_minder.Broker.Monitor.Network.{registered_not_new}
use plant_minder.Broker.Hub
use plant_minder.Broker.Hub.{
  Sender, Broker, BrokerEvent, ClientApi, Subscribers, Step, takes_event, takes_data, takes_api,
  data_arrives, event_arrives, api_arrives, step, event_loop, take_event, take_data, take_api,
  node_registration, node_termination, sensor_report_handle_create, Delivery, send_status,
  send_readings,
}
use plant_minder.Startup.{Setup, start}
use plant_minder.Startup.Settling.{NoArrival}

-- No client is there or on its way.
abbrev NoClients : Broker → Type 0
NoClients b = (b.subscribers ≡ []) × (b.subscription_receiver ≡ [])

-- Nothing is delivered, and no client has come.
abbrev IsSilent : Broker × List Delivery → Type 0
IsSilent (b, out) = (out ≡ []) × NoClients b

module _ (alive : Sender → Bool) where
  event-IsSilent :
      (b : Broker) (q : List BrokerEvent) → NoClients b → IsSilent (take_event alive b q)
  unfolding take_event send_status
  event-IsSilent b [] n = (refl, n)
  event-IsSilent b (node_registration reg ∷ q) n = ground arith
  event-IsSilent b (node_termination a e ∷ q) n = ground arith
  event-IsSilent b (sensor_report_handle_create s ∷ q) n = (refl, n)

  data-IsSilent :
      (b : Broker) (q : List NodeSensorReading) → NoClients b → IsSilent (take_data alive b q)
  unfolding take_data send_readings
  data-IsSilent b [] n = (refl, n)
  data-IsSilent b (r ∷ q) n = ground arith

  api-IsSilent :
      (b : Broker) (q : List ClientApi)
      → b.subscription_receiver ≡ q
      → NoClients b
      → IsSilent (take_api alive b q)
  unfolding take_api
  api-IsSilent b [] e n = (refl, n)
  api-IsSilent b (a ∷ q) e n = cc

  step-IsSilent : (b : Broker) (s : Step) → NoArrival s → NoClients b → IsSilent (step alive b s)
  unfolding step
  step-IsSilent b takes_event a n = event-IsSilent b b.receiver n
  step-IsSilent b takes_data a n = data-IsSilent b b.data_queue n
  step-IsSilent b takes_api a n = api-IsSilent b b.subscription_receiver refl n
  step-IsSilent b (data_arrives r) a n = (refl, n)
  step-IsSilent b (event_arrives e) a n = (refl, n)
  step-IsSilent b (api_arrives x) a n = absurd a

  event_loop-IsSilent :
      (b : Broker) (steps : List Step)
      → All NoArrival steps
      → NoClients b
      → IsSilent (event_loop alive b steps)
  unfolding event_loop
  event_loop-IsSilent b [] a n = (refl, n)
  event_loop-IsSilent b (s ∷ rest) a n =
      let now = step-IsSilent b s a.0 n in
      let later = event_loop-IsSilent (step alive b s).0 rest a.1 now.1 in
      (rw (now.0, later.0) refl, later.1)

  -- What the event loop takes before the first client has subscribed reaches nobody. A registration that
  -- it takes first of all leaves no trace: the program starts as it does without it, with or without the
  -- database, and once the node is registered the monitor does not report it as new again, if it can
  -- tell the new nodes at all. Nobody but the program sends a subscription.
  pub missed_at_start :
      (with_database : Bool) (s : Setup) (early between : List Step)
      → All NoArrival early
      → (c : OtClient) (m : OtMonitor) (n : InternalRegistration) (name : Text)
        (new : List (Rloc × Ipv6Addr))
      → (check_new_node c (internal_registration m n).1).0 ≡ ok new
      → let missed = event_arrives (node_registration (n.eui, n.ip, name)) ∷ takes_event ∷ early in
        ((event_loop alive Hub.new missed).1 ≡ [])
        × (start alive with_database s missed between ≡ start alive with_database s early between)
        × (is_listed n.rloc n.ip new ≡ false)
  unfolding start event_loop step take_event send_status Hub.new
  missed_at_start with_database s early between a c m n name new h =
      ((event_loop-IsSilent Hub.new early a (refl, refl)).0, refl, registered_not_new c m n new h)
