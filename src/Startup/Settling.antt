-- ===== src/Startup/Settling.antt =====
-- The clients that the event loop of pmind-broker/src/broker.rs will serve, once it has handled the
-- messages in its queue.
use plant_minder.Base.{
  ℕ, suc, ◌+◌, ◌-◌, ◌≤◌, ◌≡◌, refl, ap, ◌∙◌, List, [], ◌∷◌, ◌++◌, Bool, true, false, ok, All,
  length, length-append, arith, ok-injective, nat_eq,
}
use plant_minder.Map.{insert, remove}
use plant_minder.Broker.Types.{NodeSensorReading}
use plant_minder.Broker.Hub.{
  Sender, Broker, BrokerEvent, ClientApi, subscribe, unsubscribe, Subscribers, handle_api, Step,
  takes_event, takes_data, takes_api, data_arrives, event_arrives, api_arrives, step, event_loop,
  take_event, take_data, take_api, handle_client, node_registration, node_termination,
  sensor_report_handle_create,
}
use plant_minder.Startup.{subscribe_client}

-- No client sends anything: only `main` has the handle.
abbrev pub NoArrival : Step → Type 0
NoArrival (api_arrives a) = ⊥
NoArrival _ = Unit {0}

-- How often the loop takes the branch of its clients.
abbrev pub api_turns : List Step → ℕ
api_turns [] = 0
api_turns (takes_api ∷ rest) = suc (api_turns rest)
api_turns (_ ∷ rest) = api_turns rest

-- The subscribers once the queued messages are handled.
abbrev pub outcome : Subscribers → List ClientApi → Subscribers
outcome subs [] = subs
outcome subs (subscribe id readings status ∷ q) = outcome (insert id (readings, status) subs) q
outcome subs (unsubscribe id ∷ q) = outcome (remove id subs) q

outcome-append :
    (subs : Subscribers) (q q' : List ClientApi)
    → outcome subs (q ++ q') ≡ outcome (outcome subs q) q'
outcome-append subs [] q' = refl
outcome-append subs (subscribe id r s ∷ q) q' = outcome-append (insert id (r, s) subs) q q'
outcome-append subs (unsubscribe id ∷ q) q' = outcome-append (remove id subs) q q'

-- The subscribers to come, and how many messages are queued.
abbrev pub settled : Broker → Subscribers
settled b = outcome b.subscribers b.subscription_receiver

abbrev pub queued : Broker → ℕ
queued b = length b.subscription_receiver

module _ (alive : Sender → Bool) where
  event_keeps :
      (b : Broker) (q : List BrokerEvent)
      → let b' = (take_event alive b q).0 in
        (b'.subscribers ≡ b.subscribers) × (b'.subscription_receiver ≡ b.subscription_receiver)
  unfolding take_event
  event_keeps b [] = (refl, refl)
  event_keeps b (node_registration reg ∷ q) = (refl, refl)
  event_keeps b (node_termination a e ∷ q) = (refl, refl)
  event_keeps b (sensor_report_handle_create s ∷ q) = (refl, refl)

  data_keeps :
      (b : Broker) (q : List NodeSensorReading)
      → let b' = (take_data alive b q).0 in
        (b'.subscribers ≡ b.subscribers) × (b'.subscription_receiver ≡ b.subscription_receiver)
  unfolding take_data
  data_keeps b [] = (refl, refl)
  data_keeps b (r ∷ q) = (refl, refl)

  api_settles :
      (b : Broker) (q : List ClientApi)
      → b.subscription_receiver ≡ q
      → let b' = (take_api alive b q).0 in
        (settled b' ≡ outcome b.subscribers q) × (queued b' ≡ length q - 1)
  unfolding take_api handle_api
  api_settles b [] e = (rw e refl, rw e (omega arith))
  api_settles b (subscribe id r s ∷ q) e = (refl, omega arith)
  api_settles b (unsubscribe id ∷ q) e = (refl, omega arith)

  -- A step leaves the subscribers to come as they are.
  step_settles :
      (b : Broker) (s : Step)
      → NoArrival s
      → let b' = (step alive b s).0 in
        (settled b' ≡ settled b) × (queued b' ≡ queued b - api_turns (s ∷ []))
  unfolding step
  step_settles b takes_event n =
      let (subs, q) = event_keeps b b.receiver in (rw (subs, q) refl, rw q (omega arith))
  step_settles b takes_data n =
      let (subs, q) = data_keeps b b.data_queue in (rw (subs, q) refl, rw q (omega arith))
  step_settles b takes_api n = api_settles b b.subscription_receiver refl
  step_settles b (data_arrives r) n = (refl, omega arith)
  step_settles b (event_arrives e) n = (refl, omega arith)
  step_settles b (api_arrives a) n = absurd n

  api_turns-cons :
      (s : Step) (rest : List Step) → api_turns (s ∷ rest) ≡ api_turns (s ∷ []) + api_turns rest
  api_turns-cons takes_api rest = omega arith
  api_turns-cons takes_event rest = omega arith
  api_turns-cons _ rest = omega arith

  pub event_loop_settles :
      (b : Broker) (steps : List Step)
      → All NoArrival steps
      → let b' = (event_loop alive b steps).0 in
        (settled b' ≡ settled b) × (queued b' ≡ queued b - api_turns steps)
  unfolding event_loop
  event_loop_settles b [] n = (refl, omega arith)
  event_loop_settles b (s ∷ rest) n =
      let (same, fewer) = step_settles b s n.0 in
      let (later, empty) = event_loop_settles (step alive b s).0 rest n.1 in
      (later ∙ same, omega (arith, api_turns-cons s rest))

  -- All messages are handled once the loop has had enough turns.
  pub queue_emptied :
      (b : Broker) (steps : List Step)
      → All NoArrival steps
      → queued b ≤ api_turns steps
      → (event_loop alive b steps).0.subscribers ≡ settled b
  queue_emptied b steps n enough =
      let (same, empty) = event_loop_settles b steps n in
      by_queue (event_loop alive b steps).0 _ refl (omega arith) ∙ same
    where
      by_queue :
          (b' : Broker) (q : List ClientApi)
          → b'.subscription_receiver ≡ q
          → queued b' ≡ 0
          → b'.subscribers ≡ settled b'
      by_queue b' [] e h = rw e refl
      by_queue b' (a ∷ q) e h = absurd (omega (arith, ap length e))

pub subscribe_client_settles :
    (mailbox looping : Bool) (id : ℕ) (c : Sender × Sender) (b b' : Broker)
    → subscribe_client mailbox looping id c b ≡ ok b'
    → (settled b' ≡ insert id c (settled b)) × (queued b' ≡ queued b + 1)
unfolding subscribe_client handle_client
subscribe_client_settles false looping id c b b' h = cc
subscribe_client_settles true false id c b b' h = cc
subscribe_client_settles true true id (r, s) b b' h = rw (← ok-injective h) (
  outcome-append b.subscribers b.subscription_receiver (subscribe id r s ∷ []),
  length-append b.subscription_receiver _,
)
