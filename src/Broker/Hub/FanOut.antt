-- ===== src/Broker/Hub/FanOut.antt =====
-- What the subscribers receive from the event loop, under any interleaving of its branches.
use plant_minder.Base.{
  ℕ, ◌+◌, ◌≡◌, refl, List, [], ◌∷◌, ◌++◌, Bool, true, if◌then◌else◌, ◌==◌, nat_eq, nat_beq_iff,
  arith, ap,
}
use plant_minder.Broker.Types.{NodeSensorReading, NodeStatus, registration, termination}
use plant_minder.Broker.Hub.{
  Sender, BrokerEvent, node_registration, node_termination, sensor_report_handle_create,
  Subscribers, Delivery, reading_to, status_to, send_readings, send_status, Step, takes_api,
  data_arrives, event_arrives,
}

-- What arrives on a channel.
abbrev pub readings_to : Sender → List Delivery → List NodeSensorReading
readings_to c [] = []
readings_to c (reading_to d r ∷ out) =
    let rest = readings_to c out in if d == c then r ∷ rest else rest
readings_to c (status_to d s ∷ out) = readings_to c out

abbrev pub statuses_to : Sender → List Delivery → List NodeStatus
statuses_to c [] = []
statuses_to c (reading_to d r ∷ out) = statuses_to c out
statuses_to c (status_to d s ∷ out) =
    let rest = statuses_to c out in if d == c then s ∷ rest else rest

-- How often a channel is subscribed, for readings and for states.
abbrev pub data_copies : Sender → Subscribers → ℕ
data_copies c [] = 0
data_copies c ((_, (d, s)) ∷ rest) = data_copies c rest + (if d == c then 1 else 0)

abbrev pub status_copies : Sender → Subscribers → ℕ
status_copies c [] = 0
status_copies c ((_, (d, s)) ∷ rest) = status_copies c rest + (if s == c then 1 else 0)

-- The readings and states that a schedule brings to the queues.
abbrev pub arriving_readings : List Step → List NodeSensorReading
arriving_readings [] = []
arriving_readings (data_arrives r ∷ rest) = r ∷ arriving_readings rest
arriving_readings (_ ∷ rest) = arriving_readings rest

abbrev pub arriving_events : List Step → List BrokerEvent
arriving_events [] = []
arriving_events (event_arrives e ∷ rest) = e ∷ arriving_events rest
arriving_events (_ ∷ rest) = arriving_events rest

-- The states that clients are to learn from the events.
abbrev pub announced : List BrokerEvent → List NodeStatus
announced [] = []
announced (node_registration reg ∷ rest) = registration reg ∷ announced rest
announced (node_termination a e ∷ rest) = termination a e ∷ announced rest
announced (sensor_report_handle_create s ∷ rest) = announced rest

-- The clients stay the same while a schedule runs.
abbrev pub NoApi : Step → Type 0
NoApi takes_api = ⊥
NoApi _ = Unit {0}

pub readings_to-append :
    (c : Sender) (xs ys : List Delivery)
    → readings_to c (xs ++ ys) ≡ readings_to c xs ++ readings_to c ys
readings_to-append c [] ys = refl
readings_to-append c (reading_to d r ∷ xs) ys = ground (arith, readings_to-append c xs ys)
readings_to-append c (status_to d s ∷ xs) ys = readings_to-append c xs ys

pub statuses_to-append :
    (c : Sender) (xs ys : List Delivery)
    → statuses_to c (xs ++ ys) ≡ statuses_to c xs ++ statuses_to c ys
statuses_to-append c [] ys = refl
statuses_to-append c (reading_to d r ∷ xs) ys = statuses_to-append c xs ys
statuses_to-append c (status_to d s ∷ xs) ys = ground (arith, statuses_to-append c xs ys)

pub announced-append :
    (xs ys : List BrokerEvent) → announced (xs ++ ys) ≡ announced xs ++ announced ys
announced-append [] ys = refl
announced-append (node_registration r ∷ xs) ys = ap (◌∷◌ (registration r)) (announced-append xs ys)
announced-append (node_termination a e ∷ xs) ys =
    ap (◌∷◌ (termination a e)) (announced-append xs ys)
announced-append (sensor_report_handle_create s ∷ xs) ys = announced-append xs ys

module _ (alive : Sender → Bool) (c : Sender) where
  pub no_readings :
      (subs : Subscribers) (r : NodeSensorReading)
      → data_copies c subs ≡ 0
      → readings_to c (send_readings alive subs r) ≡ []
  unfolding send_readings
  no_readings [] r h = refl
  no_readings ((id, (d, s)) ∷ subs) r h = ground (arith, no_readings subs r)

  pub one_reading :
      (subs : Subscribers) (r : NodeSensorReading)
      → alive c ≡ true
      → data_copies c subs ≡ 1
      → readings_to c (send_readings alive subs r) ≡ r ∷ []
  unfolding send_readings
  one_reading [] r a h = ground arith
  one_reading ((id, (d, s)) ∷ subs) r a h =
      ground (arith, nat_beq_iff d c, one_reading subs r a, no_readings subs r)

  pub readings_of_status :
      (subs : Subscribers) (s : NodeStatus) → readings_to c (send_status alive subs s) ≡ []
  unfolding send_status
  readings_of_status [] s = refl
  readings_of_status ((id, (d, e)) ∷ subs) s = ground (arith, readings_of_status subs s)

  pub statuses_of_reading :
      (subs : Subscribers) (r : NodeSensorReading) → statuses_to c (send_readings alive subs r) ≡ []
  unfolding send_readings
  statuses_of_reading [] r = refl
  statuses_of_reading ((id, (d, e)) ∷ subs) r = ground (arith, statuses_of_reading subs r)

  pub no_status :
      (subs : Subscribers) (s : NodeStatus)
      → status_copies c subs ≡ 0
      → statuses_to c (send_status alive subs s) ≡ []
  unfolding send_status
  no_status [] s h = refl
  no_status ((id, (d, e)) ∷ subs) s h = ground (arith, no_status subs s)

  pub one_status :
      (subs : Subscribers) (s : NodeStatus)
      → alive c ≡ true
      → status_copies c subs ≡ 1
      → statuses_to c (send_status alive subs s) ≡ s ∷ []
  unfolding send_status
  one_status [] s a h = ground arith
  one_status ((id, (d, e)) ∷ subs) s a h =
      ground (arith, nat_beq_iff e c, one_status subs s a, no_status subs s)
