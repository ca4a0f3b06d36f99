-- ===== src/Broker/Hub/Interleaving.antt =====
-- The queues of the event loop of pmind-broker/src/broker.rs and what a subscriber receives, over any
-- schedule of branches and arrivals.
use mathlib.Core.List.{append-nil, append_assoc}
use plant_minder.Base.{◌≡◌, refl, List, [], ◌∷◌, ◌++◌, Bool, true, All, sym, ◌∙◌}
use plant_minder.Broker.Types.{NodeSensorReading, registration, termination}
use plant_minder.Broker.Hub.{
  Sender, Broker, BrokerEvent, node_registration, node_termination, sensor_report_handle_create,
  Delivery, take_event, take_data, Step, takes_event, takes_data, takes_api, data_arrives,
  event_arrives, api_arrives, step, event_loop,
}
use plant_minder.Broker.Hub.FanOut.{
  readings_to, statuses_to, data_copies, status_copies, arriving_readings, arriving_events,
  announced, NoApi, readings_to-append, statuses_to-append, announced-append, one_reading,
  readings_of_status, statuses_of_reading, one_status,
}

-- The client with these channels is subscribed once, and still listens.
pub record Listens (alive : Sender → Bool) (data_channel status_channel : Sender) (b : Broker)
    : Type 0 where
  pub data_alive : alive data_channel ≡ true
  pub status_alive : alive status_channel ≡ true
  pub data_once : data_copies data_channel b.subscribers ≡ 1
  pub status_once : status_copies status_channel b.subscribers ≡ 1

-- What was queued at first or has arrived since is what was delivered, then what is still queued.
pub record Conserves (c d : Sender) (b b' : Broker) (arrived : List Step) (out : List Delivery)
    : Type 0 where
  pub readings : readings_to c out ++ b'.data_queue ≡ b.data_queue ++ arriving_readings arrived
  pub statuses :
      statuses_to d out ++ announced b'.receiver
      ≡ announced b.receiver ++ announced (arriving_events arrived)
  pub subscribers : b'.subscribers ≡ b.subscribers

chain {ℓ} :
    {A : Type ℓ} (o p x y z u v w : List A)
    → o ++ y ≡ x ++ u
    → p ++ z ≡ y ++ v
    → w ≡ u ++ v
    → (o ++ p) ++ z ≡ x ++ w
chain o p x y z u v w h k e =
    rw (e, append_assoc o p z, k, ← append_assoc o y v, h) (append_assoc x u v)

module _ (alive : Sender → Bool) (c d : Sender) where
  take_event-Conserves :
      (b : Broker) (q : List BrokerEvent)
      → b.receiver ≡ q
      → Listens alive c d b
      → Conserves c d b (take_event alive b q).0 (takes_event ∷ []) (take_event alive b q).1
  unfolding take_event
  take_event-Conserves b [] e h = record {
    readings = sym (append-nil b.data_queue);
    statuses = sym (append-nil (announced b.receiver));
    subscribers = refl;
  }
  take_event-Conserves b (node_registration reg ∷ q) e h = record {
    readings =
        rw (readings_of_status alive c b.subscribers (registration reg))
          (sym (append-nil b.data_queue));
    statuses =
        rw (one_status alive d b.subscribers (registration reg) h.status_alive h.status_once, e)
          (sym (append-nil _));
    subscribers = refl;
  }
  take_event-Conserves b (node_termination a s ∷ q) e h = record {
    readings =
        rw (readings_of_status alive c b.subscribers (termination a s))
          (sym (append-nil b.data_queue));
    statuses =
        rw (one_status alive d b.subscribers (termination a s) h.status_alive h.status_once, e)
          (sym (append-nil _));
    subscribers = refl;
  }
  take_event-Conserves b (sensor_report_handle_create s ∷ q) e h = record {
    readings = sym (append-nil b.data_queue);
    statuses = rw e (sym (append-nil _));
    subscribers = refl;
  }

  take_data-Conserves :
      (b : Broker) (q : List NodeSensorReading)
      → b.data_queue ≡ q
      → Listens alive c d b
      → Conserves c d b (take_data alive b q).0 (takes_data ∷ []) (take_data alive b q).1
  unfolding take_data
  take_data-Conserves b [] e h = record {
    readings = sym (append-nil b.data_queue);
    statuses = sym (append-nil (announced b.receiver));
    subscribers = refl;
  }
  take_data-Conserves b (r ∷ q) e h = record {
    readings =
        rw (one_reading alive c b.subscribers r h.data_alive h.data_once, e) (sym (append-nil _));
    statuses =
        rw (statuses_of_reading alive d b.subscribers r) (sym (append-nil (announced b.receiver)));
    subscribers = refl;
  }

  step-Conserves :
      (b : Broker) (s : Step)
      → NoApi s
      → Listens alive c d b
      → Conserves c d b (step alive b s).0 (s ∷ []) (step alive b s).1
  unfolding step
  step-Conserves b takes_event n h = take_event-Conserves b b.receiver refl h
  step-Conserves b takes_data n h = take_data-Conserves b b.data_queue refl h
  step-Conserves b takes_api n h = absurd n
  step-Conserves b (data_arrives r) n h = record {
    readings = refl;
    statuses = sym (append-nil _);
    subscribers = refl;
  }
  step-Conserves b (event_arrives e) n h = record {
    readings = sym (append-nil _);
    statuses = announced-append b.receiver (e ∷ []);
    subscribers = refl;
  }
  step-Conserves b (api_arrives a) n h = record {
    readings = sym (append-nil _);
    statuses = sym (append-nil _);
    subscribers = refl;
  }

  arriving_readings-cons :
      (s : Step) (l : List Step)
      → arriving_readings (s ∷ l) ≡ arriving_readings (s ∷ []) ++ arriving_readings l
  arriving_readings-cons takes_event l = refl
  arriving_readings-cons (data_arrives r) l = refl
  arriving_readings-cons _ l = refl

  announced-cons :
      (s : Step) (l : List Step)
      → announced (arriving_events (s ∷ l))
        ≡ announced (arriving_events (s ∷ [])) ++ announced (arriving_events l)
  announced-cons takes_event l = refl
  announced-cons (event_arrives e) l = announced-append (e ∷ []) (arriving_events l)
  announced-cons _ l = refl

  -- However the branches of the loop and the arrivals interleave, but for subscriptions and their
  -- ends, a client that is subscribed once and keeps its channels open receives exactly the readings
  -- and the states that were queued or have arrived, each once and in order, up to those that are
  -- still queued.
  pub event_loop-Conserves :
      (b : Broker) (schedule : List Step)
      → All NoApi schedule
      → Listens alive c d b
      → Conserves c d b (event_loop alive b schedule).0 schedule (event_loop alive b schedule).1
  unfolding event_loop
  event_loop-Conserves b [] n h = record {
    readings = sym (append-nil b.data_queue);
    statuses = sym (append-nil (announced b.receiver));
    subscribers = refl;
  }
  event_loop-Conserves b (s ∷ rest) n h =
      let b' = (step alive b s).0 in
      let one = step-Conserves b s n.0 h in
      let h' : Listens alive c d b' = record {
        data_alive = h.data_alive;
        status_alive = h.status_alive;
        data_once = rw one.subscribers h.data_once;
        status_once = rw one.subscribers h.status_once;
      } in
      let more = event_loop-Conserves b' rest n.1 h' in
      record {
        readings =
            rw (readings_to-append c (step alive b s).1 (event_loop alive b' rest).1)
              (chain _ _ _ _ _ _ _ _ one.readings more.readings (arriving_readings-cons s rest));
        statuses =
            rw (statuses_to-append d (step alive b s).1 (event_loop alive b' rest).1)
              (chain _ _ _ _ _ _ _ _ one.statuses more.statuses (announced-cons s rest));
        subscribers = more.subscribers ∙ one.subscribers;
      }
