-- ===== src/Tests/HubTests.antt =====
-- Tests of the receivers of data and of the event loop.
use plant_minder.Base.{
  ℕ, ◌≡◌, refl, List, [], ◌∷◌, Bool, true, false, not, ◌==◌, Option, none, some, nat_eq,
}
use plant_minder.Net.{SocketAddrV6, v4, v6}
use plant_minder.Map.{lookup, IsMap}
use plant_minder.Sensor.{SensorReading}
use plant_minder.Broker.Node.{Wakeup, recv_from, timed_out, node_event_handler}
use plant_minder.Broker.Node.Stream.{before_end, last_sender, readings}
use plant_minder.Broker.Hub.{
  Broker, BrokerEvent, node_registration, subscribe, unsubscribe, handle_api, send_readings, Step,
  takes_event, takes_data, data_arrives, event_arrives, event_loop, sensor_stream_process,
  Forwarded,
}
use plant_minder.Broker.Hub.FanOut.{readings_to}
use plant_minder.Broker.Hub.Interleaving.{Listens, Conserves, event_loop-Conserves}
use plant_minder.Broker.Hub.Streams.{readings_in, announcement, forwarded_lem}
use plant_minder.Tests.{mesh, reading_from, sensor, eui_of}

-- A client with channels 10 and 11, and another.
abbrev pub broker : Broker
broker = record {
  data_queue = reading_from 7 ∷ [];
  receiver = [];
  subscription_receiver = [];
  subscribers = (1, (10, 11)) ∷ (2, (12, 13)) ∷ [];
  stream_tasks = [];
}

-- The receiver of the second client's readings is gone.
abbrev pub alive : ℕ → Bool
alive c = not (c == 12)

abbrev schedule : List Step
schedule =
    event_arrives (node_registration (eui_of 8, mesh 8, b'f' ∷ []))
    ∷ takes_data
    ∷ takes_event
    ∷ data_arrives (reading_from 8)
    ∷ takes_data
    ∷ takes_data
    ∷ []

broker-Listens : Listens alive 10 11 broker
broker-Listens = record {
  data_alive = refl;
  status_alive = refl;
  data_once = refl;
  status_once = refl;
}

event_loop_example :
    Conserves 10 11 broker
      (event_loop alive broker schedule).0
      schedule
      (event_loop alive broker schedule).1
event_loop_example =
    event_loop-Conserves alive 10 11 broker schedule (tt, (tt, (tt, (tt, (tt, (tt, tt))))))
      broker-Listens

delivered :
    readings_to 10 (event_loop alive broker schedule).1 ≡ reading_from 7 ∷ reading_from 8 ∷ []
unfolding event_loop plant_minder.Broker.Hub.step send_readings plant_minder.Broker.Hub.send_status
delivered = refl

subscribers-IsMap : IsMap broker.subscribers
unfolding lookup
subscribers-IsMap = (refl, (refl, tt))

first_client : lookup 1 broker.subscribers ≡ some (10, 11)
unfolding lookup
first_client = refl

-- Every datagram but the empty one holds a reading.
abbrev pub parse_any : List ℕ → Option SensorReading
parse_any [] = none
parse_any (_ ∷ _) = some sensor

abbrev pub bound : SocketAddrV6
bound = record { ip = mesh 1; port = 1213 }

abbrev wakeups : List Wakeup
wakeups =
    recv_from (1 ∷ []) (v6 (record { ip = mesh 7; port = 9 })) 100
    ∷ recv_from [] (v4 1 2) 101
    ∷ timed_out
    ∷ recv_from (1 ∷ []) (v4 1 2) 102
    ∷ []

forwarded_example :
    (sensor_stream_process (node_event_handler parse_any true bound wakeups) ≡ record {
      readings = readings_in (readings parse_any bound (before_end wakeups));
      events = announcement (last_sender bound (before_end wakeups)) wakeups;
    })
    × (sensor_stream_process (node_event_handler parse_any false bound wakeups)
        ≡ record { readings = []; events = [] })
forwarded_example = forwarded_lem parse_any bound wakeups
