-- ===== src/Broker/Hub/Streams.antt =====
-- From a node's socket to the queues of the event loop.
use mathlib.Core.List.{append-nil}
use plant_minder.Base.{ℕ, ◌≡◌, refl, List, [], ◌∷◌, ◌++◌, true, false, Option, All, ap}
use plant_minder.Net.{SocketAddrV6}
use plant_minder.Sensor.{SensorReading}
use plant_minder.Broker.Types.{
  NodeEvent, node_timeout, socket_failed, setup_failed, sensor_reading, NodeSensorReading, timeout,
  socket_error,
}
use plant_minder.Broker.Node.{
  Wakeup, sender_closed, timed_out, recv_failed, recv_from, node_event_handler,
}
use plant_minder.Broker.Node.Stream.{
  before_end, last_sender, last_word, readings, receive_loop_lem, IsReading, readings-IsReading,
}
use plant_minder.Broker.Hub.{BrokerEvent, node_termination, sensor_stream_process}

-- The readings among some events.
abbrev pub readings_in : List NodeEvent → List NodeSensorReading
readings_in [] = []
readings_in (sensor_reading r ∷ rest) = r ∷ readings_in rest
readings_in (_ ∷ rest) = readings_in rest

-- The events are those of a task whose port was bound.
abbrev pub IsBound : NodeEvent → Type 0
IsBound setup_failed = ⊥
IsBound _ = Unit {0}

-- How the end of the task is announced.
abbrev pub announcement : SocketAddrV6 → List Wakeup → List BrokerEvent
announcement addr [] = []
announcement addr (sender_closed ∷ rest) = []
announcement addr (timed_out ∷ rest) = node_termination addr timeout ∷ []
announcement addr (recv_failed ∷ rest) = node_termination addr socket_error ∷ []
announcement addr (recv_from b a t ∷ rest) = announcement addr rest

readings-append :
    (xs ys : List NodeEvent)
    → All IsReading xs
    → sensor_stream_process (xs ++ ys) ≡ record {
      readings = readings_in xs ++ (sensor_stream_process ys).readings;
      events = (sensor_stream_process ys).events;
    }
unfolding sensor_stream_process
readings-append [] ys h = refl
readings-append (sensor_reading r ∷ xs) ys h = rw (readings-append xs ys h.1)
readings-append (node_timeout a ∷ xs) ys h = absurd h.0
readings-append (socket_failed a ∷ xs) ys h = absurd h.0
readings-append (setup_failed ∷ xs) ys h = absurd h.0

last_word-forwarded :
    (addr : SocketAddrV6) (ws : List Wakeup)
    → sensor_stream_process (last_word addr ws)
      ≡ record { readings = []; events = announcement addr ws }
unfolding sensor_stream_process
last_word-forwarded addr [] = refl
last_word-forwarded addr (sender_closed ∷ ws) = refl
last_word-forwarded addr (timed_out ∷ ws) = refl
last_word-forwarded addr (recv_failed ∷ ws) = refl
last_word-forwarded addr (recv_from b a t ∷ ws) = last_word-forwarded addr ws

-- What a node's task and the task of its stream make of the events on the node's socket: the
-- readings that parse reach the data queue in order, and the end of the task is announced once,
-- under the address of the last sender. A port that cannot be bound yields nothing at all.
pub forwarded_lem :
    (parse : List ℕ → Option SensorReading) (addr : SocketAddrV6) (ws : List Wakeup)
    → (sensor_stream_process (node_event_handler parse true addr ws) ≡ record {
      readings = readings_in (readings parse addr (before_end ws));
      events = announcement (last_sender addr (before_end ws)) ws;
    })
      × (sensor_stream_process (node_event_handler parse false addr ws)
          ≡ record { readings = []; events = [] })
unfolding node_event_handler sensor_stream_process
forwarded_lem parse addr ws = (
  rw (
    receive_loop_lem parse addr ws,
    readings-append (readings parse addr (before_end ws)) _
        (readings-IsReading parse addr (before_end ws)),
    last_word-forwarded (last_sender addr (before_end ws)) ws,
    append-nil,
  ),
  refl,
)

-- The timeout of a node does not end the task of its stream: what comes after it is passed on.
pub after_timeout :
    (xs ys : List NodeEvent) (addr : SocketAddrV6)
    → All IsBound xs
    → (sensor_stream_process (xs ++ node_timeout addr ∷ ys)).readings
      ≡ readings_in xs ++ (sensor_stream_process ys).readings
unfolding sensor_stream_process
after_timeout [] ys addr h = refl
after_timeout (sensor_reading r ∷ xs) ys addr h = ap (◌∷◌ r) (after_timeout xs ys addr h.1)
after_timeout (node_timeout a ∷ xs) ys addr h = after_timeout xs ys addr h.1
after_timeout (socket_failed a ∷ xs) ys addr h = after_timeout xs ys addr h.1
after_timeout (setup_failed ∷ xs) ys addr h = absurd h.0
