-- ===== src/Broker/Hub.antt =====
-- `Broker` of pmind-broker/src/broker.rs: it passes readings and states of the nodes on to the
-- subscribed clients.
pub mod FanOut
pub mod Interleaving
pub mod Clients
pub mod Streams
use plant_minder.Base.{
  ℕ, List, [], ◌∷◌, ◌++◌, Bool, true, false, Option, none, some, if◌then◌else◌, nat_eq, Result, ok,
  err,
}
use plant_minder.Net.{SocketAddrV6}
use plant_minder.Map.{Map, insert, remove}
use plant_minder.Broker.Types.{
  ClientId, Registration, ErrorState, timeout, socket_error, NodeStatus, registration, termination,
  NodeEvent, node_timeout, socket_failed, setup_failed, sensor_reading, NodeSensorReading,
}
use plant_minder.Broker.Router.Coap.{EventRouterError}

-- A channel is a number; so is the stream of events of a node.
abbrev pub Sender : Type 0
Sender = ℕ

pub data BrokerError : Type 0 where
  broker : EventRouterError → BrokerError
  actor_error : BrokerError

pub data BrokerEvent : Type 0 where
  node_registration : Registration → BrokerEvent
  node_termination : SocketAddrV6 → ErrorState → BrokerEvent
  sensor_report_handle_create : ℕ → BrokerEvent

pub data ClientApi : Type 0 where
  subscribe : ClientId → Sender → Sender → ClientApi
  unsubscribe : ClientId → ClientApi

abbrev pub Subscribers : Type 0
Subscribers = Map ClientId (Sender × Sender)

-- The queues of the event loop, its subscribers, and the streams whose tasks it has started.
pub record Broker : Type 0 where
  pub data_queue : List NodeSensorReading
  pub receiver : List BrokerEvent
  pub subscription_receiver : List ClientApi
  pub subscribers : Subscribers
  pub stream_tasks : List ℕ

unfoldable pub new : Broker
new = record {
  data_queue = [];
  receiver = [];
  subscription_receiver = [];
  subscribers = [];
  stream_tasks = [];
}

pub data Delivery : Type 0 where
  reading_to : Sender → NodeSensorReading → Delivery
  status_to : Sender → NodeStatus → Delivery

-- `alive` says whose receiver still exists. A failing send is logged, and the message is gone.
module _ (alive : Sender → Bool) where
  abbrev pub send_to : Sender → Delivery → List Delivery
  send_to c d = if alive c then d ∷ [] else []

  unfoldable pub send_readings : Subscribers → NodeSensorReading → List Delivery
  send_readings [] r = []
  send_readings ((_, (readings, status)) ∷ rest) r =
      send_to readings (reading_to readings r) ++ send_readings rest r

  unfoldable pub send_status : Subscribers → NodeStatus → List Delivery
  send_status [] s = []
  send_status ((_, (readings, status)) ∷ rest) s =
      send_to status (status_to status s) ++ send_status rest s

  unfoldable pub handle_event : Broker → BrokerEvent → Broker × List Delivery
  handle_event b (node_registration reg) = (b, send_status b.subscribers (registration reg))
  handle_event b (node_termination addr e) = (b, send_status b.subscribers (termination addr e))
  handle_event b (sensor_report_handle_create s) =
      (record b { stream_tasks = b.stream_tasks ++ s ∷ [] }, [])

  unfoldable pub handle_api : Broker → ClientApi → Broker
  handle_api b (subscribe id readings status) = record b {
    subscribers = insert id (readings, status) b.subscribers;
  }
  handle_api b (unsubscribe id) = record b { subscribers = remove id b.subscribers }

  -- A branch of the `select!` whose queue is empty is not taken.
  unfoldable pub take_event : Broker → List BrokerEvent → Broker × List Delivery
  unfolding handle_event
  take_event b [] = (b, [])
  take_event b (e ∷ rest) = handle_event (record b { receiver = rest }) e

  unfoldable pub take_data : Broker → List NodeSensorReading → Broker × List Delivery
  take_data b [] = (b, [])
  take_data b (r ∷ rest) = (record b { data_queue = rest }, send_readings b.subscribers r)

  unfoldable pub take_api : Broker → List ClientApi → Broker × List Delivery
  unfolding handle_api
  take_api b [] = (b, [])
  take_api b (a ∷ rest) = (handle_api (record b { subscription_receiver = rest }) a, [])

-- One step of the loop, or a message that arrives on one of its channels.
pub data Step : Type 0 where
  takes_event takes_data takes_api : Step
  data_arrives : NodeSensorReading → Step
  event_arrives : BrokerEvent → Step
  api_arrives : ClientApi → Step

unfoldable pub step : (Sender → Bool) → Broker → Step → Broker × List Delivery
unfolding take_event take_data take_api
step alive b takes_event = take_event alive b b.receiver
step alive b takes_data = take_data alive b b.data_queue
step alive b takes_api = take_api alive b b.subscription_receiver
step alive b (data_arrives r) = (record b { data_queue = b.data_queue ++ r ∷ [] }, [])
step alive b (event_arrives e) = (record b { receiver = b.receiver ++ e ∷ [] }, [])
step alive b (api_arrives a) =
    (record b { subscription_receiver = b.subscription_receiver ++ a ∷ [] }, [])

-- The event loop under a schedule, with the deliveries in order.
unfoldable pub event_loop : (Sender → Bool) → Broker → List Step → Broker × List Delivery
event_loop alive b [] = (b, [])
event_loop alive b (s ∷ rest) =
    let (b', out) = step alive b s in
    let (b'', more) = event_loop alive b' rest in (b'', out ++ more)

-- What the router's channels bring to the task that feeds the event queue.
pub data Incoming : Type 0 where
  node_stream : ℕ → Incoming
  registered_node : Registration → Incoming

unfoldable pub forward : Incoming → BrokerEvent
forward (node_stream s) = sensor_report_handle_create s
forward (registered_node reg) = node_registration reg

pub record Forwarded : Type 0 where
  pub readings : List NodeSensorReading
  pub events : List BrokerEvent

-- The task of one node's stream: readings go to the data queue, the loss of the node to the event
-- queue, and a setup error ends the task.
unfoldable pub sensor_stream_process : List NodeEvent → Forwarded
sensor_stream_process [] = record { readings = []; events = [] }
sensor_stream_process (sensor_reading r ∷ rest) =
    let f = sensor_stream_process rest in record f { readings = r ∷ f.readings }
sensor_stream_process (setup_failed ∷ rest) = record { readings = []; events = [] }
sensor_stream_process (socket_failed addr ∷ rest) =
    let f = sensor_stream_process rest in
    record f { events = node_termination addr socket_error ∷ f.events }
sensor_stream_process (node_timeout addr ∷ rest) =
    let f = sensor_stream_process rest in
    record f { events = node_termination addr timeout ∷ f.events }

-- The handlers of `ClientSubscribe` and `ClientUnsubscribe`: the message is queued for the loop,
-- unless the loop is gone.
unfoldable pub handle_client : Bool → Broker → ClientApi → Result (Unit {0}) BrokerError × Broker
handle_client running b msg =
    if running
    then (ok tt, record b { subscription_receiver = b.subscription_receiver ++ msg ∷ [] })
    else (err actor_error, b)
