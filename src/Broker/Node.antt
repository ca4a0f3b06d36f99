-- ===== src/Broker/Node.antt =====
-- `NodeEventHandler` of pmind-broker/src/node.rs: the task that receives a node's data.
pub mod Stream
use plant_minder.Base.{
  ℕ, List, [], ◌∷◌, ◌++◌, Bool, true, false, Option, none, some, if◌then◌else◌, take,
}
use plant_minder.Net.{Ipv6Addr, SocketAddrV6, SocketAddr, v4, v6}
use plant_minder.Sensor.{SensorReading}
use plant_minder.Broker.Types.{
  NodeEvent, node_timeout, socket_failed, setup_failed, sensor_reading, NodeSensorReading,
}

-- What ends one turn of the loop: the broker has dropped the stream, a hundred seconds have passed
-- without data, a datagram arrives at some local time, or the socket fails.
pub data Wakeup : Type 0 where
  sender_closed timed_out recv_failed : Wakeup
  recv_from : List ℕ → SocketAddr → ℕ → Wakeup

-- A sender outside IPv6 leaves the last known address in place.
unfoldable pub sender_addr : SocketAddrV6 → SocketAddr → SocketAddrV6
sender_addr last (v6 a) = a
sender_addr last (v4 _ _) = last

abbrev pub stamped : SocketAddrV6 → ℕ → Option SensorReading → List NodeEvent
stamped addr now none = []
stamped addr now (some r) =
    sensor_reading (record { addr = addr; reading = record r { ts = now } }) ∷ []

-- `serde_json::from_slice::<SensorReading>` is the parameter `parse`.
module _ (parse : List ℕ → Option SensorReading) where
  unfoldable pub report : SocketAddrV6 → List ℕ → ℕ → List NodeEvent
  report addr bytes now = stamped addr now (parse (take 512 bytes))

  -- The loop over what happens to the socket; when the list ends the task still waits.
  unfoldable pub receive_loop : SocketAddrV6 → List Wakeup → List NodeEvent
  receive_loop addr [] = []
  receive_loop addr (sender_closed ∷ rest) = []
  receive_loop addr (timed_out ∷ rest) = node_timeout addr ∷ []
  receive_loop addr (recv_failed ∷ rest) = socket_failed addr ∷ []
  receive_loop addr (recv_from bytes from now ∷ rest) =
      report (sender_addr addr from) bytes now ++ receive_loop (sender_addr addr from) rest

  -- The task of a new node whose port is bound at `addr`, if it can be.
  unfoldable pub node_event_handler : Bool → SocketAddrV6 → List Wakeup → List NodeEvent
  node_event_handler binds addr wakeups =
      if binds then receive_loop addr wakeups else setup_failed ∷ []
