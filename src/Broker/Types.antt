-- ===== src/Broker/Types.antt =====
-- The types of pmind-broker: identifiers and constants of pmind-broker/src/lib.rs, events and states of
-- src/node.rs, errors of src/client/mod.rs, src/monitor.rs.
use Prim.Native.String.{String}
use plant_minder.Base.{ℕ, List, Result}
use plant_minder.Net.{Ipv6Addr, Ipv6Net, SocketAddrV6}
use plant_minder.Sensor.{SensorReading}

-- Six bytes.
abbrev pub Eui : Type 0
Eui = List ℕ

abbrev pub Rloc : Type 0
Rloc = ℕ

abbrev pub ClientId : Type 0
ClientId = ℕ

-- A Rust string is its bytes.
abbrev pub Registration : Type 0
Registration = Eui × Ipv6Addr × List ℕ

abbrev pub max_plant_name_size : ℕ
max_plant_name_size = 20

pub data ErrorState : Type 0 where
  timeout socket_error setup_error other : ErrorState

pub data NodeState : Type 0 where
  unknown online : NodeState
  offline : ErrorState → NodeState

pub record NodeSensorReading : Type 0 where
  pub addr : SocketAddrV6
  pub reading : SensorReading

pub data NodeEvent : Type 0 where
  node_timeout : SocketAddrV6 → NodeEvent
  socket_failed : SocketAddrV6 → NodeEvent
  setup_failed : NodeEvent
  sensor_reading : NodeSensorReading → NodeEvent

pub data NodeStatus : Type 0 where
  registration : Registration → NodeStatus
  termination : SocketAddrV6 → ErrorState → NodeStatus

-- The payloads of the errors of other libraries are dropped.
pub data OtClientError : Type 0 where
  io str_parse addr_parse : OtClientError
  ot_client_err : String → OtClientError

pub data OtMonitorError : Type 0 where
  io : OtMonitorError
  ot_client_error : OtClientError → OtMonitorError
  port_error : String → OtMonitorError

-- What the `dyn OtClient` answers while one message is handled.
pub record OtClient : Type 0 where
  pub get_child_ips : Result (List (Rloc × Ipv6Addr)) OtClientError
  pub get_omr_prefix : Result Ipv6Net OtClientError
  pub get_omr_ip : Result Ipv6Addr OtClientError
