-- ===== src/Tests.antt =====
-- Test data that the tests of several parts share; the tests are in the modules below.
pub mod MonitorTests
pub mod RouterTests
pub mod HubTests
pub mod StartupTests
pub mod CliTests
pub mod MinderTests
pub mod FirmwareTests
pub mod SoilTests
pub mod BoardTests
pub mod NodeTests
pub mod ServerTests
pub mod UiTests
pub mod DeliveryTests
pub mod StartedTests
pub mod RegistrationTests
pub mod MeasuredTests
pub mod DatabaseTests
pub mod StoredTests
use plant_minder.Base.{
  ℕ, ◌≡◌, ◌≢◌, refl, ◌*◌, ◌+◌, ◌^◌, Option, none, some, List, [], ◌∷◌, Result, ok, err, nat_eq,
  arith,
}
use plant_minder.Net.{Ipv6Addr, Ipv6Net, SocketAddrV6}
use plant_minder.Map.{lookup}
use plant_minder.Sensor.{SensorReading}
use plant_minder.Broker.Types.{OtClient, io, NodeSensorReading, Eui}
use plant_minder.Broker.Ports.{PortSet, Order}
use plant_minder.Broker.Monitor.{OtMonitor, InternalRegistration}

-- The first entry of the list.
abbrev pub first_port : PortSet → Option ℕ
first_port [] = none
first_port ((p, _) ∷ _) = some p

pub first_port-mem : (s : PortSet) (p : ℕ) → first_port s ≡ some p → lookup p s ≡ some tt
unfolding lookup
first_port-mem [] p h = cc
first_port-mem ((q, tt) ∷ s) p h = ground (arith, h)

pub first_port-total : (s : PortSet) → s ≢ [] → first_port s ≢ none
first_port-total [] h e = h refl
first_port-total (x ∷ s) h e = cc

abbrev pub order : Order
order = record { first = first_port; first_mem = first_port-mem; first_total = first_port-total }

-- An address in the scope `fd00`.
abbrev pub mesh : ℕ → Ipv6Addr
mesh n = 0xfd00 * 2 ^ 112 + n

abbrev pub client : OtClient
client = record {
  get_child_ips = ok ((7, mesh 7) ∷ (8, mesh 8) ∷ (9, 0xfe80 * 2 ^ 112) ∷ []);
  get_omr_prefix = ok (record { addr = mesh 0; prefix_len = 64 });
  get_omr_ip = ok (mesh 1);
}

abbrev pub node_at : ℕ → ℕ → InternalRegistration
node_at n port = record { rloc = n; ip = mesh n; port = port; eui = n ∷ n ∷ n ∷ n ∷ n ∷ n ∷ [] }

-- Node 7 is registered on port 1213, node 6, which is gone, on port 1214; port 1215 is free.
abbrev pub monitor : OtMonitor
monitor = record {
  nodes = (1213, node_at 7 1213) ∷ (1214, node_at 6 1214) ∷ [];
  ports = record { base = 1213; ports = (1215, tt) ∷ [] };
  addr = mesh 1;
}

abbrev pub sensor : SensorReading
sensor = record { soil = record { moisture = 800; temp = 0 }; light = none; gas = none; ts = 5 }

abbrev pub reading_from : ℕ → NodeSensorReading
reading_from n = record { addr = record { ip = mesh n; port = 1213 }; reading = sensor }

abbrev pub eui_of : ℕ → Eui
eui_of n = n ∷ n ∷ n ∷ n ∷ n ∷ n ∷ []
