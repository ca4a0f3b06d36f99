-- ===== src/Broker/Monitor.antt =====
-- `OtMonitor` of pmind-broker/src/monitor.rs: the actor that tracks the registered nodes, the free
-- ports and the border router's address. A handler returns its reply and the actor's new state.
pub mod Registry
pub mod Network
pub mod Invariant
pub mod Pool
use plant_minder.Base.{
  ℕ, ◌≡◌, List, [], ◌∷◌, Bool, true, false, not, ◌&&◌, ◌||◌, Option, none, some, if◌then◌else◌,
  ◌==◌, nat_eq, Result, ok, err, ◌>>=◌, map_err, keep,
}
use plant_minder.Net.{Ipv6Addr, Ipv6Net, segment0, loopback, is_loopback}
use plant_minder.Map.{Map, insert, remove}
use plant_minder.Broker.Types.{Eui, Rloc, OtClient, OtMonitorError, ot_client_error, OtClientError}
use plant_minder.Broker.Ports.{Ports, Order, mark_port_free_to_use, get_free_port}
use plant_minder.Broker.Ports

pub record InternalRegistration : Type 0 where
  pub rloc : Rloc
  pub ip : Ipv6Addr
  pub port : ℕ
  pub eui : Eui

-- The field `ot_client` is the argument of the operations that ask it.
pub record OtMonitor : Type 0 where
  pub nodes : Map ℕ InternalRegistration
  pub ports : Ports
  pub addr : Ipv6Addr

abbrev pub Nodes : Type 0
Nodes = Map ℕ InternalRegistration

abbrev pub unwrap_or_default : Result Ports OtMonitorError → Ports
unwrap_or_default (ok s) = s
unwrap_or_default (err _) = Ports.default

abbrev pub ip_or_loopback : Result Ipv6Addr OtClientError → Ipv6Addr
ip_or_loopback (ok a) = a
ip_or_loopback (err _) = loopback

unfoldable pub new : OtClient → OtMonitor
new c = record {
  nodes = [];
  addr = ip_or_loopback c.get_omr_ip;
  ports = unwrap_or_default (Ports.new 1213 100);
}

unfoldable pub get_omr_ip : OtClient → Result Ipv6Addr OtMonitorError
get_omr_ip c = map_err ot_client_error c.get_omr_ip

-- `||` asks for the prefix only if the address is no loopback.
unfoldable pub check_addr_update_needed : OtClient → OtMonitor → Result Bool OtMonitorError
check_addr_update_needed c m = if is_loopback m.addr then ok true else do
  net ← map_err ot_client_error c.get_omr_prefix
  ok (not (segment0 m.addr == segment0 net.addr))

unfoldable pub update_addr : OtClient → OtMonitor → Result OtMonitor OtMonitorError
unfolding get_omr_ip
update_addr c m = do a ← get_omr_ip c; ok (record m { addr = a })

-- Only the addresses in the scope of the border router's own.
unfoldable pub get_nodes : OtClient → OtMonitor → Result (List (Rloc × Ipv6Addr)) OtMonitorError
get_nodes c m = do
  ips ← map_err ot_client_error c.get_child_ips
  ok (keep (λ p. segment0 p.1 == segment0 m.addr) ips)

unfoldable pub register_node : OtMonitor → InternalRegistration → OtMonitor
register_node m node = record m { nodes = insert node.port node m.nodes }

unfoldable pub evict_node : OtMonitor → ℕ → OtMonitor
evict_node m key = record m {
  nodes = remove key m.nodes;
  ports = mark_port_free_to_use m.ports key;
}

unfoldable pub return_port : OtMonitor → ℕ → OtMonitor
return_port m port = record m { ports = mark_port_free_to_use m.ports port }

-- `list.iter().find(|(r, i)| *r == rloc && *i == ip)` finds something.
unfoldable pub is_listed : Rloc → Ipv6Addr → List (Rloc × Ipv6Addr) → Bool
is_listed r a [] = false
is_listed r a ((r', a') ∷ l) = (r' == r && a' == a) || is_listed r a l

unfoldable pub missing_nodes : List (Rloc × Ipv6Addr) → Nodes → List (ℕ × (Rloc × Ipv6Addr))
missing_nodes active [] = []
missing_nodes active ((key, node) ∷ rest) =
    let others = missing_nodes active rest in
    if is_listed node.rloc node.ip active then others else (key, (node.rloc, node.ip)) ∷ others

unfoldable pub evict_all : OtMonitor → List (ℕ × (Rloc × Ipv6Addr)) → OtMonitor
evict_all m [] = m
evict_all m ((key, _) ∷ rest) = evict_all (evict_node m key) rest

abbrev pub addresses : List (ℕ × (Rloc × Ipv6Addr)) → List (Rloc × Ipv6Addr)
addresses [] = []
addresses ((_, p) ∷ rest) = p ∷ addresses rest

abbrev pub Reply : Type 0 → Type 0
Reply A = Result A OtMonitorError × OtMonitor

abbrev pub reply_status :
    OtMonitor → Result (List (Rloc × Ipv6Addr)) OtMonitorError → Reply (List (Rloc × Ipv6Addr))
reply_status m (err e) = (err e, m)
reply_status m (ok active) =
    let missing = missing_nodes active m.nodes in (ok (addresses missing), evict_all m missing)

unfoldable pub get_node_status : OtClient → OtMonitor → Reply (List (Rloc × Ipv6Addr))
get_node_status c m = reply_status m (get_nodes c m)

unfoldable pub internal_registration : OtMonitor → InternalRegistration → Reply (Unit {0})
internal_registration m msg = (ok tt, register_node m msg)

unfoldable pub is_registered : Rloc → Ipv6Addr → Nodes → Bool
is_registered r a [] = false
is_registered r a ((_, n) ∷ rest) = (n.rloc == r && n.ip == a) || is_registered r a rest

abbrev pub reply_new :
    OtMonitor → Result (List (Rloc × Ipv6Addr)) OtMonitorError → Reply (List (Rloc × Ipv6Addr))
reply_new m (err e) = (err e, m)
reply_new m (ok active) = (ok (keep (λ p. not (is_registered p.0 p.1 m.nodes)) active), m)

unfoldable pub check_new_node : OtClient → OtMonitor → Reply (List (Rloc × Ipv6Addr))
check_new_node c m = reply_new m (get_nodes c m)

abbrev pub after_update : OtMonitor → Result OtMonitor OtMonitorError → Reply (Unit {0})
after_update m (ok m') = (ok tt, m')
after_update m (err e) = (err e, m)

abbrev pub update_if : OtClient → OtMonitor → Result Bool OtMonitorError → Reply (Unit {0})
update_if c m (err e) = (err e, m)
update_if c m (ok false) = (ok tt, m)
update_if c m (ok true) = after_update m (update_addr c m)

unfoldable pub monitor_network_status : OtClient → OtMonitor → Reply (Unit {0})
monitor_network_status c m = update_if c m (check_addr_update_needed c m)

unfoldable pub omr_ip : OtClient → OtMonitor → Reply Ipv6Addr
omr_ip c m = (get_omr_ip c, m)

unfoldable pub reserve_free_port : Order → OtMonitor → Reply ℕ
reserve_free_port o m = let (r, s) = get_free_port o m.ports in (r, record m { ports = s })

unfoldable pub return_free_port : OtMonitor → ℕ → Unit {0} × OtMonitor
return_free_port m port = (tt, return_port m port)

-- The messages that the actor serves.
pub data Message : Type 0 where
  get_node_status_msg check_new_node_msg monitor_network_status_msg omr_ip_msg : Message
  reserve_free_port_msg : Message
  internal_registration_msg : InternalRegistration → Message
  return_free_port_msg : ℕ → Message

-- The actor's state after one message.
unfoldable pub handle : Order → OtClient → OtMonitor → Message → OtMonitor
unfolding get_node_status check_new_node monitor_network_status omr_ip reserve_free_port
    internal_registration return_free_port
handle o c m get_node_status_msg = (get_node_status c m).1
handle o c m check_new_node_msg = (check_new_node c m).1
handle o c m monitor_network_status_msg = (monitor_network_status c m).1
handle o c m omr_ip_msg = (omr_ip c m).1
handle o c m reserve_free_port_msg = (reserve_free_port o m).1
handle o c m (internal_registration_msg n) = (internal_registration m n).1
handle o c m (return_free_port_msg p) = (return_free_port m p).1
