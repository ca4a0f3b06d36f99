-- ===== src/Broker/Monitor/Invariant.antt =====
-- What holds of the actor's state after any sequence of messages.
use plant_minder.Base.{ℕ, ◌≡◌, refl, List, [], ◌∷◌, arith, All, Result-cases, inl, inr, nat_eq}
use plant_minder.Net.{Ipv6Addr}
use plant_minder.Map.{IsMap}
use plant_minder.Map.Laws.{insert-IsMap, remove-IsMap, All-insert, All-remove}
use plant_minder.Broker.Types.{Rloc, OtClient}
use plant_minder.Broker.Ports.{Ports, Order, mark_port_free_to_use, get_free_port}
use plant_minder.Broker.Ports
use plant_minder.Broker.Ports.Laws.{get_free_port_lem}
use plant_minder.Broker.Monitor.{
  OtMonitor, InternalRegistration, Message, new, handle, get_nodes, evict_node, evict_all,
  get_node_status, check_new_node, monitor_network_status, update_addr, register_node, return_port,
  reserve_free_port, missing_nodes, get_node_status_msg, check_new_node_msg,
  monitor_network_status_msg, omr_ip_msg, reserve_free_port_msg, internal_registration_msg,
  return_free_port_msg,
}

abbrev pub OwnPort : ℕ × InternalRegistration → Type 0
OwnPort (k, n) = n.port ≡ k

-- The two hash tables repeat no key, and each node is stored under its own port.
pub record IsConsistent (m : OtMonitor) : Type 0 where
  pub nodes_map : IsMap m.nodes
  pub ports_map : IsMap m.ports.ports
  pub own_port : All OwnPort m.nodes

evict_node-IsConsistent : (m : OtMonitor) (k : ℕ) → IsConsistent m → IsConsistent (evict_node m k)
unfolding evict_node mark_port_free_to_use
evict_node-IsConsistent m k h = record {
  nodes_map = remove-IsMap k m.nodes h.nodes_map;
  ports_map = insert-IsMap k tt m.ports.ports h.ports_map;
  own_port = All-remove OwnPort k m.nodes h.own_port;
}

evict_all-IsConsistent :
    (m : OtMonitor) (l : List (ℕ × (Rloc × Ipv6Addr)))
    → IsConsistent m
    → IsConsistent (evict_all m l)
unfolding evict_all
evict_all-IsConsistent m [] h = h
evict_all-IsConsistent m ((k, a) ∷ l) h =
    evict_all-IsConsistent (evict_node m k) l (evict_node-IsConsistent m k h)

pub register_node-IsConsistent :
    (m : OtMonitor) (n : InternalRegistration) → IsConsistent m → IsConsistent (register_node m n)
unfolding register_node
register_node-IsConsistent m n h = record {
  nodes_map = insert-IsMap n.port n m.nodes h.nodes_map;
  ports_map = h.ports_map;
  own_port = All-insert OwnPort n.port n m.nodes refl h.own_port;
}

pub return_port-IsConsistent :
    (m : OtMonitor) (p : ℕ) → IsConsistent m → IsConsistent (return_port m p)
unfolding return_port mark_port_free_to_use
return_port-IsConsistent m p h = record {
  nodes_map = h.nodes_map;
  ports_map = insert-IsMap p tt m.ports.ports h.ports_map;
  own_port = h.own_port;
}

pub get_node_status-IsConsistent :
    (c : OtClient) (m : OtMonitor) → IsConsistent m → IsConsistent (get_node_status c m).1
unfolding get_node_status
get_node_status-IsConsistent c m h = elim (Result-cases (get_nodes c m)) [
  | inl (active, q) ↦
      rw (q, get_node_status) (evict_all-IsConsistent m (missing_nodes active m.nodes) h)
  | inr (e, q) ↦ rw (q, get_node_status) h
]

-- Looking for new nodes changes nothing.
pub check_new_node-state : (c : OtClient) (m : OtMonitor) → (check_new_node c m).1 ≡ m
unfolding check_new_node
check_new_node-state c m = ground arith

-- The network check touches the address only.
pub monitor_network_status-tables :
    (c : OtClient) (m : OtMonitor)
    → ((monitor_network_status c m).1.nodes ≡ m.nodes)
      × ((monitor_network_status c m).1.ports ≡ m.ports)
unfolding monitor_network_status update_addr
monitor_network_status-tables c m = ground arith

pub monitor_network_status-IsConsistent :
    (c : OtClient) (m : OtMonitor) → IsConsistent m → IsConsistent (monitor_network_status c m).1
monitor_network_status-IsConsistent c m h =
    let (n, p) = monitor_network_status-tables c m in
    record {
      nodes_map = rw n h.nodes_map;
      ports_map = rw p h.ports_map;
      own_port = rw n h.own_port;
    }

get_free_port-IsMap : (o : Order) (s : Ports) → IsMap s.ports → IsMap (get_free_port o s).1.ports
get_free_port-IsMap o s h = elim (get_free_port_lem o s) [
  | inl (e, r) ↦ rw r h
  | inr (p, f, r, g) ↦ rw r (remove-IsMap p s.ports h)
]

pub reserve_free_port-IsConsistent :
    (o : Order) (m : OtMonitor) → IsConsistent m → IsConsistent (reserve_free_port o m).1
unfolding reserve_free_port
reserve_free_port-IsConsistent o m h = record {
  nodes_map = h.nodes_map;
  ports_map = get_free_port-IsMap o m.ports h.ports_map;
  own_port = h.own_port;
}

-- Every message keeps the state consistent, whatever the network answers.
pub handle-IsConsistent :
    (o : Order) (c : OtClient) (m : OtMonitor) (msg : Message)
    → IsConsistent m
    → IsConsistent (handle o c m msg)
unfolding handle
handle-IsConsistent o c m get_node_status_msg h = get_node_status-IsConsistent c m h
handle-IsConsistent o c m check_new_node_msg h = rw (check_new_node-state c m) h
handle-IsConsistent o c m monitor_network_status_msg h = monitor_network_status-IsConsistent c m h
handle-IsConsistent o c m omr_ip_msg h = h
handle-IsConsistent o c m reserve_free_port_msg h = reserve_free_port-IsConsistent o m h
handle-IsConsistent o c m (internal_registration_msg n) h = register_node-IsConsistent m n h
handle-IsConsistent o c m (return_free_port_msg p) h = return_port-IsConsistent m p h

pub new-IsConsistent : (c : OtClient) → IsConsistent (new c)
unfolding new
new-IsConsistent c = elim (Ports.Laws.new_lem 1213 100) [
  | inl (big, e) ↦ absurd (omega arith)
  | inr (s, fits, e, base, distinct, members) ↦ record {
    nodes_map = tt;
    ports_map = rw e distinct;
    own_port = tt;
  }
]

-- The messages are served one after the other, each with the answers that the network then gives.
unfoldable pub serve : Order → OtMonitor → List (OtClient × Message) → OtMonitor
serve o m [] = m
serve o m ((c, msg) ∷ rest) = serve o (handle o c m msg) rest
