-- ===== src/Broker/Monitor/Network.antt =====
-- Which nodes count as new, and how the border router's address follows the network's prefix.
use plant_minder.Base.{
  ℕ, ◌≡◌, refl, ◌⊎◌, List, [], ◌∷◌, true, false, not, ◌&&◌, nat_eq, ok, err, arith, keep, inl, inr,
  Result-cases,
}
use plant_minder.Net.{Ipv6Addr, Ipv6Net, segment0}
use plant_minder.Map.{insert}
use plant_minder.Broker.Types.{Rloc, OtClient, OtMonitorError}
use plant_minder.Broker.Monitor.{
  OtMonitor, Nodes, InternalRegistration, get_nodes, is_listed, is_registered, check_new_node,
  internal_registration, register_node, get_omr_ip, check_addr_update_needed, update_addr,
  monitor_network_status,
}

is_listed-new :
    (r : Rloc) (a : Ipv6Addr) (nodes : Nodes) (active : List (Rloc × Ipv6Addr))
    → is_listed r a (keep (λ p. not (is_registered p.0 p.1 nodes)) active)
      ≡ (is_listed r a active && not (is_registered r a nodes))
unfolding is_listed
is_listed-new r a nodes [] = refl
is_listed-new r a nodes ((r', a') ∷ active) = ground (arith, is_listed-new r a nodes active)

-- A node is reported as new exactly if it is active and not registered. The actor's state stays.
pub check_new_node_lem :
    (c : OtClient) (m : OtMonitor)
    → ((e : OtMonitorError) × (get_nodes c m ≡ err e) × (check_new_node c m ≡ (err e, m)))
      ⊎ ((active new : List (Rloc × Ipv6Addr)) × (get_nodes c m ≡ ok active)
          × (check_new_node c m ≡ (ok new, m))
          × ((r : Rloc) (a : Ipv6Addr)
              → is_listed r a new ≡ (is_listed r a active && not (is_registered r a m.nodes))))
unfolding check_new_node
check_new_node_lem c m = elim (Result-cases (get_nodes c m)) [
  | inr (e, q) ↦ inl (e, q, rw q)
  | inl (active, q) ↦ inr (active, _, q, rw q refl, λ r a. is_listed-new r a m.nodes active)
]

is_registered-insert :
    (n : InternalRegistration) (k : ℕ) (nodes : Nodes)
    → is_registered n.rloc n.ip (insert k n nodes) ≡ true
unfolding is_registered insert
is_registered-insert n k [] = ground arith
is_registered-insert n k ((j, x) ∷ nodes) = ground (arith, is_registered-insert n k nodes)

-- Once it is registered, a node is not reported as new again, whatever the network answers.
pub registered_not_new :
    (c : OtClient) (m : OtMonitor) (n : InternalRegistration) (new : List (Rloc × Ipv6Addr))
    → (check_new_node c (internal_registration m n).1).0 ≡ ok new
    → is_listed n.rloc n.ip new ≡ false
unfolding internal_registration register_node
registered_not_new c m n new h = elim (check_new_node_lem c (register_node m n)) [
  | inl (e, q, r) ↦ ground (arith, r, h)
  | inr (active, l, q, r, f) ↦
      ground (arith, r, h, f n.rloc n.ip, is_registered-insert n n.port m.nodes)
]

-- A check for which the client knows the prefix and an own address in the prefix's scope succeeds
-- and leaves the border router's address in that scope; nothing but the address changes.
pub monitor_network_status_lem :
    (c : OtClient) (m : OtMonitor) (net : Ipv6Net) (a : Ipv6Addr)
    → c.get_omr_prefix ≡ ok net
    → c.get_omr_ip ≡ ok a
    → segment0 a ≡ segment0 net.addr
    → ((monitor_network_status c m).0 ≡ ok tt)
      × (segment0 (monitor_network_status c m).1.addr ≡ segment0 net.addr)
      × ((monitor_network_status c m).1 ≡ record m { addr = (monitor_network_status c m).1.addr })
unfolding monitor_network_status check_addr_update_needed update_addr get_omr_ip
monitor_network_status_lem c m net a p q r = ground (arith, p, q, r)
