-- ===== src/Broker/Router/Accounting.antt =====
-- Where the ports of the pool are, free or at a registered node, across a round.
use plant_minder.Base.{
  ℕ, ◌+◌, ◌<◌, ◌≡◌, inl, inr, ap, Bool, true, false, not, ◌&&◌, ok, arith, ◌==◌, nat_eq, length,
}
use plant_minder.Map.Laws.{lookup-insert, length-remove}
use plant_minder.Broker.Types.{OtClient}
use plant_minder.Broker.Ports.{Order, is_free}
use plant_minder.Broker.Ports.Laws.{get_free_port_lem, mark_port_free_to_use_lem}
use plant_minder.Broker.Monitor.{
  OtMonitor, InternalRegistration, get_node_status, monitor_network_status, reserve_free_port,
  register_node, return_port,
}
use plant_minder.Broker.Monitor.Registry.{get_node_status_lem}
use plant_minder.Broker.Monitor.Invariant.{
  IsConsistent, register_node-IsConsistent, return_port-IsConsistent,
  reserve_free_port-IsConsistent, get_node_status-IsConsistent, monitor_network_status-IsConsistent,
  monitor_network_status-tables,
}
pub use plant_minder.Broker.Monitor.Pool.{holds_node}

-- The ports of the pool are accounted for: each is free or holds a node, and not both.
pub record Accounts (pool : ℕ → Bool) (m : OtMonitor) : Type 0 where
  pub consistent : IsConsistent m
  pub split : (p : ℕ) → is_free m.ports p ≡ (pool p && not (holds_node m p))
  pub inside : (p : ℕ) → holds_node m p ≡ true → pool p ≡ true

-- The same while `taken` is reserved: it is neither free nor does it hold a node.
pub record AccountsBut (pool : ℕ → Bool) (taken : ℕ) (m : OtMonitor) : Type 0 where
  pub consistent : IsConsistent m
  pub split : (p : ℕ) → is_free m.ports p ≡ (pool p && not (holds_node m p) && not (taken == p))
  pub inside : (p : ℕ) → holds_node m p ≡ true → pool p ≡ true
  pub in_pool : pool taken ≡ true
  pub vacant : holds_node m taken ≡ false

module _ (pool : ℕ → Bool) where
  pub reserve-AccountsBut :
      (o : Order) (m : OtMonitor)
      → 0 < length m.ports.ports
      → Accounts pool m
      → (p : ℕ) × ((reserve_free_port o m).0 ≡ ok p)
        × AccountsBut pool p (reserve_free_port o m).1
        × (length m.ports.ports ≡ length (reserve_free_port o m).1.ports.ports + 1)
  unfolding reserve_free_port
  reserve-AccountsBut o m room h = elim (get_free_port_lem o m.ports) [
    | inl (e, r) ↦ absurd (omega (arith, ap length e))
    | inr (p, free, r, others) ↦ (
      p,
      ground (arith, r),
      record {
        consistent = reserve_free_port-IsConsistent o m h.consistent;
        split = λ q. ground (arith, h.split q, others q);
        inside = h.inside;
        in_pool = ground (arith, h.split p, free);
        vacant = ground (arith, h.split p, free);
      },
      ground (arith, r, free, length-remove p m.ports.ports h.consistent.ports_map),
    )
  ]

  pub register-Accounts :
      (m : OtMonitor) (n : InternalRegistration)
      → AccountsBut pool n.port m
      → Accounts pool (register_node m n)
  unfolding register_node
  register-Accounts m n h = record {
    consistent = register_node-IsConsistent m n h.consistent;
    split = λ p. ground (arith, h.split p, h.in_pool, h.vacant, lookup-insert n.port p n m.nodes);
    inside = λ p q. ground (arith, h.inside p, h.in_pool, lookup-insert n.port p n m.nodes);
  }

  pub return-Accounts :
      (m : OtMonitor) (p : ℕ) → AccountsBut pool p m → Accounts pool (return_port m p)
  unfolding return_port
  return-Accounts m p h = record {
    consistent = return_port-IsConsistent m p h.consistent;
    split =
        λ q. ground (arith, h.split q, h.in_pool, h.vacant, mark_port_free_to_use_lem m.ports p q);
    inside = h.inside;
  }

  pub sweep-Accounts :
      (c : OtClient) (m : OtMonitor) → Accounts pool m → Accounts pool (get_node_status c m).1
  sweep-Accounts c m h = elim (get_node_status_lem c m h.consistent.nodes_map) [
    | inl (e, q, r) ↦ rw r h
    | inr (active, q, r, s) ↦ record {
      consistent = get_node_status-IsConsistent c m h.consistent;
      split = λ p. ground (arith, h.split p, h.inside p, s.nodes p, s.ports p);
      inside = λ p. ground (arith, h.inside p, s.nodes p);
    }
  ]

  pub network-Accounts :
      (c : OtClient) (m : OtMonitor)
      → Accounts pool m
      → Accounts pool (monitor_network_status c m).1
  network-Accounts c m h =
      let (n, p) = monitor_network_status-tables c m in
      record {
        consistent = monitor_network_status-IsConsistent c m h.consistent;
        split = λ q. rw (n, p) (h.split q);
        inside = λ q. rw n (h.inside q);
      }
