-- ===== src/Broker/Monitor/Registry.antt =====
-- Which nodes are registered and which ports are free after the messages that change them.
use plant_minder.Base.{
  ℕ, ◌≡◌, refl, ◌⊎◌, List, [], ◌∷◌, Bool, false, not, ◌||◌, Option, none, some, if◌then◌else◌, ◌==◌,
  nat_eq, ok, err, arith, keep, inl, inr, map, ap, ◌∙◌, Result-cases,
}
use plant_minder.Net.{Ipv6Addr}
use plant_minder.Map.{lookup, IsMap}
use plant_minder.Map.Laws.{lookup-remove}
use plant_minder.Broker.Types.{Rloc, OtClient, OtMonitorError}
use plant_minder.Broker.Ports.{is_free}
use plant_minder.Broker.Ports.Laws.{mark_port_free_to_use_lem}
use plant_minder.Broker.Monitor.{
  OtMonitor, Nodes, InternalRegistration, get_nodes, evict_node, is_listed, missing_nodes,
  evict_all, get_node_status, addresses,
}

-- The node at a port, if it is among the active ones.
abbrev pub if_active :
    List (Rloc × Ipv6Addr) → Option InternalRegistration → Option InternalRegistration
if_active active none = none
if_active active (some n) = if is_listed n.rloc n.ip active then some n else none

-- Registered, and not among the active nodes.
abbrev pub is_lost : List (Rloc × Ipv6Addr) → Option InternalRegistration → Bool
is_lost active none = false
is_lost active (some n) = not (is_listed n.rloc n.ip active)

-- The key is on the list.
abbrev named : ℕ → List (ℕ × (Rloc × Ipv6Addr)) → Bool
named k [] = false
named k ((j, _) ∷ l) = j == k || named k l

lookup-evict_all :
    (k : ℕ) (l : List (ℕ × (Rloc × Ipv6Addr))) (m : OtMonitor)
    → lookup k (evict_all m l).nodes ≡ (if named k l then none else lookup k m.nodes)
unfolding evict_all evict_node
lookup-evict_all k [] m = refl
lookup-evict_all k ((j, a) ∷ l) m =
    ground (arith, lookup-evict_all k l (evict_node m j), lookup-remove j k m.nodes)

is_free-evict_all :
    (k : ℕ) (l : List (ℕ × (Rloc × Ipv6Addr))) (m : OtMonitor)
    → is_free (evict_all m l).ports k ≡ (named k l || is_free m.ports k)
unfolding evict_all evict_node
is_free-evict_all k [] m = refl
is_free-evict_all k ((j, a) ∷ l) m =
    ground (arith, is_free-evict_all k l (evict_node m j), mark_port_free_to_use_lem m.ports j k)

named-missing_nodes :
    (k : ℕ) (active : List (Rloc × Ipv6Addr)) (nodes : Nodes)
    → IsMap nodes
    → named k (missing_nodes active nodes) ≡ is_lost active (lookup k nodes)
unfolding missing_nodes lookup
named-missing_nodes k active [] h = refl
named-missing_nodes k active ((j, n) ∷ nodes) h =
    ground (arith, named-missing_nodes k active nodes h.1)

addr-evict_all : (l : List (ℕ × (Rloc × Ipv6Addr))) (m : OtMonitor) → (evict_all m l).addr ≡ m.addr
unfolding evict_all evict_node
addr-evict_all [] m = refl
addr-evict_all ((j, a) ∷ l) m = addr-evict_all l (evict_node m j)

-- The registered nodes that are not active, in the order of the map.
abbrev pub lost_nodes : List (Rloc × Ipv6Addr) → Nodes → List (Rloc × Ipv6Addr)
lost_nodes active nodes =
    map (λ (p : ℕ × InternalRegistration). (p.1.rloc, p.1.ip))
      (keep (λ (p : ℕ × InternalRegistration). is_lost active (some p.1)) nodes)

addresses-missing_nodes :
    (active : List (Rloc × Ipv6Addr)) (nodes : Nodes)
    → addresses (missing_nodes active nodes) ≡ lost_nodes active nodes
unfolding missing_nodes
addresses-missing_nodes active [] = refl
addresses-missing_nodes active ((j, n) ∷ nodes) =
    ground (arith, addresses-missing_nodes active nodes)

-- What the sweep for lost nodes has done to the registry.
pub record Swept (active : List (Rloc × Ipv6Addr)) (m m' : OtMonitor) : Type 0 where
  pub nodes : (k : ℕ) → lookup k m'.nodes ≡ if_active active (lookup k m.nodes)
  pub ports :
      (k : ℕ) → is_free m'.ports k ≡ (is_lost active (lookup k m.nodes) || is_free m.ports k)
  pub addr : m'.addr ≡ m.addr

swept :
    (active : List (Rloc × Ipv6Addr)) (m : OtMonitor)
    → IsMap m.nodes
    → Swept active m (evict_all m (missing_nodes active m.nodes))
swept active m h = record {
  nodes = λ k. ground (
    arith,
    lookup-evict_all k (missing_nodes active m.nodes) m,
    named-missing_nodes k active m.nodes h,
  );
  ports = λ k.
      is_free-evict_all k (missing_nodes active m.nodes) m
      ∙ ap (λ b. b || is_free m.ports k) (named-missing_nodes k active m.nodes h);
  addr = addr-evict_all (missing_nodes active m.nodes) m;
}

-- In a table that repeats no key: if the active nodes are known, exactly the registered nodes that
-- are not among them are reported and evicted, their ports are free again, and all else stays. If
-- not, nothing changes.
pub get_node_status_lem :
    (c : OtClient) (m : OtMonitor)
    → IsMap m.nodes
    → ((e : OtMonitorError) × (get_nodes c m ≡ err e) × (get_node_status c m ≡ (err e, m)))
      ⊎ ((active : List (Rloc × Ipv6Addr)) × (get_nodes c m ≡ ok active)
          × ((get_node_status c m).0 ≡ ok (lost_nodes active m.nodes))
          × Swept active m (get_node_status c m).1)
unfolding get_node_status
get_node_status_lem c m h = elim (Result-cases (get_nodes c m)) [
  | inr (e, q) ↦ inl (e, q, rw q)
  | inl (active, q) ↦
      inr
        (active, q, rw q (ap ok (addresses-missing_nodes active m.nodes)), rw q (swept active m h))
]
