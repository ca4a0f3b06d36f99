-- ===== src/Broker/Monitor/Pool.antt =====
-- Who has the ports of the actor of pmind-broker/src/monitor.rs: the pool, a node, or one who asked for
-- a port and has neither registered a node on it nor given it back.
use plant_minder.Base.{
  ℕ, ◌≡◌, ◌⊎◌, inl, inr, List, [], ◌∷◌, Bool, true, false, not, ◌&&◌, ◌||◌, ok, err, Result, arith,
  leb, ltb, ◌==◌, nat_eq, nat_beq_iff,
}
use plant_minder.Map.{contains_key, lookup}
use plant_minder.Map.Laws.{lookup-insert}
use plant_minder.Broker.Types.{OtClient, OtMonitorError, port_error}
use plant_minder.Broker.Ports.{Order, is_free}
use plant_minder.Broker.Ports
use plant_minder.Broker.Ports.Laws.{get_free_port_lem, mark_port_free_to_use_lem}
use plant_minder.Broker.Monitor.{
  OtMonitor, InternalRegistration, Message, new, handle, get_node_status, register_node,
  return_port, reserve_free_port, get_node_status_msg, check_new_node_msg,
  monitor_network_status_msg, omr_ip_msg, reserve_free_port_msg, internal_registration_msg,
  return_free_port_msg, omr_ip, internal_registration, return_free_port,
}
use plant_minder.Broker.Monitor.Registry.{get_node_status_lem}
use plant_minder.Broker.Monitor.Invariant.{
  IsConsistent, new-IsConsistent, serve, register_node-IsConsistent, return_port-IsConsistent,
  get_node_status-IsConsistent, monitor_network_status-IsConsistent, reserve_free_port-IsConsistent,
  check_new_node-state, monitor_network_status-tables,
}

-- The ports that `OtMonitor::new` asks for.
abbrev pub in_pool : ℕ → Bool
in_pool p = leb 1213 p && ltb p 1313

abbrev pub holds_node : OtMonitor → ℕ → Bool
holds_node m p = contains_key p m.nodes

-- The ports that are reserved, after a message.
abbrev pub with_reply : Result ℕ OtMonitorError → (ℕ → Bool) → ℕ → Bool
with_reply (ok p) taken q = (p == q) || taken q
with_reply (err e) taken q = taken q

abbrev pub taken_after : Order → OtMonitor → Message → (ℕ → Bool) → ℕ → Bool
taken_after o m reserve_free_port_msg taken = with_reply (reserve_free_port o m).0 taken
taken_after o m (internal_registration_msg n) taken = λ q. not (n.port == q) && taken q
taken_after o m (return_free_port_msg p) taken = λ q. not (p == q) && taken q
taken_after o m get_node_status_msg taken = taken
taken_after o m check_new_node_msg taken = taken
taken_after o m monitor_network_status_msg taken = taken
taken_after o m omr_ip_msg taken = taken

-- A port is registered or given back only by one who has reserved it.
abbrev pub IsFair : (ℕ → Bool) → Message → Type 0
IsFair taken (internal_registration_msg n) = taken n.port ≡ true
IsFair taken (return_free_port_msg p) = taken p ≡ true
IsFair taken reserve_free_port_msg = Unit {0}
IsFair taken get_node_status_msg = Unit {0}
IsFair taken check_new_node_msg = Unit {0}
IsFair taken monitor_network_status_msg = Unit {0}
IsFair taken omr_ip_msg = Unit {0}

-- The same of messages that are served one after the other.
abbrev pub AllFair : Order → OtMonitor → (ℕ → Bool) → List (OtClient × Message) → Type 0
AllFair o m taken [] = Unit {0}
AllFair o m taken ((c, msg) ∷ rest) =
    IsFair taken msg × AllFair o (handle o c m msg) (taken_after o m msg taken) rest

abbrev pub taken_by : Order → OtMonitor → (ℕ → Bool) → List (OtClient × Message) → ℕ → Bool
taken_by o m taken [] = taken
taken_by o m taken ((c, msg) ∷ rest) =
    taken_by o (handle o c m msg) (taken_after o m msg taken) rest

-- A port of the pool is free, holds a node, or is reserved, and only one of these; no other port is.
abbrev pub Splits : OtMonitor → (ℕ → Bool) → Type 0
Splits m taken =
    ((p : ℕ) → is_free m.ports p ≡ (in_pool p && not (holds_node m p) && not (taken p)))
    × ((p : ℕ) → holds_node m p ≡ true → (in_pool p ≡ true) × (taken p ≡ false))
    × ((p : ℕ) → taken p ≡ true → in_pool p ≡ true)

pub record Divides (m : OtMonitor) (taken : ℕ → Bool) : Type 0 where
  pub consistent : IsConsistent m
  pub splits : Splits m taken

-- What the next request for a port gets.
abbrev pub Grants : Order → OtMonitor → (ℕ → Bool) → Type 0
Grants o m taken =
    ((p : ℕ) × ((reserve_free_port o m).0 ≡ ok p)
      × (in_pool p ≡ true)
      × (holds_node m p ≡ false)
      × (taken p ≡ false))
    ⊎ (((reserve_free_port o m).0 ≡ err (port_error "No free ports available"))
        × ((p : ℕ) → in_pool p ≡ true → (holds_node m p || taken p) ≡ true))

module _ (o : Order) (m : OtMonitor) (taken : ℕ → Bool) (h : Divides m taken) where
  reserve-split : Splits (reserve_free_port o m).1 (with_reply (reserve_free_port o m).0 taken)
  unfolding reserve_free_port
  reserve-split = elim (get_free_port_lem o m.ports) [
    | inl (e, r) ↦ rw r h.splits
    | inr (p, free, r, others) ↦ rw r (
      λ q. ground (arith, h.splits.0 q, others q, r),
      λ q held. ground (arith, h.splits.1 q, h.splits.0 p, free, nat_beq_iff p q),
      λ q t. ground (arith, h.splits.2 q, h.splits.0 p, free, nat_beq_iff p q),
    )
  ]

  register-split :
      (n : InternalRegistration)
      → taken n.port ≡ true
      → Splits (register_node m n) (λ q. not (n.port == q) && taken q)
  unfolding register_node
  register-split n own = (
    λ p. ground (
      arith,
      h.splits.0 p,
      h.splits.1 p,
      h.splits.2 p,
      lookup-insert n.port p n m.nodes,
      nat_beq_iff n.port p,
    ),
    λ p held.
        ground (
          arith,
          h.splits.1 p,
          h.splits.2 p,
          lookup-insert n.port p n m.nodes,
          nat_beq_iff n.port p,
        ),
    λ p t. ground (arith, h.splits.2 p),
  )

  return-split : (r : ℕ) → taken r ≡ true → Splits (return_port m r) (λ q. not (r == q) && taken q)
  unfolding return_port
  return-split r own = (
    λ p. ground (
      arith,
      h.splits.0 p,
      h.splits.1 p,
      h.splits.2 p,
      mark_port_free_to_use_lem m.ports r p,
      nat_beq_iff r p,
    ),
    λ p held. ground (arith, h.splits.1 p),
    λ p t. ground (arith, h.splits.2 p),
  )

  sweep-Divides : (c : OtClient) → Divides (get_node_status c m).1 taken
  sweep-Divides c = elim (get_node_status_lem c m h.consistent.nodes_map) [
    | inl (e, q, r) ↦ rw r h
    | inr (active, q, r, s) ↦ record {
      consistent = get_node_status-IsConsistent c m h.consistent;
      splits = (
        λ p. ground (arith, h.splits.0 p, h.splits.1 p, s.nodes p, s.ports p),
        λ p held. ground (arith, h.splits.1 p, s.nodes p),
        h.splits.2,
      );
    }
  ]

  handle-Divides :
      (c : OtClient) (msg : Message)
      → IsFair taken msg
      → Divides (handle o c m msg) (taken_after o m msg taken)
  unfolding handle omr_ip internal_registration return_free_port
  handle-Divides c get_node_status_msg f = sweep-Divides c
  handle-Divides c check_new_node_msg f = rw (check_new_node-state c m) h
  handle-Divides c monitor_network_status_msg f =
      let (n, p) = monitor_network_status-tables c m in
      record {
        consistent = monitor_network_status-IsConsistent c m h.consistent;
        splits = (λ q. rw (n, p) (h.splits.0 q), λ q. rw n (h.splits.1 q), h.splits.2);
      }
  handle-Divides c omr_ip_msg f = h
  handle-Divides c reserve_free_port_msg f = record {
    consistent = reserve_free_port-IsConsistent o m h.consistent;
    splits = reserve-split;
  }
  handle-Divides c (internal_registration_msg n) f = record {
    consistent = register_node-IsConsistent m n h.consistent;
    splits = register-split n f;
  }
  handle-Divides c (return_free_port_msg p) f = record {
    consistent = return_port-IsConsistent m p h.consistent;
    splits = return-split p f;
  }

  reserve-Grants : Grants o m taken
  unfolding reserve_free_port lookup
  reserve-Grants = elim (get_free_port_lem o m.ports) [
    | inl (e, r) ↦ inr (ground (arith, r), λ p inside. ground (arith, h.splits.0 p, e))
    | inr (p, free, r, others) ↦ inl (
      p,
      ground (arith, r),
      ground (arith, h.splits.0 p, free),
      ground (arith, h.splits.0 p, free),
      ground (arith, h.splits.0 p, free),
    )
  ]

new-Divides : (c : OtClient) → Divides (new c) (λ p. false)
unfolding new lookup
new-Divides c = elim (Ports.Laws.new_lem 1213 100) [
  | inl (big, e) ↦ absurd (omega arith)
  | inr (s, fits, e, base, distinct, members) ↦ record {
    consistent = new-IsConsistent c;
    splits =
        (λ p. rw e (ground (arith, members p)), λ p held. absurd (cc held), λ p t. absurd (cc t));
  }
]

serve-Divides_from :
    (o : Order) (m : OtMonitor) (taken : ℕ → Bool) (msgs : List (OtClient × Message))
    → Divides m taken
    → AllFair o m taken msgs
    → Divides (serve o m msgs) (taken_by o m taken msgs)
unfolding serve
serve-Divides_from o m taken [] h f = h
serve-Divides_from o m taken ((c, msg) ∷ rest) h f =
    serve-Divides_from o (handle o c m msg) (taken_after o m msg taken) rest
      (handle-Divides o m taken h c msg f.0) f.1

-- From its start on, after any messages, if a port is registered or given back only by one who has
-- reserved it and not yet done so: each of the hundred ports of the pool is free, holds a node or is
-- reserved, and only one of these, no other port is any of them, the tables repeat no key and each node
-- stands under its own port. A further request is then granted a port of the pool that neither holds a
-- node nor is reserved, or it fails and every port of the pool does or is.
pub serve-Divides :
    (o : Order) (c : OtClient) (msgs : List (OtClient × Message))
    → AllFair o (new c) (λ p. false) msgs
    → let m = serve o (new c) msgs in
      let taken = taken_by o (new c) (λ p. false) msgs in Divides m taken × Grants o m taken
serve-Divides o c msgs f =
    let h = serve-Divides_from o (new c) (λ p. false) msgs (new-Divides c) f in
    (h, reserve-Grants o _ _ h)
