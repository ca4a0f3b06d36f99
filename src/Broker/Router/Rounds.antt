-- ===== src/Broker/Router/Rounds.antt =====
-- One round of the polling task of pmind-broker/src/router.rs, with and without free ports.
use plant_minder.Base.{
  ℕ, suc, ◌+◌, ◌≤◌, ◌≡◌, refl, inl, inr, List, [], ◌∷◌, Bool, true, Option, none, some, ok, err,
  Result, arith, length, Result-cases, nat_eq,
}
use plant_minder.Net.{Ipv6Addr, SocketAddrV6}
use plant_minder.Map.Laws.{length-insert}
use plant_minder.Broker.Types.{Eui, Rloc, OtClient, OtMonitorError}
use plant_minder.Broker.Ports.{Order, is_free, mark_port_free_to_use}
use plant_minder.Broker.Ports.Laws.{get_free_port-empty, mark_port_free_to_use_lem}
use plant_minder.Broker.Monitor.{
  OtMonitor, check_new_node, monitor_network_status, omr_ip, reserve_free_port,
  internal_registration, register_node, return_free_port, return_port,
}
use plant_minder.Broker.Monitor.Invariant.{check_new_node-state, monitor_network_status-tables}
use plant_minder.Broker.Router.{
  Output, Progress, goes_on, task_panics, task_waits, fallback_port, conclude, register_one,
  and_then, then_on, register_all, Answers, finish, Round, polled, exits, register_new, poll,
}
use plant_minder.Broker.Router.Coap.{EventRouterError, Exchange, settled, coap_observer_register}
use plant_minder.Broker.Router.Accounting.{
  holds_node, Accounts, AccountsBut, reserve-AccountsBut, register-Accounts, return-Accounts,
  sweep-Accounts, network-Accounts,
}

-- The exchange comes to an end, whoever it is with: no crash and no endless wait.
abbrev pub Settles : Exchange → Type 0
Settles x =
    (omr ip : Ipv6Addr) (port : ℕ)
    → (r : Result (Option (SocketAddrV6 × Eui × List ℕ)) EventRouterError) × (coap_observer_register
          omr ip port x
        ≡ settled r)

-- The task goes on, in a state with `P`.
abbrev pub GoesOn : {A : Type 0} → (OtMonitor → Type 0) → Progress A → Type 0
GoesOn P (goes_on m _) = P m
GoesOn P (task_panics _ _) = ⊥
GoesOn P (task_waits _ _) = ⊥

-- At least `n` ports are free.
abbrev pub HasRoom : ℕ → OtMonitor → Type 0
HasRoom n m = n ≤ length m.ports.ports

-- Accounted for, with room for `n` nodes.
abbrev pub Ready : (ℕ → Bool) → ℕ → OtMonitor → Type 0
Ready pool n m = Accounts pool m × HasRoom n m

module _ (pool : ℕ → Bool) where
  conclude-Ready :
      (m : OtMonitor) (rloc : Rloc) (ip : Ipv6Addr) (port n : ℕ)
      (r : Result (Option (SocketAddrV6 × Eui × List ℕ)) EventRouterError)
      → AccountsBut pool port m
      → HasRoom n m
      → GoesOn (Ready pool n) (conclude m rloc ip port (settled r))
  unfolding conclude internal_registration register_node return_free_port return_port
      mark_port_free_to_use
  conclude-Ready m rloc ip port n (ok (some (addr, eui, name))) h room =
      (register-Accounts pool m _ h, room)
  conclude-Ready m rloc ip port n (ok none) h room =
      (return-Accounts pool m port h, omega (arith, length-insert port tt m.ports.ports))
  conclude-Ready m rloc ip port n (err e) h room =
      (return-Accounts pool m port h, omega (arith, length-insert port tt m.ports.ports))

  register_one-Ready :
      (o : Order) (m : OtMonitor) (omr : Ipv6Addr) (i n : ℕ) (node : Rloc × Ipv6Addr) (x : Exchange)
      → Settles x
      → Ready pool (suc n) m
      → GoesOn (Ready pool n) (register_one o m omr i node x)
  unfolding register_one
  register_one-Ready o m omr i n (rloc, ip) x s (h, room) =
      let (p, e, taken, count) = reserve-AccountsBut pool o m (omega arith) h in
      let (r, q) = s omr ip p in
      rw (e, q) (conclude-Ready (reserve_free_port o m).1 rloc ip p n r taken (omega arith))

  and_then-GoesOn :
      (P : OtMonitor → Type 0) (out : List Output) (r : Progress (List Output))
      → GoesOn P r
      → GoesOn P (and_then out r)
  unfolding and_then
  and_then-GoesOn P out (goes_on m more) h = h
  and_then-GoesOn P out (task_panics m more) h = h
  and_then-GoesOn P out (task_waits m more) h = h

  pub then_on-GoesOn :
      (P Q : OtMonitor → Type 0) (r : Progress (List Output))
      (f : OtMonitor → Progress (List Output))
      → GoesOn P r
      → ((m : OtMonitor) → P m → GoesOn Q (f m))
      → GoesOn Q (then_on r f)
  unfolding then_on
  then_on-GoesOn P Q (goes_on m out) f h next = and_then-GoesOn Q out (f m) (next m h)
  then_on-GoesOn P Q (task_panics m out) f h next = h
  then_on-GoesOn P Q (task_waits m out) f h next = h

  finish-Accounts :
      (c : OtClient) (r : Progress (List Output))
      → GoesOn (Accounts pool) r
      → GoesOn (Accounts pool) (finish c r)
  unfolding finish
  finish-Accounts c (goes_on m out) h = sweep-Accounts pool c m h
  finish-Accounts c (task_panics m out) h = h
  finish-Accounts c (task_waits m out) h = h

  register_all-Accounts :
      (o : Order) (omr : Ipv6Addr) (xs : ℕ → Exchange) (settles : (j : ℕ) → Settles (xs j))
      (nodes : List (Rloc × Ipv6Addr)) (m : OtMonitor) (i : ℕ)
      → Ready pool (length nodes) m
      → GoesOn (Accounts pool) (register_all o m omr xs i nodes)
  unfolding register_all
  register_all-Accounts o omr xs settles [] m i h = h.0
  register_all-Accounts o omr xs settles (node ∷ nodes) m i h =
      then_on-GoesOn (Ready pool (length nodes)) (Accounts pool) _ _
        (register_one-Ready o m omr i (length nodes) node (xs i) (settles i) h)
        (λ m' h'. register_all-Accounts o omr xs settles nodes m' (i + 1) h')

-- A round that neither crashes nor hangs, and its state accounts for the ports of `pool`.
abbrev pub Steady : (ℕ → Bool) → Round → Type 0
Steady pool (polled r) = GoesOn (Accounts pool) r
Steady pool (exits m) = Accounts pool m

module _ (pool : ℕ → Bool) (o : Order) (a : Answers) where
  register_new-Steady :
      (m : OtMonitor) (r : Result (List (Rloc × Ipv6Addr)) OtMonitorError)
      → ((j : ℕ) → Settles (a.exchanges j))
      → ((nodes : List (Rloc × Ipv6Addr)) → r ≡ ok nodes → HasRoom (length nodes) m)
      → Accounts pool m
      → Steady pool (register_new o a m r)
  unfolding register_new
  register_new-Steady m (err e) settles room h = h
  register_new-Steady m (ok nodes) settles room h = elim (Result-cases (omr_ip a.omr_address m).0) [
    | inl (omr, q) ↦
        rw (q, register_new)
          (finish-Accounts pool a.node_status _
            (register_all-Accounts pool o omr a.exchanges settles nodes m 0 (h, room nodes refl)))
    | inr (e, q) ↦ rw (q, register_new) (finish-Accounts pool a.node_status _ h)
  ]

-- The ports of the pool stay accounted for across a round, which comes to an end, if they are
-- accounted for before it, every exchange with a node settles and there are at least as many free
-- ports as new nodes.
pub poll-Steady :
    (pool : ℕ → Bool) (o : Order) (a : Answers) (m : OtMonitor)
    → ((j : ℕ) → Settles (a.exchanges j))
    → ((nodes : List (Rloc × Ipv6Addr))
        → (check_new_node a.new_nodes (monitor_network_status a.network_status m).1).0 ≡ ok nodes
        → HasRoom (length nodes) m)
    → Accounts pool m
    → Steady pool (poll o a m)
unfolding poll
poll-Steady pool o a m settles room h =
    let m1 = (monitor_network_status a.network_status m).1 in
    let same = check_new_node-state a.new_nodes m1 in
    register_new-Steady pool o a (check_new_node a.new_nodes m1).1 (check_new_node a.new_nodes m1).0
      settles
      (λ nodes e. rw (same, (monitor_network_status-tables a.network_status m).1) (room nodes e))
      (rw same (network-Accounts pool a.network_status m h))

-- Without free ports a registration falls back to a port of its own choice. If it then fails, that
-- port is marked free, also if it holds a registered node.
pub fallback_frees_held_port :
    (o : Order) (m : OtMonitor) (omr ip : Ipv6Addr) (rloc : Rloc) (i : ℕ) (x : Exchange)
    (e : EventRouterError)
    → m.ports.ports ≡ []
    → holds_node m (fallback_port i) ≡ true
    → coap_observer_register omr ip (fallback_port i) x ≡ settled (err e)
    → (m' : OtMonitor) × (register_one o m omr i (rloc, ip) x ≡ goes_on m' [])
      × (is_free m'.ports (fallback_port i) ≡ true)
      × (holds_node m' (fallback_port i) ≡ true)
unfolding register_one conclude reserve_free_port return_free_port return_port
fallback_frees_held_port o m omr ip rloc i x e empty held failed = (
  return_port m (fallback_port i),
  ground (arith, get_free_port-empty o m.ports empty, failed),
  ground (arith, mark_port_free_to_use_lem m.ports (fallback_port i) (fallback_port i)),
  held,
)
