-- ===== src/Broker/Router/Holding.antt =====
-- The nodes that are in the monitor's table after the polling task of pmind-broker/src/router.rs has
-- registered them.
use plant_minder.Base.{
  ℕ, ◌+◌, ◌≡◌, inl, inr, refl, ◌∙◌, List, [], ◌∷◌, Bool, true, false, not, ◌&&◌, some, ok, All,
  arith, length, nat_eq, ◌==◌, nat_beq_iff, Bool-cases,
}
use plant_minder.Net.{Ipv6Addr, SocketAddrV6}
use plant_minder.Map.{lookup, IsMap}
use plant_minder.Map.Laws.{lookup-insert}
use plant_minder.Broker.Types.{Eui, Rloc, Registration}
use plant_minder.Broker.Ports.{Order}
use plant_minder.Broker.Monitor.{
  OtMonitor, Nodes, InternalRegistration, is_registered, is_listed, reserve_free_port,
  internal_registration, register_node,
}
use plant_minder.Broker.Router.{
  port_or, Output, Progress, goes_on, task_panics, task_waits, register_one, register_all, conclude,
}
use plant_minder.Broker.Router.Coap.{Exchange, settled, coap_observer_register}
use plant_minder.Broker.Router.Accounting.{Accounts}
use plant_minder.Broker.Router.Rounds.{Settles, Ready, GoesOn, then_on-GoesOn}
use plant_minder.Broker.Router.Announced.{Tells, Told, register_one-Tells, register_all-Tells}

-- Whoever the exchange is with, it ends with a registration.
abbrev pub Registers : Exchange → Type 0
Registers x =
    (omr ip : Ipv6Addr) (port : ℕ)
    → (addr : SocketAddrV6) × (eui : Eui) × (name : List ℕ) × (coap_observer_register omr ip port x
        ≡ settled (ok (some (addr, eui, name))))

-- A node with the locator and the address is in the table.
abbrev pub Holds : Nodes → Rloc × Ipv6Addr → Type 0
Holds nodes (r, a) =
    (p : ℕ) × (n : InternalRegistration) × (lookup p nodes ≡ some n) × (n.rloc ≡ r) × (n.ip ≡ a)

pub Holds-is_registered :
    (r : Rloc) (a : Ipv6Addr) (p : ℕ) (n : InternalRegistration) (nodes : Nodes)
    → lookup p nodes ≡ some n
    → n.rloc ≡ r
    → n.ip ≡ a
    → is_registered r a nodes ≡ true
unfolding lookup is_registered
Holds-is_registered r a p n [] h e q = cc
Holds-is_registered r a p n ((k, x) ∷ nodes) h e q =
    ground (arith, nat_beq_iff x.rloc r, nat_beq_iff x.ip a, Holds-is_registered r a p n nodes)

pub is_registered-Holds :
    (r : Rloc) (a : Ipv6Addr) (nodes : Nodes)
    → IsMap nodes
    → is_registered r a nodes ≡ true
    → Holds nodes (r, a)
unfolding lookup is_registered
is_registered-Holds r a [] m h = cc
is_registered-Holds r a ((k, x) ∷ nodes) m h = elim (Bool-cases (x.rloc == r && x.ip == a)) [
  | inl same ↦ (
    k,
    x,
    ground (arith, nat_beq_iff k k),
    ground (arith, nat_beq_iff x.rloc r),
    ground (arith, nat_beq_iff x.ip a),
  )
  | inr other ↦
      let (p, n, there, e, q) = is_registered-Holds r a nodes m.1 (ground arith) in
      (p, n, ground (arith, nat_beq_iff k p), e, q)
]

pub All-Holds :
    (r : Rloc) (a : Ipv6Addr) (nodes : Nodes) (l : List (Rloc × Ipv6Addr))
    → All (Holds nodes) l
    → is_listed r a l ≡ true
    → Holds nodes (r, a)
unfolding is_listed
All-Holds r a nodes [] h e = cc
All-Holds r a nodes ((r', a') ∷ l) h e = elim (Bool-cases (r' == r && a' == a)) [
  | inl same ↦
      let (p, n, there, x, y) = h.0 in
      (p, n, there, x ∙ ground (arith, nat_beq_iff r' r), y ∙ ground (arith, nat_beq_iff a' a))
  | inr other ↦ All-Holds r a nodes l h.1 (ground arith)
]

pub none_listed :
    (l : List (Rloc × Ipv6Addr)) → ((r : Rloc) (a : Ipv6Addr) → is_listed r a l ≡ false) → l ≡ []
unfolding is_listed
none_listed [] h = refl
none_listed ((r, a) ∷ l) h = ground (arith, h r a, nat_beq_iff r r, nat_beq_iff a a)

-- The nodes that are active and registered, or on a list of those that are.
pub listed_or_new :
    (r : Rloc) (a : Ipv6Addr) (nodes nodes' : Nodes) (active new : List (Rloc × Ipv6Addr))
    → IsMap nodes
    → is_listed r a new ≡ (is_listed r a active && not (is_registered r a nodes))
    → ((p : ℕ) (n : InternalRegistration) → lookup p nodes ≡ some n → lookup p nodes' ≡ some n)
    → All (Holds nodes') new
    → is_listed r a active ≡ true
    → Holds nodes' (r, a)
listed_or_new r a nodes nodes' active new m e kept fresh on =
    elim (Bool-cases (is_registered r a nodes)) [
      | inl old ↦
          let (p, n, there, x, y) = is_registered-Holds r a nodes m old in
          (p, n, kept p n there, x, y)
      | inr unknown ↦ All-Holds r a nodes' new fresh (ground (arith, e, on, unknown))
    ]

-- All nodes of a list are in the table, and none that was there is lost.
abbrev pub Filled : (ℕ → Bool) → OtMonitor → List (Rloc × Ipv6Addr) → OtMonitor → Type 0
Filled pool m nodes m' =
    Accounts pool m'
    × All (Holds m'.nodes) nodes
    × (m'.addr ≡ m.addr)
    × ((p : ℕ) (n : InternalRegistration) → lookup p m.nodes ≡ some n → lookup p m'.nodes ≡ some n)

module _ (pool : ℕ → Bool) (o : Order) (omr : Ipv6Addr) (xs : ℕ → Exchange)
    (registers : (j : ℕ) → Registers (xs j)) where
  all_settle : (j : ℕ) → Settles (xs j)
  all_settle j omr ip port =
      let (addr, eui, name, e) = registers j omr ip port in (ok (some (addr, eui, name)), e)

  -- The node is in the table after its registration, and the own address stays.
  register_one-Holds :
      (m : OtMonitor) (i : ℕ) (node : Rloc × Ipv6Addr)
      → GoesOn (λ m'. Holds m'.nodes node × (m'.addr ≡ m.addr)) (register_one o m omr i node (xs i))
  unfolding register_one conclude internal_registration register_node reserve_free_port
  register_one-Holds m i (rloc, ip) =
      let port = port_or i (reserve_free_port o m).0 in
      let (addr, eui, name, e) = registers i omr ip port in
      let node : InternalRegistration = record { rloc = rloc; ip = ip; port = port; eui = eui } in
      rw e (
        (
          port,
          node,
          ground (arith, lookup-insert port port node m.nodes, nat_beq_iff port port),
          refl,
          refl,
        ),
        refl,
      )

  GoesOn-and :
      (P Q : OtMonitor → Type 0) (k : ℕ) (nodes : Nodes) (r : Progress (List Output))
      → Tells pool k nodes r
      → GoesOn P r
      → ((m' : OtMonitor) (regs : List Registration)
          → Ready pool k m'
          → Told nodes m'.nodes regs
          → P m'
          → Q m')
      → GoesOn Q r
  GoesOn-and P Q k nodes (goes_on m' out) (ready, told) h next = next m' _ ready told h
  GoesOn-and P Q k nodes (task_panics m' out) t h next = h
  GoesOn-and P Q k nodes (task_waits m' out) t h next = h

  pub register_all-Filled :
      (nodes : List (Rloc × Ipv6Addr)) (m : OtMonitor) (i : ℕ)
      → Ready pool (length nodes) m
      → GoesOn (Filled pool m nodes) (register_all o m omr xs i nodes)
  unfolding register_all
  register_all-Filled [] m i h = (h.0, tt, refl, λ p n q. q)
  register_all-Filled (node ∷ nodes) m i h =
      then_on-GoesOn pool
        (λ m'.
          Ready pool (length nodes) m'
          × Holds m'.nodes node
          × (m'.addr ≡ m.addr)
          × ((p : ℕ) (n : InternalRegistration)
              → lookup p m.nodes ≡ some n
              → lookup p m'.nodes ≡ some n))
        (Filled pool m (node ∷ nodes)) _ _
        (GoesOn-and _ _ (length nodes) m.nodes _
          (register_one-Tells pool o m omr i (length nodes) node (xs i) (all_settle i) h)
          (register_one-Holds m i node) (λ m' regs ready told q. (ready, q.0, q.1, told.kept)))
        (λ m' q.
          GoesOn-and _ _ 0 m'.nodes _
            (register_all-Tells pool o omr xs all_settle nodes m' (i + 1) q.0)
            (register_all-Filled nodes m' (i + 1) q.0)
            (λ m'' regs ready told f.
              let (k, j, there, x, y) = q.1 in
              (
                f.0,
                ((k, j, told.kept k j there, x, y), f.1),
                f.2 ∙ q.2,
                λ p n w. f.3 p n (q.3 p n w),
              )))
