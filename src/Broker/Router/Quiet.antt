-- ===== src/Broker/Router/Quiet.antt =====
-- What the next round of the polling task of pmind-broker/src/router.rs finds after a round in which
-- every node has registered.
use mathlib.Core.Path.{subst}
use plant_minder.Base.{
  ℕ, ◌≡◌, inl, inr, refl, ap, sym, ◌∙◌, List, [], Bool, true, false, not, ◌&&◌, ok, err, length,
  nat_eq, ◌==◌, Bool-cases, ok-injective, keep, Result,
}
use plant_minder.Net.{Ipv6Addr, segment0}
use plant_minder.Map.{IsMap}
use plant_minder.Broker.Types.{Rloc, OtClient, OtMonitorError}
use plant_minder.Broker.Ports.{Order}
use plant_minder.Broker.Monitor.{
  OtMonitor, Reply, is_registered, is_listed, get_nodes, check_new_node, get_node_status,
  monitor_network_status, omr_ip, get_omr_ip,
}
use plant_minder.Broker.Monitor.Registry.{Swept, get_node_status_lem}
use plant_minder.Broker.Monitor.Invariant.{check_new_node-state, monitor_network_status-tables}
use plant_minder.Broker.Monitor.Network.{check_new_node_lem}
use plant_minder.Broker.Router.{
  Output, Progress, goes_on, task_panics, task_waits, register_all, finish, Answers, Round, polled,
  exits, register_new, poll,
}
use plant_minder.Broker.Router.Accounting.{Accounts, network-Accounts}
use plant_minder.Broker.Router.Rounds.{HasRoom, GoesOn}
use plant_minder.Broker.Router.Holding.{
  Registers, Holds, Holds-is_registered, none_listed, listed_or_new, Filled, register_all-Filled,
}

-- The sweep leaves the active nodes in the table.
Swept-Holds :
    (r : Rloc) (a : Ipv6Addr) (active : List (Rloc × Ipv6Addr)) (m m' : OtMonitor)
    → Swept active m m'
    → is_listed r a active ≡ true
    → Holds m.nodes (r, a)
    → Holds m'.nodes (r, a)
Swept-Holds r a active m m' s on (p, n, there, x, y) =
    (p, n, s.nodes p ∙ rw (there, x, y, on) refl, x, y)

not_new :
    (c : OtClient) (m : OtMonitor) (active new : List (Rloc × Ipv6Addr)) (r : Rloc) (a : Ipv6Addr)
    → is_listed r a new ≡ (is_listed r a active && not (is_registered r a m.nodes))
    → (is_listed r a active ≡ true → Holds m.nodes (r, a))
    → is_listed r a new ≡ false
not_new c m active new r a f held = elim (Bool-cases (is_listed r a active)) [
  | inl on ↦
      let (p, n, there, x, y) = held on in
      rw (f, on, Holds-is_registered r a p n m.nodes there x y) refl
  | inr off ↦ rw (f, off) refl
]

-- All active nodes are in the table: none is new.
nothing_new :
    (c : OtClient) (m : OtMonitor) (active : List (Rloc × Ipv6Addr))
    → get_nodes c m ≡ ok active
    → ((r : Rloc) (a : Ipv6Addr) → is_listed r a active ≡ true → Holds m.nodes (r, a))
    → (check_new_node c m).0 ≡ ok []
nothing_new c m active q all = elim (check_new_node_lem c m) [
  | inl (e, failed, done) ↦ cc
  | inr (active', new, q', done, f) ↦
      let same : active' ≡ active = ok-injective (sym q' ∙ q) in
      let none_new : new ≡ [] =
        none_listed new (λ r a. not_new c m active new r a (f r a ∙ rw same refl) (all r a)) in
      rw (done, none_new) refl
]

-- The active nodes in the scope of an address.
abbrev in_scope : Ipv6Addr → List (Rloc × Ipv6Addr) → List (Rloc × Ipv6Addr)
in_scope addr ips = keep (λ p. segment0 p.1 == segment0 addr) ips

get_nodes-in_scope :
    (c : OtClient) (m : OtMonitor) (addr : Ipv6Addr) (ips : List (Rloc × Ipv6Addr))
    → c.get_child_ips ≡ ok ips
    → m.addr ≡ addr
    → get_nodes c m ≡ ok (in_scope addr ips)
unfolding get_nodes
get_nodes-in_scope c m addr ips h e = rw (h, e) refl

-- The round comes to an end, and the next check with the client reports no new node.
abbrev pub IsQuiet : OtClient → Round → Type 0
IsQuiet c (polled r) = GoesOn (λ m. (check_new_node c m).0 ≡ ok []) r
IsQuiet c (exits m) = ⊥

module _ (pool : ℕ → Bool) (a : Answers) (ips : List (Rloc × Ipv6Addr))
    (listed : a.new_nodes.get_child_ips ≡ ok ips)
    (same : a.node_status.get_child_ips ≡ ok ips) where
  Swept-IsQuiet :
      (m m' m'' : OtMonitor) (new : List (Rloc × Ipv6Addr))
      → IsMap m.nodes
      → ((r : Rloc) (ip : Ipv6Addr)
          → is_listed r ip new
            ≡ (is_listed r ip (in_scope m.addr ips) && not (is_registered r ip m.nodes)))
      → Filled pool m new m'
      → Swept (in_scope m.addr ips) m' m''
      → (check_new_node a.new_nodes m'').0 ≡ ok []
  Swept-IsQuiet m m' m'' new maps fresh (accounts, held, addr, kept) s =
      nothing_new a.new_nodes m'' (in_scope m.addr ips)
        (get_nodes-in_scope a.new_nodes m'' m.addr ips listed (s.addr ∙ addr))
        (λ r ip on. Swept-Holds r ip (in_scope m.addr ips) m' m'' s on (
          listed_or_new r ip m.nodes m'.nodes (in_scope m.addr ips) new maps (fresh r ip) kept held
            on))

  finish-IsQuiet :
      (m : OtMonitor) (new : List (Rloc × Ipv6Addr)) (r : Progress (List Output))
      → IsMap m.nodes
      → ((r : Rloc) (ip : Ipv6Addr)
          → is_listed r ip new
            ≡ (is_listed r ip (in_scope m.addr ips) && not (is_registered r ip m.nodes)))
      → GoesOn (Filled pool m new) r
      → IsQuiet a.new_nodes (polled (finish a.node_status r))
  unfolding finish
  finish-IsQuiet m new (goes_on m' out) maps fresh f =
      let known = get_nodes-in_scope a.node_status m' m.addr ips same f.2 in
      elim (get_node_status_lem a.node_status m' f.0.consistent.nodes_map) [
        | inl (e, failed, done) ↦ cc
        | inr (active, q, done, s) ↦
            let e : active ≡ in_scope m.addr ips = ok-injective (sym q ∙ known) in
            Swept-IsQuiet m m' (get_node_status a.node_status m').1 new maps fresh f (
              subst
                (λ (l : List (Rloc × Ipv6Addr)). Swept l m' (get_node_status a.node_status m').1) e
                s)
      ]
  finish-IsQuiet m new (task_panics m' out) maps fresh f = f
  finish-IsQuiet m new (task_waits m' out) maps fresh f = f

  new_by_check :
      (m : OtMonitor) (new : List (Rloc × Ipv6Addr))
      → check_new_node a.new_nodes m ≡ (ok new, m)
      → (r : Rloc) (ip : Ipv6Addr)
      → is_listed r ip new
        ≡ (is_listed r ip (in_scope m.addr ips) && not (is_registered r ip m.nodes))
  new_by_check m new done r ip = elim (check_new_node_lem a.new_nodes m) [
    | inl (e, failed, q) ↦ cc
    | inr (active, new', q, found, f) ↦
        let known = get_nodes-in_scope a.new_nodes m m.addr ips listed refl in
        let same_active : active ≡ in_scope m.addr ips = ok-injective (sym q ∙ known) in
        let same_new : new' ≡ new =
          ok-injective (ap (λ (p : Reply (List (Rloc × Ipv6Addr))). p.0) (sym found ∙ done)) in
        rw (← same_new, ← same_active) (f r ip)
  ]

  register_new-IsQuiet :
      (o : Order) (m : OtMonitor) (omr : Ipv6Addr)
      (r : Result (List (Rloc × Ipv6Addr)) OtMonitorError)
      → ((j : ℕ) → Registers (a.exchanges j))
      → a.omr_address.get_omr_ip ≡ ok omr
      → (check_new_node a.new_nodes m ≡ (r, m))
      → ((nodes : List (Rloc × Ipv6Addr)) → r ≡ ok nodes → HasRoom (length nodes) m)
      → Accounts pool m
      → IsQuiet a.new_nodes (register_new o a m r)
  unfolding register_new omr_ip get_omr_ip
  register_new-IsQuiet o m omr (err e) registers known done room h =
      elim (check_new_node_lem a.new_nodes m) [
        | inl (e', failed, q) ↦ cc (get_nodes-in_scope a.new_nodes m m.addr ips listed refl)
        | inr (active, new, q, found, f) ↦ cc
      ]
  register_new-IsQuiet o m omr (ok new) registers known done room h =
      let fresh = new_by_check m new done in
      rw (known, register_new)
        (finish-IsQuiet m new (register_all o m omr a.exchanges 0 new) h.consistent.nodes_map fresh
          (register_all-Filled pool o omr a.exchanges registers new m 0 (h, room new refl)))

-- In a network that stands still, a round in which every new node registers leaves nothing to do for
-- the next one: the round comes to an end, and if the nodes are then looked for again, none is reported
-- as new. The client gives the same nodes at the start and at the end of the round, and the own
-- address, every exchange ends with a registration, there are as many free ports as new nodes, and the
-- ports are accounted for.
pub poll-IsQuiet :
    (pool : ℕ → Bool) (o : Order) (a : Answers) (m : OtMonitor) (ips : List (Rloc × Ipv6Addr))
    (omr : Ipv6Addr)
    → ((j : ℕ) → Registers (a.exchanges j))
    → a.new_nodes.get_child_ips ≡ ok ips
    → a.node_status.get_child_ips ≡ ok ips
    → a.omr_address.get_omr_ip ≡ ok omr
    → ((nodes : List (Rloc × Ipv6Addr))
        → (check_new_node a.new_nodes (monitor_network_status a.network_status m).1).0 ≡ ok nodes
        → HasRoom (length nodes) m)
    → Accounts pool m
    → IsQuiet a.new_nodes (poll o a m)
unfolding poll
poll-IsQuiet pool o a m ips omr registers listed same known room h =
    let m1 = (monitor_network_status a.network_status m).1 in
    let state = check_new_node-state a.new_nodes m1 in
    rw state (
      register_new-IsQuiet pool a ips listed same o m1 omr (check_new_node a.new_nodes m1).0
        registers known (λ i. ((check_new_node a.new_nodes m1).0, state i))
        (λ nodes e. rw (monitor_network_status-tables a.network_status m).1 (room nodes e))
        (network-Accounts pool a.network_status m h))
