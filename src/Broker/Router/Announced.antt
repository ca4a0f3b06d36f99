-- ===== src/Broker/Router/Announced.antt =====
-- The registrations that the polling task of pmind-broker/src/router.rs passes on, and the nodes that
-- the monitor knows.
use plant_minder.Base.{
  ℕ, suc, ◌+◌, ◌≡◌, ◌⊎◌, inl, inr, refl, ap, List, [], ◌∷◌, ◌++◌, Bool, true, false, ◌&&◌, ◌||◌,
  Option, none, some, ok, err, Result, All, All-append, arith, length, nat_eq, list_eq, ◌==◌,
  list_beq_iff, nat_beq_iff, Bool-cases,
}
use plant_minder.Net.{Ipv6Addr, SocketAddrV6}
use plant_minder.Map.{lookup, insert}
use plant_minder.Map.Laws.{length-insert, lookup-insert}
use plant_minder.Broker.Types.{Eui, Rloc, Registration}
use plant_minder.Broker.Ports.{Order, mark_port_free_to_use}
use plant_minder.Broker.Monitor.{
  OtMonitor, Nodes, InternalRegistration, reserve_free_port, internal_registration, register_node,
  return_free_port, return_port,
}
use plant_minder.Broker.Router.{
  Output, sensor_stream, registered, Progress, goes_on, task_panics, task_waits, conclude,
  register_one, and_then, then_on, register_all, plant_name,
}
use plant_minder.Broker.Router.Coap.{EventRouterError, Exchange, settled}
use plant_minder.Broker.Router.Accounting.{
  AccountsBut, reserve-AccountsBut, register-Accounts, return-Accounts,
}
use plant_minder.Broker.Router.Rounds.{Settles, Ready, HasRoom}

abbrev pub registrations : List Output → List Registration
registrations [] = []
registrations (sensor_stream a ∷ out) = registrations out
registrations (registered reg ∷ out) = reg ∷ registrations out

pub registrations-append :
    (xs ys : List Output) → registrations (xs ++ ys) ≡ registrations xs ++ registrations ys
registrations-append [] ys = refl
registrations-append (sensor_stream a ∷ xs) ys = registrations-append xs ys
registrations-append (registered reg ∷ xs) ys = ap (◌∷◌ reg) (registrations-append xs ys)

-- A registration of the node with the identifier and the address is among them.
abbrev pub is_announced : Eui → Ipv6Addr → List Registration → Bool
is_announced e a [] = false
is_announced e a ((eui, ip, name) ∷ regs) = (eui == e && ip == a) || is_announced e a regs

is_announced-append :
    (e : Eui) (a : Ipv6Addr) (xs ys : List Registration)
    → is_announced e a (xs ++ ys) ≡ (is_announced e a xs || is_announced e a ys)
is_announced-append e a [] ys = refl
is_announced-append e a (x ∷ xs) ys = ground (arith, is_announced-append e a xs ys)

-- The monitor knows a node with the identifier and the address of the registration.
abbrev pub Known : Nodes → Registration → Type 0
Known m (eui, ip, name) =
    (p : ℕ) × (n : InternalRegistration) × (lookup p m ≡ some n) × (n.ip ≡ ip) × (n.eui ≡ eui)

-- From `m` to `m'` no node is lost, the registrations are of nodes that are known, and every node that
-- is not known before has its registration.
pub record Told (m m' : Nodes) (regs : List Registration) : Type 0 where
  pub kept : (p : ℕ) (n : InternalRegistration) → lookup p m ≡ some n → lookup p m' ≡ some n
  pub known : All (Known m') regs
  pub complete :
      (p : ℕ) (n : InternalRegistration)
      → lookup p m' ≡ some n
      → (lookup p m ≡ some n) ⊎ (is_announced n.eui n.ip regs ≡ true)

All-Known :
    (m m' : Nodes) (regs : List Registration)
    → ((p : ℕ) (n : InternalRegistration) → lookup p m ≡ some n → lookup p m' ≡ some n)
    → All (Known m) regs
    → All (Known m') regs
All-Known m m' [] kept h = tt
All-Known m m' ((eui, ip, name) ∷ regs) kept ((p, n, there, at, own), h) =
    ((p, n, kept p n there, at, own), All-Known m m' regs kept h)

Told-trans :
    (m m' m'' : Nodes) (xs ys : List Registration)
    → Told m m' xs
    → Told m' m'' ys
    → Told m m'' (xs ++ ys)
Told-trans m m' m'' xs ys a b = record {
  kept = λ p n h. b.kept p n (a.kept p n h);
  known = All-append (Known m'') xs ys (All-Known m' m'' xs b.kept a.known) b.known;
  complete = λ p n h. earlier p n (b.complete p n h);
}
  where
    first :
        (p : ℕ) (n : InternalRegistration)
        → (lookup p m ≡ some n) ⊎ (is_announced n.eui n.ip xs ≡ true)
        → (lookup p m ≡ some n) ⊎ (is_announced n.eui n.ip (xs ++ ys) ≡ true)
    first p n (inl h) = inl h
    first p n (inr h) = inr (ground (arith, is_announced-append n.eui n.ip xs ys, h))

    earlier :
        (p : ℕ) (n : InternalRegistration)
        → (lookup p m' ≡ some n) ⊎ (is_announced n.eui n.ip ys ≡ true)
        → (lookup p m ≡ some n) ⊎ (is_announced n.eui n.ip (xs ++ ys) ≡ true)
    earlier p n (inl h) = first p n (a.complete p n h)
    earlier p n (inr h) = inr (ground (arith, is_announced-append n.eui n.ip xs ys, h))

-- The task goes on, with room for `k` more nodes, and has told what it has registered.
abbrev pub Tells : (ℕ → Bool) → ℕ → Nodes → Progress (List Output) → Type 0
Tells pool k m (goes_on m' out) = Ready pool k m' × Told m m'.nodes (registrations out)
Tells pool k m (task_panics m' more) = ⊥
Tells pool k m (task_waits m' more) = ⊥

Told-none : (m : Nodes) → Told m m []
Told-none m = record { kept = λ p n h. h; known = tt; complete = λ p n h. inl h }

new_or_old :
    (node : InternalRegistration) (name : List ℕ) (nodes : Nodes) (p : ℕ) (n : InternalRegistration)
    → lookup p (insert node.port node nodes) ≡ some n
    → (lookup p nodes ≡ some n) ⊎ (is_announced n.eui n.ip ((node.eui, node.ip, name) ∷ []) ≡ true)
new_or_old node name nodes p n q = elim (Bool-cases (node.port == p)) [
  | inl same ↦ inr (
      ground (
        arith,
        lookup-insert node.port p node nodes,
        list_beq_iff node.eui n.eui,
        nat_beq_iff node.ip n.ip,
      ))
  | inr other ↦ inl (ground (arith, lookup-insert node.port p node nodes))
]

module _ (pool : ℕ → Bool) where
  conclude-Tells :
      (m : OtMonitor) (rloc : Rloc) (ip : Ipv6Addr) (port k : ℕ)
      (r : Result (Option (SocketAddrV6 × Eui × List ℕ)) EventRouterError)
      → AccountsBut pool port m
      → HasRoom k m
      → Tells pool k m.nodes (conclude m rloc ip port (settled r))
  unfolding conclude internal_registration register_node return_free_port return_port
      mark_port_free_to_use
  conclude-Tells m rloc ip port k (ok (some (addr, eui, name))) h room =
      let node : InternalRegistration = record { rloc = rloc; ip = ip; port = port; eui = eui } in
      (
        (register-Accounts pool m node h, room),
        record {
          kept = λ p n q.
              ground (arith, h.vacant, lookup-insert port p node m.nodes, nat_beq_iff port p);
          known = (
            (
              port,
              node,
              ground (arith, lookup-insert port port node m.nodes, nat_beq_iff port port),
              refl,
              refl,
            ),
            tt,
          );
          complete = λ p n q. new_or_old node (plant_name name) m.nodes p n q;
        },
      )
  conclude-Tells m rloc ip port k (ok none) h room = (
    (return-Accounts pool m port h, omega (arith, length-insert port tt m.ports.ports)),
    record { kept = λ p n q. q; known = tt; complete = λ p n q. inl q },
  )
  conclude-Tells m rloc ip port k (err e) h room = (
    (return-Accounts pool m port h, omega (arith, length-insert port tt m.ports.ports)),
    record { kept = λ p n q. q; known = tt; complete = λ p n q. inl q },
  )

  pub register_one-Tells :
      (o : Order) (m : OtMonitor) (omr : Ipv6Addr) (i k : ℕ) (node : Rloc × Ipv6Addr) (x : Exchange)
      → Settles x
      → Ready pool (suc k) m
      → Tells pool k m.nodes (register_one o m omr i node x)
  unfolding register_one reserve_free_port
  register_one-Tells o m omr i k (rloc, ip) x s (h, room) =
      let (p, e, taken, count) = reserve-AccountsBut pool o m (omega arith) h in
      let (r, q) = s omr ip p in
      rw (e, q) (conclude-Tells (reserve_free_port o m).1 rloc ip p k r taken (omega arith))

  and_then-Tells :
      (k : ℕ) (m m' : Nodes) (out : List Output) (r : Progress (List Output))
      → Told m m' (registrations out)
      → Tells pool k m' r
      → Tells pool k m (and_then out r)
  unfolding and_then
  and_then-Tells k m m' out (goes_on m'' more) a (ready, b) = (
    ready,
    rw (registrations-append out more)
        (Told-trans m m' m''.nodes (registrations out) (registrations more) a b),
  )
  and_then-Tells k m m' out (task_panics m'' more) a b = b
  and_then-Tells k m m' out (task_waits m'' more) a b = b

  then_on-Tells :
      (j k : ℕ) (m : Nodes) (r : Progress (List Output)) (f : OtMonitor → Progress (List Output))
      → Tells pool j m r
      → ((m' : OtMonitor) → Ready pool j m' → Tells pool k m'.nodes (f m'))
      → Tells pool k m (then_on r f)
  unfolding then_on
  then_on-Tells j k m (goes_on m' out) f (ready, told) next =
      and_then-Tells k m m'.nodes out (f m') told (next m' ready)
  then_on-Tells j k m (task_panics m' more) f h next = h
  then_on-Tells j k m (task_waits m' more) f h next = h

  -- The registration of some nodes, one after the other, comes to an end, if every exchange settles
  -- and each node finds a free port. What it passes on are registrations of nodes that the monitor
  -- knows then, and every node that it has come to know is among them.
  pub register_all-Tells :
      (o : Order) (omr : Ipv6Addr) (xs : ℕ → Exchange) (settles : (j : ℕ) → Settles (xs j))
      (nodes : List (Rloc × Ipv6Addr)) (m : OtMonitor) (i : ℕ)
      → Ready pool (length nodes) m
      → Tells pool 0 m.nodes (register_all o m omr xs i nodes)
  unfolding register_all
  register_all-Tells o omr xs settles [] m i h = (h, Told-none m.nodes)
  register_all-Tells o omr xs settles (node ∷ nodes) m i h =
      then_on-Tells (length nodes) 0 m.nodes _ _
        (register_one-Tells o m omr i (length nodes) node (xs i) (settles i) h)
        (λ m' h'. register_all-Tells o omr xs settles nodes m' (i + 1) h')
