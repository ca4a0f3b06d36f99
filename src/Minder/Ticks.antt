-- ===== src/Minder/Ticks.antt =====
-- Ticks: what becomes of the readings of a batch.
use plant_minder.Base.{
  ℕ, ◌≤◌, ◌≡◌, refl, inl, inr, List, [], ◌∷◌, Bool, true, false, Option, none, some, returns, take,
  drop, length, length-take-le, length-keep-le, nat_beq_iff, if◌then◌else◌, arith, ◌==◌, nat_eq,
  Option-cases,
}
use plant_minder.Net.{Ipv6Addr}
use plant_minder.Map.{lookup, insert, keys, IsMap, contains_key}
use plant_minder.Map.Laws.{lookup-insert, insert-IsMap}
use plant_minder.Broker.Types.{NodeSensorReading}
use plant_minder.Minder.{
  Node, Nodes, PlantMinder, from_key, new_data, unless_empty, distribute, recv_many, tick,
}
use plant_minder.Minder.Window.{window, extend_history-window}

-- The node after a batch of readings.
abbrev pub receives : Node → List NodeSensorReading → Node
receives a [] = a
receives a (r ∷ rs) = record a { history = window a.history (r ∷ rs) }

abbrev pub member : ℕ → List ℕ → Bool
member k [] = false
member k (j ∷ js) = let rest = member k js in if j == k then true else rest

abbrev pub NoRepeat : List ℕ → Type 0
NoRepeat [] = Unit
NoRepeat (k ∷ ks) = (member k ks ≡ false) × NoRepeat ks

abbrev pub after_batch : List NodeSensorReading → Option Node → Option Node
after_batch rs none = none
after_batch rs (some a) = some (receives a rs)

-- The readings from an address reach its node, if it has one.
unless_empty-known :
    (nodes : Nodes) (key : Ipv6Addr) (a : Node) (rs : List NodeSensorReading)
    → lookup key nodes ≡ some a
    → length rs ≤ 20
    → IsMap nodes
    → (nodes' : Nodes) × (unless_empty nodes key rs ≡ returns nodes')
      × IsMap nodes'
      × ((j : Ipv6Addr)
          → lookup j nodes' ≡ (if key == j then some (receives a rs) else lookup j nodes))
unfolding new_data
unless_empty-known nodes key a [] known small maps =
    (nodes, refl, maps, λ (j : Ipv6Addr). ground (arith, nat_beq_iff key j))
unless_empty-known nodes key a (r ∷ rs) known small maps = (
  insert key (record a { history = window a.history (r ∷ rs) }) nodes,
  rw (known, extend_history-window a.history (r ∷ rs) small) refl,
  insert-IsMap key (record a { history = window a.history (r ∷ rs) }) nodes maps,
  λ (j : Ipv6Addr). lookup-insert key j (record a { history = window a.history (r ∷ rs) }) nodes,
)

contains_key-some :
    (k : Ipv6Addr) (nodes : Nodes)
    → contains_key k nodes ≡ true
    → (a : Node) × (lookup k nodes ≡ some a)
contains_key-some k nodes h = elim (Option-cases (lookup k nodes)) [
  | inl absent ↦ ground (arith, absent)
  | inr found ↦ found
]

distribute_lem :
    (buffer : List NodeSensorReading) (ks : List Ipv6Addr) (nodes : Nodes)
    → length buffer ≤ 20
    → NoRepeat ks
    → ((j : Ipv6Addr) → member j ks ≡ true → contains_key j nodes ≡ true)
    → IsMap nodes
    → (nodes' : Nodes) × (distribute buffer ks nodes ≡ returns nodes')
      × IsMap nodes'
      × ((j : Ipv6Addr)
          → lookup j nodes' ≡ (
              if member j ks
              then after_batch (from_key j buffer) (lookup j nodes)
              else lookup j nodes))
unfolding distribute
distribute_lem buffer [] nodes small distinct known maps =
    (nodes, refl, maps, λ (j : Ipv6Addr). refl)
distribute_lem buffer (k ∷ ks) nodes small distinct known maps =
    let (a, found) = contains_key-some k nodes (known k (ground (arith, nat_beq_iff k k))) in
    let (n1, eq1, maps1, look1) =
      unless_empty-known nodes k a (from_key k buffer) found
        (omega (arith, length-keep-le (λ (r : NodeSensorReading). r.addr.ip == k) buffer)) maps in
    let (n2, eq2, maps2, look2) =
      distribute_lem buffer ks n1 small distinct.1
        (λ (j : Ipv6Addr) (there : member j ks ≡ true).
          ground (arith, known j, look1 j, nat_beq_iff k j))
        maps1 in
    (
      n2,
      rw eq1 eq2,
      maps2,
      λ (j : Ipv6Addr). ground (arith, look1 j, look2 j, nat_beq_iff k j, distinct.0),
    )

member-keys : (j : Ipv6Addr) (nodes : Nodes) → member j (keys nodes) ≡ contains_key j nodes
unfolding lookup
member-keys j [] = refl
member-keys j ((i, w) ∷ m) = ground (arith, member-keys j m)

NoRepeat-keys : (nodes : Nodes) → IsMap nodes → NoRepeat (keys nodes)
NoRepeat-keys [] h = tt
NoRepeat-keys ((i, w) ∷ m) h = (ground (arith, member-keys i m, h.0), NoRepeat-keys m h.1)

-- A tick never panics. It takes the twenty oldest readings off the queue, or all if they are
-- fewer, and puts at each node those that came from its address behind the node's history, from
-- which the five oldest go first where the two make fifty or more; no node appears or vanishes.
-- The map of the nodes repeats no key, before and after.
pub tick_lem :
    (m : PlantMinder)
    → IsMap m.nodes
    → (nodes' : Nodes) × (tick m
        ≡ returns (record m { data_queue = drop 20 m.data_queue; nodes = nodes' }))
      × IsMap nodes'
      × ((j : Ipv6Addr)
          → lookup j nodes' ≡ after_batch (from_key j (take 20 m.data_queue)) (lookup j m.nodes))
unfolding tick recv_many
tick_lem m h =
    let (n, returned, maps, look) =
      distribute_lem (take 20 m.data_queue) (keys m.nodes) m.nodes (length-take-le 20 m.data_queue)
        (NoRepeat-keys m.nodes h)
        (λ (j : Ipv6Addr) (there : member j (keys m.nodes) ≡ true).
          ground (arith, member-keys j m.nodes))
        h in
    (n, rw returned refl, maps, λ (j : Ipv6Addr). ground (arith, look j, member-keys j m.nodes))
