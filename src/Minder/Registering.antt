-- ===== src/Minder/Registering.antt =====
-- A plant registers: what becomes of its history, of its old address and of the two maps.
use plant_minder.Base.{
  ℕ, ◌≡◌, ◌≢◌, ◌⊎◌, refl, List, [], ◌∷◌, false, Option, none, some, if◌then◌else◌, arith, ◌==◌,
  nat_eq, list_eq, nat_beq_iff, list_beq_iff,
}
use plant_minder.Net.{Ipv6Addr}
use plant_minder.Map.{lookup, remove, IsMap}
use plant_minder.Map.Laws.{lookup-insert, lookup-remove, insert-IsMap, remove-IsMap}
use plant_minder.Broker.Types.{Eui, online, NodeSensorReading}
use plant_minder.Minder.{
  Node, Nodes, PlantMinder, node_registration, register_with, registered_entry, history_at,
  remove_at, is_empty,
}

not_empty {ℓ} : {A : Type ℓ} → (xs : List A) → xs ≢ [] → is_empty xs ≡ false
not_empty [] filled = absurd (filled refl)
not_empty (x ∷ xs) filled = refl

-- An address that is free or given up has no node once the old address is gone.
free-remove :
    (nodes : Nodes) (addr old : Ipv6Addr)
    → (addr ≡ old) ⊎ (lookup addr nodes ≡ none)
    → lookup addr (remove old nodes) ≡ none
free-remove nodes addr old free = ground (arith, lookup-remove old addr nodes, nat_beq_iff old addr)

-- A plant that is new to the program, at an address that is new to it, gets a node with an empty
-- history; no other plant's address and no other address's node changes.
pub registration_new :
    (m : PlantMinder) (eui : Eui) (addr : Ipv6Addr) (name : List ℕ)
    → lookup eui m.node_addrs ≡ none
    → lookup addr m.nodes ≡ none
    → let m' = node_registration m (eui, addr, name) in
      ((a : Ipv6Addr)
        → lookup a m'.nodes ≡ (
            if addr == a
            then some (record { addr = addr; eui = eui; name = name; history = []; state = online })
            else lookup a m.nodes))
      × ((e : Eui)
          → lookup e m'.node_addrs ≡ (if eui == e then some addr else lookup e m.node_addrs))
unfolding node_registration
registration_new m eui addr name unknown_plant free =
    rw (unknown_plant, free)
      (
        (λ (a : Ipv6Addr). lookup-insert addr a _ m.nodes),
        (λ (e : Eui). lookup-insert eui e addr m.node_addrs),
      )

-- A plant with a history that registers again, from an address where no other plant is, keeps its
-- history at the new address, and its old address is forgotten.
pub registration_moves :
    (m : PlantMinder) (eui : Eui) (addr old : Ipv6Addr) (name : List ℕ) (node : Node)
    → lookup eui m.node_addrs ≡ some old
    → lookup old m.nodes ≡ some node
    → node.history ≢ []
    → (addr ≡ old) ⊎ (lookup addr m.nodes ≡ none)
    → let m' = node_registration m (eui, addr, name) in
      ((a : Ipv6Addr)
        → lookup a m'.nodes ≡ (
            if addr == a
            then some (record {
              addr = addr;
              eui = eui;
              name = name;
              history = node.history;
              state = online;
            })
            else if old == a
            then none
            else lookup a m.nodes))
      × ((e : Eui)
          → lookup e m'.node_addrs ≡ (if eui == e then some addr else lookup e m.node_addrs))
unfolding node_registration
registration_moves m eui addr old name node at_old known filled free =
    rw (at_old, known, not_empty node.history filled, free-remove m.nodes addr old free)
      (
        (λ (a : Ipv6Addr). ground (
          arith,
          lookup-insert addr a
              (record {
                addr = addr;
                eui = eui;
                name = name;
                history = node.history;
                state = online;
              })
              (remove old m.nodes),
          lookup-remove old a m.nodes,
        )),
        (λ (e : Eui). ground (
          arith,
          lookup-insert eui e addr (remove eui m.node_addrs),
          lookup-remove eui e m.node_addrs,
        )),
      )

-- A plant that registers again before any reading of it came in leaves its node at the old address
-- behind, though its address on record is the new one.
pub registration_stale :
    (m : PlantMinder) (eui : Eui) (addr old : Ipv6Addr) (name : List ℕ) (node : Node)
    → lookup eui m.node_addrs ≡ some old
    → lookup old m.nodes ≡ some node
    → node.history ≡ []
    → addr ≢ old
    → let m' = node_registration m (eui, addr, name) in
      (lookup old m'.nodes ≡ some node) × (lookup eui m'.node_addrs ≡ some addr)
unfolding node_registration
registration_stale m eui addr old name node at_old known empty moved =
    rw (at_old, known, empty)
      (
        ground (
          arith,
          lookup-insert addr old (registered_entry [] (eui, addr, name) (lookup addr m.nodes))
              m.nodes,
          nat_beq_iff addr old,
          empty,
        ),
        ground (arith, lookup-insert eui eui addr m.node_addrs, list_beq_iff eui eui),
      )

-- A plant that is new to the program and comes from an address that another plant had gets that
-- plant's node, with its name and identifier, and the other plant's history is lost.
pub registration_occupied :
    (m : PlantMinder) (eui : Eui) (addr : Ipv6Addr) (name : List ℕ) (other : Node)
    → lookup eui m.node_addrs ≡ none
    → lookup addr m.nodes ≡ some other
    → let m' = node_registration m (eui, addr, name) in
      (lookup addr m'.nodes ≡ some (record other { history = [] }))
      × (lookup eui m'.node_addrs ≡ some addr)
unfolding node_registration
registration_occupied m eui addr name other unknown_plant occupied =
    rw (unknown_plant, occupied)
      (
        ground (
          arith,
          lookup-insert addr addr (record other { history = [] }) m.nodes,
          nat_beq_iff addr addr,
        ),
        ground (arith, lookup-insert eui eui addr m.node_addrs, list_beq_iff eui eui),
      )

remove_at-IsMap : (nodes : Nodes) (o : Option Ipv6Addr) → IsMap nodes → IsMap (remove_at nodes o)
remove_at-IsMap nodes none h = h
remove_at-IsMap nodes (some p) h = remove-IsMap p nodes h

register_with-IsMap :
    (m : PlantMinder) (eui : Eui) (addr : Ipv6Addr) (name : List ℕ) (h : List NodeSensorReading)
    → IsMap m.nodes
    → IsMap m.node_addrs
    → let m' = register_with m (eui, addr, name) h in IsMap m'.nodes × IsMap m'.node_addrs
register_with-IsMap m eui addr name [] hn ha =
    (insert-IsMap addr _ m.nodes hn, insert-IsMap eui addr m.node_addrs ha)
register_with-IsMap m eui addr name (r ∷ rs) hn ha = (
  insert-IsMap addr _ (remove_at m.nodes (lookup eui m.node_addrs))
      (remove_at-IsMap m.nodes (lookup eui m.node_addrs) hn),
  insert-IsMap eui addr (remove eui m.node_addrs) (remove-IsMap eui m.node_addrs ha),
)

-- No registration repeats a key of either map.
pub registration-IsMap :
    (m : PlantMinder) (eui : Eui) (addr : Ipv6Addr) (name : List ℕ)
    → IsMap m.nodes
    → IsMap m.node_addrs
    → let m' = node_registration m (eui, addr, name) in IsMap m'.nodes × IsMap m'.node_addrs
unfolding node_registration
registration-IsMap m eui addr name hn ha =
    register_with-IsMap m eui addr name (history_at m.nodes (lookup eui m.node_addrs)) hn ha
