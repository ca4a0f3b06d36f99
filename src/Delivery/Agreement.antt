-- ===== src/Delivery/Agreement.antt =====
-- The front end and the database, both clients of Broker.Hub, on where the plants are.
use plant_minder.Base.{
  ℕ, ◌≡◌, refl, ap, sym, ◌∙◌, inl, inr, List, [], ◌∷◌, ◌++◌, Bool, true, Option, none, some,
  returns, ◌==◌, list_eq, arith, All, length, length-append, take, take-length-append, Bool-cases,
}
use plant_minder.Net.{Ipv6Addr}
use plant_minder.Text.{Text}
use plant_minder.Map.{lookup}
use plant_minder.Broker.Types.{Eui, NodeSensorReading, NodeStatus, registration, termination}
use plant_minder.Broker.Hub.{Sender, Broker, Step, event_loop}
use plant_minder.Broker.Hub.FanOut.{statuses_to, NoApi}
use plant_minder.Broker.Hub.Interleaving.{Listens, event_loop-Conserves}
use plant_minder.Minder.{PlantMinder, run}
use plant_minder.Minder.Input.{Event}
use plant_minder.Minder.Running.{IsSound}
use plant_minder.Minder.Addresses.{latest_addr, statuses_in, GoesOn, run-node_addrs}
use plant_minder.Database.{Sql, PlantRecord, Conversions, new_plant, registry_task}
use plant_minder.Database.Laws.{SqlLaws}
use plant_minder.Database.Plants.{registered_plant}
use plant_minder.Database.Registry.{Succeeds, one_by_one, registry_one_by_one}

cancel_right {ℓ} : {A : Type ℓ} (xs ys zs : List A) → xs ++ zs ≡ ys ++ zs → xs ≡ ys
cancel_right xs ys zs h =
    let sizes = ap length h in
    sym (take-length-append xs zs)
    ∙ ap (take (length xs)) h
    ∙ ap (λ n. take n (ys ++ zs)) (omega (arith, sizes, length-append xs zs, length-append ys zs))
    ∙ take-length-append ys zs

-- Two clients that are subscribed once and listen are told the same states of the nodes.
told_alike :
    (alive : Sender → Bool) (c d c' d' : Sender) (b : Broker) (schedule : List Step)
    → All NoApi schedule
    → Listens alive c d b
    → Listens alive c' d' b
    → statuses_to d (event_loop alive b schedule).1 ≡ statuses_to d' (event_loop alive b schedule).1
told_alike alive c d c' d' b schedule same listens listens' = cancel_right _ _ _ (
    (event_loop-Conserves alive c d b schedule same listens).statuses
    ∙ sym (event_loop-Conserves alive c' d' b schedule same listens').statuses)

abbrev pub addr_of : Option PlantRecord → Option Text
addr_of none = none
addr_of (some p) = some p.addr

abbrev pub shown : (Ipv6Addr → Text) → Option Ipv6Addr → Option Text
shown show none = none
shown show (some a) = some (show a)

registered-addr :
    (c : Conversions) (eui : Eui) (addr : Ipv6Addr) (name : List ℕ) (o : Option PlantRecord)
    → addr_of (some (registered_plant c (record { eui = eui; addr = addr; name = name }) o))
      ≡ some (c.show addr)
unfolding new_plant
registered-addr c eui addr name none = refl
registered-addr c eui addr name (some old) = refl

one_by_one-addr :
    (c : Conversions) (e : Eui) (es : List NodeStatus) (o : Option PlantRecord)
    (a : Option Ipv6Addr)
    → addr_of o ≡ shown c.show a
    → addr_of (one_by_one c e es o) ≡ shown c.show (latest_addr e es a)
one_by_one-addr c e [] o a h = h
one_by_one-addr c e (registration (eui, addr, name) ∷ rest) o a h = elim (Bool-cases (eui == e)) [
  | inl here ↦ rw here (one_by_one-addr c e rest _ (some addr) (registered-addr c eui addr name o))
  | inr elsewhere ↦ rw elsewhere (one_by_one-addr c e rest o a h)
]
one_by_one-addr c e (termination addr x ∷ rest) o a h = one_by_one-addr c e rest o a h

-- If the front end and the database have a plant at the same address, or both at none, they have it at
-- the same address again once they have handled all that the event loop has sent them, whatever that
-- is and however the readings and the keys come in between at the front end. Both are subscribed once
-- and listen, the clients stay the same, the front end runs and is not stopped, its maps repeat no key,
-- and every registration of the database succeeds.
pub clients_agree :
    (alive : Sender → Bool) (c d c' d' : Sender) (b : Broker) (schedule : List Step)
    (m : PlantMinder) (es : List (List NodeSensorReading × Event)) (Q : Sql) (L : SqlLaws Q)
    (conv : Conversions) (st : Q.Store) (e : Eui)
    → All NoApi schedule
    → Listens alive c d b
    → Listens alive c' d' b
    → statuses_in es ≡ statuses_to d (event_loop alive b schedule).1
    → All GoesOn es
    → IsSound m
    → m.running ≡ true
    → Succeeds Q L conv
    → addr_of (lookup e (L.tables st).plants) ≡ shown conv.show (lookup e m.node_addrs)
    → (m' : PlantMinder) × (run m es ≡ returns m')
      × (addr_of (
            lookup e
              (L.tables
                (registry_task Q conv (statuses_to d' (event_loop alive b schedule).1) st)).plants)
          ≡ shown conv.show (lookup e m'.node_addrs))
clients_agree alive c d c' d' b schedule m es Q L conv st e same listens listens' handled goes sound
      on done agree =
    let told = statuses_to d' (event_loop alive b schedule).1 in
    let (m', ended, addrs) = run-node_addrs es m e goes sound on in
    let heard : statuses_in es ≡ told =
      handled ∙ told_alike alive c d c' d' b schedule same listens listens' in
    (
      m',
      ended,
      ap addr_of (registry_one_by_one Q L conv e told st done)
          ∙ one_by_one-addr conv e told (lookup e (L.tables st).plants) (lookup e m.node_addrs)
              agree
          ∙ ap (λ l. shown conv.show (latest_addr e l (lookup e m.node_addrs))) (sym heard)
          ∙ ap (shown conv.show) (sym addrs),
    )
