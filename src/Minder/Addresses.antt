-- ===== src/Minder/Addresses.antt =====
-- Where the plants are, as the front end has it from the states of the nodes.
use plant_minder.Base.{
  ℕ, ◌≡◌, refl, ap, sym, ◌∙◌, List, [], ◌∷◌, ◌++◌, true, Option, some, returns, if◌then◌else◌, ◌==◌,
  list_eq, nat_eq, arith, All,
}
use plant_minder.Net.{Ipv6Addr}
use plant_minder.Map.{lookup, remove}
use plant_minder.Map.Laws.{lookup-insert, lookup-remove}
use plant_minder.Broker.Types.{Eui, NodeSensorReading, NodeStatus, registration, termination}
use plant_minder.Minder.{
  PlantMinder, handle_app_cmd, handle_node_state_change, handle_event, arrive, run, register_with,
  node_registration,
}
use plant_minder.Minder.Input.{
  AppCmd, quit, invalid, error, next, back, up, down, Event, tick_event, app_cmd, node_state,
}
use plant_minder.Minder.Ticks.{tick_lem}
use plant_minder.Minder.Running.{IsSound, handle_app_cmd-IsSound, handle_node_state_change-IsSound}
use plant_minder.Minder.Order.View.{turn_on}

abbrev pub latest_addr : Eui → List NodeStatus → Option Ipv6Addr → Option Ipv6Addr
latest_addr e [] o = o
latest_addr e (registration (eui, addr, name) ∷ rest) o =
    latest_addr e rest (if eui == e then some addr else o)
latest_addr e (termination addr x ∷ rest) o = latest_addr e rest o

abbrev pub status_of : Event → List NodeStatus
status_of (node_state s) = s ∷ []
status_of _ = []

abbrev pub statuses_in : List (List NodeSensorReading × Event) → List NodeStatus
statuses_in [] = []
statuses_in ((arrived, e) ∷ rest) = status_of e ++ statuses_in rest

-- The event does not stop the program.
abbrev pub GoesOn : List NodeSensorReading × Event → Type 0
GoesOn (arrived, app_cmd quit) = ⊥
GoesOn _ = Unit {0}

register_with-node_addrs :
    (m : PlantMinder) (eui e : Eui) (addr : Ipv6Addr) (name : List ℕ)
    (history : List NodeSensorReading)
    → lookup e (register_with m (eui, addr, name) history).node_addrs
      ≡ (if eui == e then some addr else lookup e m.node_addrs)
register_with-node_addrs m eui e addr name [] = lookup-insert eui e addr m.node_addrs
register_with-node_addrs m eui e addr name (r ∷ rs) =
    lookup-insert eui e addr (remove eui m.node_addrs)
    ∙ ground (arith, lookup-remove eui e m.node_addrs)

status-node_addrs :
    (s : NodeStatus) (m : PlantMinder) (e : Eui)
    → lookup e (handle_node_state_change s m).node_addrs
      ≡ latest_addr e (s ∷ []) (lookup e m.node_addrs)
unfolding handle_node_state_change node_registration
status-node_addrs (registration (eui, addr, name)) m e =
    register_with-node_addrs m eui e addr name _
status-node_addrs (termination addr x) m e = refl

-- A command that does not stop the program leaves the addresses and goes on.
command-node_addrs :
    (c : AppCmd) (m : PlantMinder) (arrived : List NodeSensorReading)
    → GoesOn (arrived, app_cmd c)
    → ((handle_app_cmd c m).running ≡ m.running) × ((handle_app_cmd c m).node_addrs ≡ m.node_addrs)
unfolding handle_app_cmd
command-node_addrs quit m arrived h = absurd h
command-node_addrs next m arrived h = (refl, refl)
command-node_addrs back m arrived h = (refl, refl)
command-node_addrs up m arrived h = (refl, refl)
command-node_addrs down m arrived h = (refl, refl)
command-node_addrs invalid m arrived h = (refl, refl)
command-node_addrs error m arrived h = (refl, refl)

status-running :
    (s : NodeStatus) (m : PlantMinder) → (handle_node_state_change s m).running ≡ m.running
unfolding handle_node_state_change node_registration
status-running (registration (eui, addr, name)) m = refl
status-running (termination addr x) m = refl

event-node_addrs :
    (ev : Event) (m : PlantMinder) (arrived : List NodeSensorReading) (e : Eui)
    → GoesOn (arrived, ev)
    → IsSound m
    → (m' : PlantMinder) × (handle_event ev m ≡ returns m')
      × IsSound m'
      × (m'.running ≡ m.running)
      × (lookup e m'.node_addrs ≡ latest_addr e (status_of ev) (lookup e m.node_addrs))
unfolding handle_event
event-node_addrs tick_event m arrived e h sound =
    let (nodes', ticked, maps, look) = tick_lem m sound.0 in
    (record m { data_queue = _; nodes = nodes' }, ticked, (maps, sound.1), refl, refl)
event-node_addrs (app_cmd c) m arrived e h sound =
    let (running, addrs) = command-node_addrs c m arrived h in
    (handle_app_cmd c m, refl, handle_app_cmd-IsSound c m sound, running, ap (lookup e) addrs)
event-node_addrs (node_state s) m arrived e h sound = (
  handle_node_state_change s m,
  refl,
  handle_node_state_change-IsSound s m sound,
  status-running s m,
  status-node_addrs s m e,
)

latest_addr-append :
    (e : Eui) (xs ys : List NodeStatus) (o : Option Ipv6Addr)
    → latest_addr e (xs ++ ys) o ≡ latest_addr e ys (latest_addr e xs o)
latest_addr-append e [] ys o = refl
latest_addr-append e (registration (eui, addr, name) ∷ xs) ys o =
    latest_addr-append e xs ys (if eui == e then some addr else o)
latest_addr-append e (termination addr x ∷ xs) ys o = latest_addr-append e xs ys o

-- Unless it is stopped, a program that runs has each plant at the address of its last registration
-- once it has handled some events, whatever else they are.
pub run-node_addrs :
    (es : List (List NodeSensorReading × Event)) (m : PlantMinder) (e : Eui)
    → All GoesOn es
    → IsSound m
    → m.running ≡ true
    → (m' : PlantMinder) × (run m es ≡ returns m')
      × (lookup e m'.node_addrs ≡ latest_addr e (statuses_in es) (lookup e m.node_addrs))
unfolding run
run-node_addrs [] m e h sound on = (m, refl, refl)
run-node_addrs ((arrived, ev) ∷ rest) m e h sound on =
    let (m1, handled, sound1, running1, addr1) =
      event-node_addrs ev (arrive arrived m) arrived e h.0 sound in
    let (m2, ended, addr2) = run-node_addrs rest m1 e h.1 sound1 (running1 ∙ on) in
    (
      m2,
      turn_on arrived ev rest m m1 on handled ∙ ended,
      addr2
          ∙ ap (latest_addr e (statuses_in rest)) addr1
          ∙ sym (latest_addr-append e (status_of ev) (statuses_in rest) (lookup e m.node_addrs)),
    )
