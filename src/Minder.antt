-- ===== src/Minder.antt =====
-- The front end pmindd: `PlantMinder` of pmindd/src/minder.rs with its handlers, and the loop of
-- pmindd/src/bin/main.rs.
pub mod Input
pub mod Histories
pub mod Window
pub mod Ticks
pub mod Registering
pub mod Commands
pub mod Running
pub mod Draining
pub mod Order
pub mod Addresses
pub mod Table
use plant_minder.Base.{
  ℕ, zero, suc, ◌+◌, ◌-◌, ◌%◌, ◌^◌, List, [], ◌∷◌, ◌++◌, Bool, true, false, not, Option, none, some,
  if◌then◌else◌, leb, ltb, ◌==◌, nat_eq, list_eq, Outcome, returns, panics, take, drop, keep,
  length,
}
use plant_minder.Net.{Ipv6Addr}
use plant_minder.Map.{Map, lookup, insert, remove, contains_key, keys}
use plant_minder.Sensor.{SensorReading, Soil}
use plant_minder.Broker.Types.{
  Eui, NodeSensorReading, NodeState, unknown, online, NodeStatus, registration, termination,
  Registration,
}
use Input.{
  AppCmd, quit, invalid, error, next, back, up, down, Event, tick_event, app_cmd, node_state,
}
pub use Histories.{
  max_window, Node, Nodes, from_key, and_then, unless_empty, store_history, modify_entry,
}
unfoldable pub use Histories.{default_node, extend_history, new_data, distribute}

abbrev pub num_tabs : ℕ
num_tabs = 5

-- The table state of the terminal library and the optional database handle are left out: no
-- handler reads them.
pub record PlantMinder : Type 0 where
  pub running : Bool
  pub data_queue : List NodeSensorReading
  pub nodes : Nodes
  pub node_addrs : Map Eui Ipv6Addr
  pub read_timeout : ℕ
  pub tab : ℕ
  pub row : ℕ
  pub window_start : ℕ
  pub window_end : ℕ

unfoldable pub new : ℕ → PlantMinder
new read_timeout = record {
  running = true;
  data_queue = [];
  nodes = [];
  node_addrs = [];
  read_timeout = read_timeout;
  tab = 0;
  row = 0;
  window_start = 0;
  window_end = 0;
}

unfoldable pub quits : PlantMinder → PlantMinder
quits m = record m { running = false }

abbrev pub with_nodes : PlantMinder → Outcome Nodes → Outcome PlantMinder
with_nodes m panics = panics
with_nodes m (returns n) = returns (record m { nodes = n })

-- At most `limit` readings are taken off the queue. From an empty queue nothing is taken: the
-- timeout ends the wait.
unfoldable pub recv_many : ℕ → PlantMinder → Outcome PlantMinder
recv_many limit m =
    let buffer = take limit m.data_queue in
    with_nodes (record m { data_queue = drop limit m.data_queue })
      (distribute buffer (keys m.nodes) m.nodes)

unfoldable pub tick : PlantMinder → Outcome PlantMinder
unfolding recv_many
tick m = recv_many 20 m

abbrev pub history_of : Option Node → List NodeSensorReading
history_of none = []
history_of (some n) = n.history

abbrev pub history_at : Nodes → Option Ipv6Addr → List NodeSensorReading
history_at nodes none = []
history_at nodes (some previous) = history_of (lookup previous nodes)

abbrev pub remove_at : Nodes → Option Ipv6Addr → Nodes
remove_at nodes none = nodes
remove_at nodes (some p) = remove p nodes

abbrev pub is_empty {ℓ} : {A : Type ℓ} → List A → Bool
is_empty [] = true
is_empty (_ ∷ _) = false

-- `entry(addr).and_modify(|a| a.history.clone_from(&history)).or_insert(…)`
abbrev pub registered_entry : List NodeSensorReading → Registration → Option Node → Node
registered_entry history (eui, addr, name) none = record {
  addr = addr;
  eui = eui;
  name = name;
  history = history;
  state = online;
}
registered_entry history reg (some a) = record a { history = history }

abbrev pub register_with : PlantMinder → Registration → List NodeSensorReading → PlantMinder
register_with m (eui, addr, name) history =
    let kept = is_empty history in
    let nodes = if kept then m.nodes else remove_at m.nodes (lookup eui m.node_addrs) in
    let addrs = if kept then m.node_addrs else remove eui m.node_addrs in
    record m {
      node_addrs = insert eui addr addrs;
      nodes = insert addr (registered_entry history (eui, addr, name) (lookup addr nodes)) nodes;
    }

unfoldable pub node_registration : PlantMinder → Registration → PlantMinder
node_registration m (eui, addr, name) =
    register_with m (eui, addr, name) (history_at m.nodes (lookup eui m.node_addrs))

-- A `usize` wraps at 2 ^ 64.
unfoldable pub next_tab : ℕ → ℕ
next_tab tab = if tab == num_tabs - 1 then 0 else (tab + 1) % 2 ^ 64

unfoldable pub previous_tab : ℕ → ℕ
previous_tab tab = if tab == 0 then num_tabs - 1 else tab - 1

-- With no address on record the row would pass below zero, and stays at zero.
unfoldable pub row_above : ℕ → ℕ → ℕ
row_above row num_addrs =
    if row == 0 then (if num_addrs == 0 then 0 else num_addrs - 1) else row - 1

unfoldable pub handle_app_cmd : AppCmd → PlantMinder → PlantMinder
unfolding quits next_tab previous_tab row_above
handle_app_cmd quit m = quits m
handle_app_cmd next m = record m { tab = next_tab m.tab }
handle_app_cmd back m = record m { tab = previous_tab m.tab }
handle_app_cmd down m = record m { row = (m.row + 1) % 2 ^ 64 }
handle_app_cmd up m = record m { row = row_above m.row (length m.node_addrs) }
handle_app_cmd invalid m = m
handle_app_cmd error m = m

-- The end of a node is only logged.
unfoldable pub handle_node_state_change : NodeStatus → PlantMinder → PlantMinder
unfolding node_registration
handle_node_state_change (registration reg) m = node_registration m reg
handle_node_state_change (termination addr e) m = m

unfoldable pub handle_event : Event → PlantMinder → Outcome PlantMinder
unfolding tick handle_app_cmd handle_node_state_change
handle_event tick_event m = tick m
handle_event (app_cmd c) m = returns (handle_app_cmd c m)
handle_event (node_state s) m = returns (handle_node_state_change s m)

abbrev pub if_running : PlantMinder → (PlantMinder → Outcome PlantMinder) → Outcome PlantMinder
if_running m f = elim m.running [ true ↦ f m | false ↦ returns m ]

abbrev pub then_run :
    Outcome PlantMinder → (PlantMinder → Outcome PlantMinder) → Outcome PlantMinder
then_run panics f = panics
then_run (returns m) f = f m

-- Readings arrive at the queue whenever they come in.
abbrev pub arrive : List NodeSensorReading → PlantMinder → PlantMinder
arrive readings m = record m { data_queue = m.data_queue ++ readings }

-- `while app.running`: the loop of `main` over the events, each with the readings that came in
-- before it. It ends by itself when the events end.
unfoldable pub run : PlantMinder → List (List NodeSensorReading × Event) → Outcome PlantMinder
run m [] = returns m
run m ((arrived, e) ∷ rest) =
    if_running m (λ m'. then_run (handle_event e (arrive arrived m')) (λ m''. run m'' rest))
