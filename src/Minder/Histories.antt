-- ===== src/Minder/Histories.antt =====
-- The nodes of `PlantMinder` in pmindd/src/minder.rs, and how `recv_many` and `new_data` put the readings of
-- a batch behind their histories.
use plant_minder.Base.{
  ℕ, ◌+◌, List, [], ◌∷◌, ◌++◌, Option, none, some, if◌then◌else◌, leb, ltb, ◌==◌, nat_eq, list_eq,
  Outcome, returns, panics, drop, keep, length,
}
use plant_minder.Net.{Ipv6Addr}
use plant_minder.Map.{Map, lookup, insert}
use plant_minder.Broker.Types.{Eui, NodeSensorReading, NodeState, unknown}

abbrev pub max_window : ℕ
max_window = 50

pub record Node : Type 0 where
  pub addr : Ipv6Addr
  pub eui : Eui
  pub name : List ℕ
  pub history : List NodeSensorReading
  pub state : NodeState

unfoldable pub default_node : Node
default_node = record {
  addr = 0;
  eui = 0 ∷ 0 ∷ 0 ∷ 0 ∷ 0 ∷ 0 ∷ [];
  name = [];
  history = [];
  state = unknown;
}

abbrev pub Nodes : Type 0
Nodes = Map Ipv6Addr Node

-- What `new_data` does to a node's history: `drain(..5)` panics on fewer than five readings.
unfoldable pub extend_history :
    List NodeSensorReading → List NodeSensorReading → Outcome (List NodeSensorReading)
extend_history history readings =
    if leb max_window (length history + length readings)
    then if ltb (length history) 5 then panics else returns (drop 5 history ++ readings)
    else returns (history ++ readings)

abbrev pub store_history :
    Nodes → Ipv6Addr → Node → Outcome (List NodeSensorReading) → Outcome Nodes
store_history nodes key a panics = panics
store_history nodes key a (returns h) = returns (insert key (record a { history = h }) nodes)

abbrev pub modify_entry : Nodes → Ipv6Addr → List NodeSensorReading → Option Node → Outcome Nodes
modify_entry nodes key readings none = returns (insert key default_node nodes)
modify_entry nodes key readings (some a) =
    store_history nodes key a (extend_history a.history readings)

unfoldable pub new_data : Nodes → Ipv6Addr → List NodeSensorReading → Outcome Nodes
new_data nodes key readings = modify_entry nodes key readings (lookup key nodes)

-- The readings of a batch that come from the address.
abbrev pub from_key : Ipv6Addr → List NodeSensorReading → List NodeSensorReading
from_key key buffer = keep (λ (r : NodeSensorReading). r.addr.ip == key) buffer

abbrev pub and_then : Outcome Nodes → (Nodes → Outcome Nodes) → Outcome Nodes
and_then panics f = panics
and_then (returns n) f = f n

abbrev pub unless_empty : Nodes → Ipv6Addr → List NodeSensorReading → Outcome Nodes
unless_empty nodes key [] = returns nodes
unless_empty nodes key (r ∷ rs) = new_data nodes key (r ∷ rs)

-- The loop over the addresses that were known when the batch came in.
unfoldable pub distribute : List NodeSensorReading → List Ipv6Addr → Nodes → Outcome Nodes
distribute buffer [] nodes = returns nodes
distribute buffer (key ∷ rest) nodes =
    and_then (unless_empty nodes key (from_key key buffer)) (λ n. distribute buffer rest n)
