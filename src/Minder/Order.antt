-- ===== src/Minder/Order.antt =====
-- The order of iteration of the two maps, which Rust leaves open, and the handlers of the front end.
use mathlib.Core.Path.{subst}
pub mod View
use plant_minder.Base.{
  ◌≡◌, refl, ap, sym, ◌∙◌, inl, inr, List, [], ◌∷◌, ◌++◌, true, false, Option, none, some, Outcome,
  panics, returns, take, drop, length, nat_eq, list_eq, Bool-cases,
}
use plant_minder.Net.{Ipv6Addr}
use plant_minder.Map.{lookup}
use plant_minder.Map.Same.{SameMap, insert-SameMap, remove-SameMap, length-SameMap}
use plant_minder.Broker.Types.{
  NodeSensorReading, NodeStatus, Registration, registration, termination,
}
use plant_minder.Minder.{
  PlantMinder, Nodes, quits, next_tab, previous_tab, row_above, handle_app_cmd,
  handle_node_state_change, handle_event, arrive, run, history_of, history_at, remove_at,
  registered_entry, register_with, node_registration, from_key, then_run,
}
use plant_minder.Minder.Input.{
  AppCmd, quit, invalid, error, next, back, up, down, Event, tick_event, app_cmd, node_state,
}
use plant_minder.Minder.Ticks.{after_batch, tick_lem}
use plant_minder.Minder.Running.{
  IsSound, handle_app_cmd-IsSound, handle_node_state_change-IsSound, run_returns, if_running-on,
  run-stopped,
}

-- All is the same but the order of the entries.
pub record Same (m w : PlantMinder) : Type 0 where
  pub nodes : SameMap m.nodes w.nodes
  pub addrs : SameMap m.node_addrs w.node_addrs
  pub others : m ≡ record w { nodes = m.nodes; node_addrs = m.node_addrs }

pub arrive-Same :
    (arrived : List NodeSensorReading) (m w : PlantMinder)
    → Same m w
    → Same (arrive arrived m) (arrive arrived w)
arrive-Same arrived m w same = record {
  nodes = same.nodes;
  addrs = same.addrs;
  others = ap (arrive arrived) same.others;
}

handle_app_cmd-Same :
    (c : AppCmd) (m w : PlantMinder)
    → IsSound m
    → IsSound w
    → Same m w
    → Same (handle_app_cmd c m) (handle_app_cmd c w)
unfolding handle_app_cmd quits
handle_app_cmd-Same quit m w hm hw same = record {
  nodes = same.nodes;
  addrs = same.addrs;
  others = ap quits same.others;
}
handle_app_cmd-Same next m w hm hw same = record {
  nodes = same.nodes;
  addrs = same.addrs;
  others = ap (handle_app_cmd next) same.others;
}
handle_app_cmd-Same back m w hm hw same = record {
  nodes = same.nodes;
  addrs = same.addrs;
  others = ap (handle_app_cmd back) same.others;
}
handle_app_cmd-Same down m w hm hw same = record {
  nodes = same.nodes;
  addrs = same.addrs;
  others = ap (handle_app_cmd down) same.others;
}
handle_app_cmd-Same up m w hm hw same = record {
  nodes = same.nodes;
  addrs = same.addrs;
  others =
      ap (handle_app_cmd up) same.others
      ∙ ap (λ n. record w { nodes = m.nodes; node_addrs = m.node_addrs; row = row_above w.row n })
          (length-SameMap m.node_addrs w.node_addrs hm.1 hw.1 same.addrs);
}
handle_app_cmd-Same invalid m w hm hw same = same
handle_app_cmd-Same error m w hm hw same = same

remove_at-Same :
    (a b : Nodes) (o : Option Ipv6Addr) → SameMap a b → SameMap (remove_at a o) (remove_at b o)
remove_at-Same a b none same = same
remove_at-Same a b (some p) same = remove-SameMap p a b same

history_at-Same :
    (a b : Nodes) (o : Option Ipv6Addr) → SameMap a b → history_at a o ≡ history_at b o
history_at-Same a b none same = refl
history_at-Same a b (some p) same = ap history_of (same p)

register_with-Same :
    (m w : PlantMinder) (reg : Registration) (history : List NodeSensorReading)
    → Same m w
    → Same (register_with m reg history) (register_with w reg history)
register_with-Same m w (eui, addr, name) [] same =
    let m' = register_with m (eui, addr, name) [] in
    record {
      nodes =
          insert-SameMap addr _ _ m.nodes w.nodes
            (ap (registered_entry [] (eui, addr, name)) (same.nodes addr)) same.nodes;
      addrs = insert-SameMap eui addr addr m.node_addrs w.node_addrs refl same.addrs;
      others =
          ap (λ (x : PlantMinder). record x { node_addrs = m'.node_addrs; nodes = m'.nodes })
            same.others;
    }
register_with-Same m w (eui, addr, name) (r ∷ rs) same =
    let m' = register_with m (eui, addr, name) (r ∷ rs) in
    let left : SameMap (remove_at m.nodes (lookup eui m.node_addrs))
        (remove_at w.nodes (lookup eui w.node_addrs)) =
      λ j.
        remove_at-Same m.nodes w.nodes (lookup eui m.node_addrs) same.nodes j
        ∙ ap (λ o. lookup j (remove_at w.nodes o)) (same.addrs eui) in
    record {
      nodes =
          insert-SameMap addr _ _ _ _ (ap (registered_entry (r ∷ rs) (eui, addr, name)) (left addr))
            left;
      addrs =
          insert-SameMap eui addr addr _ _ refl
            (remove-SameMap eui m.node_addrs w.node_addrs same.addrs);
      others =
          ap (λ (x : PlantMinder). record x { node_addrs = m'.node_addrs; nodes = m'.nodes })
            same.others;
    }

node_registration-Same :
    (m w : PlantMinder) (reg : Registration)
    → Same m w
    → Same (node_registration m reg) (node_registration w reg)
unfolding node_registration
node_registration-Same m w (eui, addr, name) same =
    subst (λ h. Same (node_registration m (eui, addr, name)) (register_with w (eui, addr, name) h))
      (history_at-Same m.nodes w.nodes (lookup eui m.node_addrs) same.nodes
        ∙ ap (history_at w.nodes) (same.addrs eui))
      (register_with-Same m w (eui, addr, name) (history_at m.nodes (lookup eui m.node_addrs)) same)

handle_node_state_change-Same :
    (s : NodeStatus) (m w : PlantMinder)
    → Same m w
    → Same (handle_node_state_change s m) (handle_node_state_change s w)
unfolding handle_node_state_change
handle_node_state_change-Same (registration reg) m w same = node_registration-Same m w reg same
handle_node_state_change-Same (termination addr e) m w same = same

-- Both programs come to an end, in states that differ in the order of the entries at most.
abbrev pub Agree : Outcome PlantMinder → Outcome PlantMinder → Type 0
Agree o p =
    (m : PlantMinder) × (w : PlantMinder) × (o ≡ returns m)
    × (p ≡ returns w)
    × IsSound m
    × IsSound w
    × Same m w

tick-Same :
    (m w : PlantMinder)
    → IsSound m
    → IsSound w
    → Same m w
    → Agree (handle_event tick_event m) (handle_event tick_event w)
unfolding handle_event
tick-Same m w hm hw same =
    let (nodes, ticked, maps, look) = tick_lem m hm.0 in
    let (nodes', ticked', maps', look') = tick_lem w hw.0 in
    let queues : m.data_queue ≡ w.data_queue = ap (λ (x : PlantMinder). x.data_queue) same.others in
    (
      record m { data_queue = drop 20 m.data_queue; nodes = nodes },
      record w { data_queue = drop 20 w.data_queue; nodes = nodes' },
      ticked,
      ticked',
      (maps, hm.1),
      (maps', hw.1),
      record {
        nodes = λ j.
            look j
            ∙ ap (λ q. after_batch (from_key j (take 20 q)) (lookup j m.nodes)) queues
            ∙ ap (after_batch (from_key j (take 20 w.data_queue))) (same.nodes j)
            ∙ sym (look' j);
        addrs = same.addrs;
        others =
            ap (λ (x : PlantMinder). record x { data_queue = drop 20 x.data_queue; nodes = nodes })
              same.others;
      },
    )

pub handle_event-Same :
    (e : Event) (m w : PlantMinder)
    → IsSound m
    → IsSound w
    → Same m w
    → Agree (handle_event e m) (handle_event e w)
unfolding handle_event
handle_event-Same tick_event m w hm hw same = tick-Same m w hm hw same
handle_event-Same (app_cmd c) m w hm hw same = (
  handle_app_cmd c m,
  handle_app_cmd c w,
  refl,
  refl,
  handle_app_cmd-IsSound c m hm,
  handle_app_cmd-IsSound c w hw,
  handle_app_cmd-Same c m w hm hw same,
)
handle_event-Same (node_state s) m w hm hw same = (
  handle_node_state_change s m,
  handle_node_state_change s w,
  refl,
  refl,
  handle_node_state_change-IsSound s m hm,
  handle_node_state_change-IsSound s w hw,
  handle_node_state_change-Same s m w same,
)
