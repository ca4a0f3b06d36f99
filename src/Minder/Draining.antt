-- ===== src/Minder/Draining.antt =====
-- Ticks in a row, until the queue of readings is empty, and what the table advises then.
use mathlib.Core.List.{append-nil, append_assoc}
use plant_minder.Base.{
  ap, sym, ◌∙◌, arith, ℕ, zero, suc, ◌*◌, ◌≤◌, ◌≡◌, refl, List, [], ◌∷◌, ◌++◌, true, false, some,
  Outcome, returns, take, drop, length, length-drop, take-append-drop, keep-append, ◌==◌, nat_eq,
}
use plant_minder.Net.{Ipv6Addr}
use plant_minder.Map.{lookup, IsMap}
use plant_minder.Broker.Types.{NodeSensorReading}
use plant_minder.Minder.{
  PlantMinder, Node, Nodes, tick, from_key, then_run, run, arrive, handle_event,
}
use plant_minder.Minder.Input.{Event, tick_event}
use plant_minder.Minder.Ticks.{receives, after_batch, tick_lem}
use plant_minder.Minder.Table.{Advice, advice, advice_for, advice_last}

abbrev pub ticks : ℕ → PlantMinder → Outcome PlantMinder
ticks zero m = returns m
ticks (suc k) m = then_run (tick m) (λ m'. ticks k m')

-- The advice once some more readings are in.
abbrev pub advice_after : List NodeSensorReading → Advice → Advice
advice_after [] a = a
advice_after (r ∷ rs) a = advice_after rs (advice_for r.reading.soil.moisture)

pub advice_after-append :
    (xs ys : List NodeSensorReading) (a : Advice)
    → advice_after (xs ++ ys) a ≡ advice_after ys (advice_after xs a)
advice_after-append [] ys a = refl
advice_after-append (x ∷ xs) ys a = advice_after-append xs ys (advice_for x.reading.soil.moisture)

advice-append : (h rs : List NodeSensorReading) → advice (h ++ rs) ≡ advice_after rs (advice h)
advice-append h [] = ap advice (append-nil h)
advice-append h (r ∷ rs) =
    ap advice (sym (append_assoc h (r ∷ []) rs))
    ∙ advice-append (h ++ r ∷ []) rs
    ∙ ap (advice_after rs) (advice_last h r)

receives_lem :
    (a : Node) (rs : List NodeSensorReading)
    → ((receives a rs).name ≡ a.name)
      × (advice (receives a rs).history ≡ advice_after rs (advice a.history))
receives_lem a [] = (refl, refl)
receives_lem a (r ∷ rs) = (
  refl,
  ground (arith, advice-append a.history (r ∷ rs), advice-append (drop 5 a.history) (r ∷ rs)),
)

emptied : (q : List NodeSensorReading) → length q ≤ 0 → q ≡ []
emptied [] h = refl
emptied (r ∷ q) h = absurd (omega arith)

from_key-parts :
    (j : Ipv6Addr) (n : ℕ) (q : List NodeSensorReading)
    → from_key j (take n q) ++ from_key j (drop n q) ≡ from_key j q
from_key-parts j n q =
    sym (keep-append (λ (r : NodeSensorReading). r.addr.ip == j) (take n q) (drop n q))
    ∙ ap (from_key j) (take-append-drop n q)

-- With a tick for each twenty readings the queue is empty in the end, and no tick panics. The table
-- advises on a plant by the newest of the readings that were in the queue, or as before if none was.
pub ticks_lem :
    (k : ℕ) (m : PlantMinder) (j : Ipv6Addr) (node : Node)
    → IsMap m.nodes
    → lookup j m.nodes ≡ some node
    → length m.data_queue ≤ 20 * k
    → (nodes' : Nodes) × (node' : Node) × (ticks k m
        ≡ returns (record m { data_queue = []; nodes = nodes' }))
      × (lookup j nodes' ≡ some node')
      × (node'.name ≡ node.name)
      × (advice node'.history ≡ advice_after (from_key j m.data_queue) (advice node.history))
ticks_lem zero m j node maps found few =
    let none_left = emptied m.data_queue (omega arith) in
    (
      m.nodes,
      node,
      ap (λ (q : List NodeSensorReading). returns (record m { data_queue = q })) none_left,
      found,
      refl,
      ap (λ q. advice_after (from_key j q) (advice node.history)) (sym none_left),
    )
ticks_lem (suc k) m j node maps found few =
    let taken = from_key j (take 20 m.data_queue) in
    let left = from_key j (drop 20 m.data_queue) in
    let (nodes1, ticked, maps1, look) = tick_lem m maps in
    let (named1, advised1) = receives_lem node taken in
    let (nodes2, node2, ended, found2, named2, advised2) =
      ticks_lem k (record m { data_queue = drop 20 m.data_queue; nodes = nodes1 }) j
        (receives node taken) maps1 (look j ∙ ap (after_batch taken) found)
        (omega (arith, length-drop 20 m.data_queue)) in
    (
      nodes2,
      node2,
      ap (λ o. then_run o (λ m'. ticks k m')) ticked ∙ ended,
      found2,
      named2 ∙ named1,
      advised2
          ∙ ap (advice_after left) advised1
          ∙ sym (advice_after-append taken left (advice node.history))
          ∙ ap (λ l. advice_after l (advice node.history)) (from_key-parts j 20 m.data_queue),
    )

-- Events that are ticks, between which nothing comes in.
abbrev pub tick_events : ℕ → List (List NodeSensorReading × Event)
tick_events zero = []
tick_events (suc k) = ([], tick_event) ∷ tick_events k

-- A loop that runs and has only ticks to handle does them in a row.
pub run-tick_events :
    (k : ℕ) (m : PlantMinder) → IsMap m.nodes → m.running ≡ true → run m (tick_events k) ≡ ticks k m
unfolding run handle_event
run-tick_events zero m maps running = refl
run-tick_events (suc k) m maps running =
    let (nodes1, ticked, maps1, _) = tick_lem m maps in
    let m1 = record m { data_queue = drop 20 m.data_queue; nodes = nodes1 } in
    let rest = λ (m' : PlantMinder). run m' (tick_events k) in
    let arrived : arrive [] m ≡ m =
      ap (λ (q : List NodeSensorReading). record m { data_queue = q }) (append-nil m.data_queue) in
    ap (λ b. elim b [ true ↦ then_run (tick (arrive [] m)) rest | false ↦ returns m ]) running
    ∙ ap (λ x. then_run (tick x) rest) arrived
    ∙ ap (λ o. then_run o rest) ticked
    ∙ run-tick_events k m1 maps1 running
    ∙ sym (ap (λ o. then_run o (λ m'. ticks k m')) ticked)
