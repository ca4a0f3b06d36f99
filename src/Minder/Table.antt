-- ===== src/Minder/Table.antt =====
-- The table of nodes of `render_node_last_table` in pmindd/src/minder.rs: the column that says how a
-- plant does, and what a tick makes of it.
use mathlib.Core.List.{append_assoc}
use plant_minder.Base.{
  ap, ◌∙◌, arith, list_eq, ℕ, ◌≡◌, refl, List, [], ◌∷◌, ◌++◌, some, if◌then◌else◌, leb, returns,
  take, drop, nat_eq,
}
use plant_minder.Net.{Ipv6Addr}
use plant_minder.Map.{lookup, IsMap}
use plant_minder.Broker.Types.{NodeSensorReading}
use plant_minder.Minder.{PlantMinder, Node, tick, from_key}
use plant_minder.Minder.Ticks.{receives, after_batch, tick_lem}

pub data Advice : Type 0 where
  waiting good_and_moist ok_for_now danger_zone water_me invalid_reading : Advice

-- The state column of the table of nodes, by the last reading's soil moisture.
unfoldable pub advice_for : ℕ → Advice
advice_for m =
    if leb 750 m
    then (if leb m 1500 then good_and_moist else invalid_reading)
    else if leb 501 m
    then ok_for_now
    else if leb 401 m
    then danger_zone
    else if leb 250 m
    then water_me
    else invalid_reading

unfoldable pub advice : List NodeSensorReading → Advice
unfolding advice_for
advice [] = waiting
advice (r ∷ []) = advice_for r.reading.soil.moisture
advice (r ∷ r' ∷ rest) = advice (r' ∷ rest)

pub advice_last :
    (h : List NodeSensorReading) (r : NodeSensorReading)
    → advice (h ++ r ∷ []) ≡ advice_for r.reading.soil.moisture
unfolding advice
advice_last [] r = refl
advice_last (x ∷ []) r = refl
advice_last (x ∷ y ∷ h) r = advice_last (y ∷ h) r

-- The last reading of a batch is the last of the history after it.
advice-receives :
    (a : Node) (older : List NodeSensorReading) (r : NodeSensorReading)
    → advice (receives a (older ++ r ∷ [])).history ≡ advice_for r.reading.soil.moisture
advice-receives a [] r = ground (arith, advice_last a.history r, advice_last (drop 5 a.history) r)
advice-receives a (x ∷ older) r = ground (
  arith,
  append_assoc a.history (x ∷ older) (r ∷ []),
  append_assoc (drop 5 a.history) (x ∷ older) (r ∷ []),
  advice_last (a.history ++ x ∷ older) r,
  advice_last (drop 5 a.history ++ x ∷ older) r,
)

-- After a tick, the table advises on a plant by the newest of the readings that the tick took for
-- its address, whatever the history is and however much of it the window gives up.
pub advice-tick :
    (m : PlantMinder) (j : Ipv6Addr) (node : Node) (older : List NodeSensorReading)
    (newest : NodeSensorReading)
    → IsMap m.nodes
    → lookup j m.nodes ≡ some node
    → from_key j (take 20 m.data_queue) ≡ older ++ newest ∷ []
    → (m' : PlantMinder) × (node' : Node) × (tick m ≡ returns m')
      × (lookup j m'.nodes ≡ some node')
      × (advice node'.history ≡ advice_for newest.reading.soil.moisture)
advice-tick m j node older newest h found taken =
    let (nodes', returned, maps, look) = tick_lem m h in
    (
      record m { data_queue = drop 20 m.data_queue; nodes = nodes' },
      receives node (older ++ newest ∷ []),
      returned,
      look j
          ∙ ap (λ b. after_batch b (lookup j m.nodes)) taken
          ∙ ap (after_batch (older ++ newest ∷ [])) found,
      advice-receives node older newest,
    )
