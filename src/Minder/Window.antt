-- ===== src/Minder/Window.antt =====
-- The history of a node and its window.
use plant_minder.Base.{
  refl, ap, ◌∙◌, Outcome, panics, ℕ, zero, suc, ◌+◌, ◌-◌, ◌*◌, ◌≤◌, ◌≡◌, List, ◌++◌, returns, drop,
  length, length-append, length-drop, leb, if◌then◌else◌, arith,
}
use plant_minder.Broker.Types.{NodeSensorReading}
use plant_minder.Minder.{max_window, extend_history}

-- The history after a batch, where the batch does not panic.
abbrev pub window : List NodeSensorReading → List NodeSensorReading → List NodeSensorReading
window h d = if leb max_window (length h + length d) then drop 5 h ++ d else h ++ d

-- A batch of at most twenty readings, as a tick takes them, never panics.
pub extend_history-window :
    (h d : List NodeSensorReading) → length d ≤ 20 → extend_history h d ≡ returns (window h d)
unfolding extend_history
extend_history-window h d small = ground arith

-- A batch that fills the window costs the five oldest readings, however long it is.
extend_history-full :
    (h d : List NodeSensorReading)
    → max_window ≤ length h + length d
    → 5 ≤ length h
    → (extend_history h d ≡ returns (drop 5 h ++ d))
      × (length (drop 5 h ++ d) + 5 ≡ length h + length d)
unfolding extend_history
extend_history-full h d full old =
    (ground arith, ground (arith, length-append (drop 5 h) d, length-drop 5 h))

abbrev pub then_extend :
    List NodeSensorReading → Outcome (List NodeSensorReading) → Outcome (List NodeSensorReading)
then_extend d panics = panics
then_extend d (returns h) = extend_history h d

-- The history after `n` batches like `d`.
abbrev pub after_batches :
    ℕ → List NodeSensorReading → List NodeSensorReading → Outcome (List NodeSensorReading)
after_batches zero h d = returns h
after_batches (suc n) h d = then_extend d (after_batches n h d)

-- Once a history of at least five readings and a batch of as many fill the window, each such batch
-- makes the history longer by all but five of the batch's readings, and none panics.
pub window_unbounded :
    (n : ℕ) (h d : List NodeSensorReading)
    → max_window ≤ length h + length d
    → 5 ≤ length d
    → 5 ≤ length h
    → (h' : List NodeSensorReading) × (after_batches n h d ≡ returns h')
      × (length h' ≡ length h + n * (length d - 5))
window_unbounded zero h d full big old = (h, refl, omega arith)
window_unbounded (suc n) h d full big old =
    let (h', reached, longer) = window_unbounded n h d full big old in
    let (extends, by) = extend_history-full h' d (omega arith) (omega arith) in
    (drop 5 h' ++ d, ap (then_extend d) reached ∙ extends, ground (arith, longer, by))
