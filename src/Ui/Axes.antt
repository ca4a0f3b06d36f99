-- ===== src/Ui/Axes.antt =====
-- The axes of the graphs of pmindd/src/ui/history.rs: `min_t` and `max_l`.
use mathlib.Core.Path.{subst}
use plant_minder.Base.{
  ℕ, ◌≤◌, ◌≡◌, ◌≢◌, refl, sym, ap, ◌⊎◌, inl, inr, List, [], ◌∷◌, true, false, some, ltb, ◌==◌,
  nat_eq, All, arith, Bool-cases,
}
use plant_minder.Broker.Types.{NodeSensorReading}
use plant_minder.Ui.History.{
  F64Ops, HistoryView, lux, lumens, temp, moisture, Chart, scan, follow, point, light_count,
  chart_for, chart_of, render_lumens, render_graph, render_lux, render_temp, render_moisture,
}

module _ (f : F64Ops) where
  abbrev pub follow_all : f.F64 → List f.F64 → f.F64
  follow_all m [] = m
  follow_all m (v ∷ vs) = follow_all (follow f m v) vs

  abbrev pub times : List NodeSensorReading → List f.F64
  times [] = []
  times (h ∷ history) = f.from_i64 h.reading.ts ∷ times history

  abbrev pub counts : List NodeSensorReading → List f.F64
  counts [] = []
  counts (h ∷ history) = light_count f h ∷ counts history

  abbrev pub points : HistoryView → List NodeSensorReading → List (f.F64 × f.F64)
  points view [] = []
  points view (h ∷ history) = point f view h ∷ points view history

  scan_lem :
      (view : HistoryView) (t l : f.F64) (history : List NodeSensorReading)
      → scan f view t l history
        ≡ (points view history, follow_all t (times history), follow_all l (counts history))
  unfolding scan
  scan_lem view t l [] = refl
  scan_lem view t l (h ∷ history) =
      ap (λ (r : List (f.F64 × f.F64) × f.F64 × f.F64). (point f view h ∷ r.0, r.1, r.2))
        (scan_lem view (follow f t (f.from_i64 h.reading.ts)) (follow f l (light_count f h))
          history)

-- The numbers among the floats, which include zero, are compared by their ranks.
module _ (f : F64Ops) (IsNumber : f.F64 → Type 0) (rank : f.F64 → ℕ)
    (zero_IsNumber : IsNumber (f.from_nat 0))
    (lt_rank : (v w : f.F64) → IsNumber v → IsNumber w → f.lt v w ≡ ltb (rank v) (rank w))
    (eq_rank : (v w : f.F64) → IsNumber v → IsNumber w → f.eq v w ≡ (rank v == rank w)) where
  -- A number other than zero.
  abbrev pub IsNonzero : f.F64 → Type 0
  IsNonzero v = IsNumber v × (rank v ≢ rank (f.from_nat 0))

  abbrev pub Among : f.F64 → List f.F64 → Type 0
  Among x [] = ⊥
  Among x (v ∷ vs) = (x ≡ v) ⊎ Among x vs

  -- One of the values, and none is below it.
  abbrev pub IsLeast : f.F64 → List f.F64 → Type 0
  IsLeast x vs = Among x vs × All (λ v. rank x ≤ rank v) vs

  nonzero_lem : (m : f.F64) → IsNonzero m → f.eq m (f.from_nat 0) ≡ false
  nonzero_lem m (h, k) = ground (arith, eq_rank m (f.from_nat 0) h zero_IsNumber, k)

  -- The first value is taken as it is.
  follow_first : (v : f.F64) → IsNonzero v → follow f (f.from_nat 0) v ≡ v
  follow_first v (h, k) = rw (unset, smaller) refl
    where
      unset : f.eq (f.from_nat 0) (f.from_nat 0) ≡ true
      unset = ground (arith, eq_rank (f.from_nat 0) (f.from_nat 0) zero_IsNumber zero_IsNumber)

      smaller : f.lt v v ≡ false
      smaller = ground (arith, lt_rank v v h h)

  -- Each further one is compared with the least so far.
  follow_min :
      (m v : f.F64)
      → IsNonzero m
      → IsNonzero v
      → ((follow f m v ≡ m) × (rank m ≤ rank v)) ⊎ ((follow f m v ≡ v) × (rank v ≤ rank m))
  follow_min m v (hm, km) (hv, kv) = elim (Bool-cases (f.lt v m)) [
    | inl below ↦
        inr (rw (nonzero_lem m (hm, km), below) refl, ground (arith, lt_rank v m hv hm, below))
    | inr above ↦
        inl (rw (nonzero_lem m (hm, km), above) refl, ground (arith, lt_rank v m hv hm, above))
  ]

  -- A least value of the rest and a value are a least value of the whole, in either order.
  keep_first :
      (r m v : f.F64) (vs : List f.F64)
      → rank m ≤ rank v
      → IsLeast r (m ∷ vs)
      → IsLeast r (m ∷ v ∷ vs)
  keep_first r m v vs h (inl e, (low, all)) = (inl e, (low, (omega arith, all)))
  keep_first r m v vs h (inr e, (low, all)) = (inr (inr e), (low, (omega arith, all)))

  keep_second :
      (r m v : f.F64) (vs : List f.F64)
      → rank v ≤ rank m
      → IsLeast r (v ∷ vs)
      → IsLeast r (m ∷ v ∷ vs)
  keep_second r m v vs h (a, (low, all)) = (inr a, (omega arith, (low, all)))

  follow_all_from-IsLeast :
      (m : f.F64) (vs : List f.F64)
      → IsNonzero m
      → All IsNonzero vs
      → IsLeast (follow_all f m vs) (m ∷ vs)
  follow_all_from-IsLeast m [] h hs = (inl refl, (omega arith, tt))
  follow_all_from-IsLeast m (v ∷ vs) h (k, hs) = elim (follow_min m v h k) [
    | inl (e, le) ↦
        subst (λ x. IsLeast (follow_all f x vs) (m ∷ v ∷ vs)) (sym e)
          (keep_first (follow_all f m vs) m v vs le (follow_all_from-IsLeast m vs h hs))
    | inr (e, le) ↦
        subst (λ x. IsLeast (follow_all f x vs) (m ∷ v ∷ vs)) (sym e)
          (keep_second (follow_all f v vs) m v vs le (follow_all_from-IsLeast v vs k hs))
  ]

  follow_all-IsLeast :
      (v : f.F64) (vs : List f.F64)
      → All IsNonzero (v ∷ vs)
      → IsLeast (follow_all f (f.from_nat 0) (v ∷ vs)) (v ∷ vs)
  follow_all-IsLeast v vs (h, hs) =
      subst (λ x. IsLeast (follow_all f x vs) (v ∷ vs)) (sym (follow_first v h))
        (follow_all_from-IsLeast v vs h hs)

  axes :
      (view : HistoryView) (pts : List (f.F64 × f.F64)) (t l : f.F64)
      → ((chart_of f view (pts, t, l)).points ≡ pts)
        × ((chart_of f view (pts, t, l)).x_bounds.0 ≡ t)
  unfolding render_lumens render_lux render_temp render_moisture render_graph
  axes lux pts t l = (refl, refl)
  axes lumens pts t l = (refl, refl)
  axes temp pts t l = (refl, refl)
  axes moisture pts t l = (refl, refl)

  -- The graph of a history has a point for each reading, in the order in which they came in, and the
  -- axis of time begins at the least of their times, if each time is a number other than zero, and
  -- floats that are numbers are compared as a total order has it.
  pub chart-times :
      (view : HistoryView) (h : NodeSensorReading) (history : List NodeSensorReading)
      → All IsNonzero (times f (h ∷ history))
      → (chart : Chart f) × (chart_for f view (h ∷ history) ≡ some chart)
        × (chart.points ≡ points f view (h ∷ history))
        × IsLeast chart.x_bounds.0 (times f (h ∷ history))
  chart-times view h history set =
      let all = h ∷ history in
      let least = follow_all f (f.from_nat 0) (times f all) in
      let l = follow_all f (f.from_nat 0) (counts f all) in
      let (same_points, start) = axes view (points f view all) least l in
      (
        chart_of f view (points f view all, least, l),
        ap (λ r. some (chart_of f view r)) (scan_lem f view (f.from_nat 0) (f.from_nat 0) all),
        same_points,
        subst (λ x. IsLeast x (times f all)) (sym start) (follow_all-IsLeast _ _ set),
      )

  -- The graph of the lumens is scaled by the least count of light, not by the greatest: the axis ends
  -- a hundred above it, however bright the others are, if each count is a number other than zero, and
  -- floats that are numbers are compared as a total order has it.
  pub chart-lumens :
      (h : NodeSensorReading) (history : List NodeSensorReading)
      → All IsNonzero (counts f (h ∷ history))
      → (chart : Chart f) × (least : f.F64) × (chart_for f lumens (h ∷ history) ≡ some chart)
        × IsLeast least (counts f (h ∷ history))
        × (chart.y_bounds ≡ (f.sub least (f.from_nat 200), f.add least (f.from_nat 100)))
  unfolding render_lumens render_graph
  chart-lumens h history set =
      let all = h ∷ history in
      let least = follow_all f (f.from_nat 0) (counts f all) in
      (
        chart_of f lumens (points f lumens all, follow_all f (f.from_nat 0) (times f all), least),
        least,
        ap (λ r. some (chart_of f lumens r)) (scan_lem f lumens (f.from_nat 0) (f.from_nat 0) all),
        follow_all-IsLeast _ _ set,
        refl,
      )
