-- ===== src/Tests/UiTests.antt =====
-- Tests of what the front end shows.
use plant_minder.Base.{
  ℕ, ◌+◌, ◌-◌, ◌%◌, ◌≡◌, refl, List, [], ◌∷◌, true, false, none, some, get_elem?, ltb, ◌==◌, nat_eq,
  list_eq, arith,
}
use plant_minder.Minder.{Node}
use plant_minder.Broker.Types.{NodeSensorReading}
use plant_minder.Ui.History.{F64Ops, lumens, moisture, NodeHistory, Chart, chart_for, render}
use plant_minder.Ui.Axes.{counts, IsLeast, chart-lumens}
use plant_minder.Ui.Highlight.{render-highlighted}
use plant_minder.Ui.Terminal.{Console, session}
use plant_minder.Ui.Terminal.Restored.{Look, Documented, Left, session-Left}
use plant_minder.Tests.{reading_from}
use plant_minder.Tests.MinderTests.{app, app-IsSound, fig, some_events}

-- Whole numbers in place of floats.
abbrev pub wide : F64Ops
wide = record {
  F64 = ℕ;
  from_nat = λ n. n;
  from_i64 = λ n. n;
  from_f32 = λ n. n;
  lt = ltb;
  eq = λ a b. a == b;
  add = λ a b. a + b;
  sub = λ a b. a - b;
}

abbrev two_plants : NodeHistory
two_plants = record { active_row = 2; nodes = fig ∷ fig ∷ []; view = moisture }

render_example :
    (node : Node) × (get_elem? (fig ∷ fig ∷ []) (2 % 2) ≡ some node)
    × (get_elem? (render wide two_plants).table.rows (render wide two_plants).table.selected
        ≡ some node.name)
    × ((render wide two_plants).chart ≡ chart_for wide moisture node.history)
render_example = render-highlighted wide two_plants (omega arith)

abbrev AnyNumber : ℕ → Type 0
AnyNumber n = Unit

-- A reading at a time, with a count of light.
abbrev at_time : ℕ → ℕ → NodeSensorReading
at_time ts fs = record (reading_from 7) {
  reading = record {
    soil = record { moisture = 800; temp = 20 };
    light = some (record { fs = fs; lux = 3 });
    gas = none;
    ts = ts;
  };
}

abbrev three_readings : List NodeSensorReading
three_readings = at_time 20 300 ∷ at_time 30 100 ∷ []

chart-lumens_example :
    (chart : Chart wide) × (least : ℕ) × (chart_for wide lumens (at_time 40 900 ∷ three_readings)
      ≡ some chart)
    × IsLeast wide AnyNumber
        (λ n. n)
        tt
        (λ v w _ _. refl)
        (λ v w _ _. refl)
        least
        (counts wide (at_time 40 900 ∷ three_readings))
    × (chart.y_bounds ≡ (least - 200, least + 100))
chart-lumens_example =
    chart-lumens wide AnyNumber (λ n. n) tt (λ v w _ _. refl) (λ v w _ _. refl) (at_time 40 900)
      three_readings ((tt, λ e. cc), ((tt, λ e. cc), ((tt, λ e. cc), tt)))

-- A terminal that does as it is told.
abbrev console : Console wide
console = record {
  Term = Look;
  size = λ l. some l.shown;
  set_size = λ c r l. (true, record l { shown = (c, r) });
  with_options = λ c r l. (true, l);
  enable_raw_mode = λ l. (true, record l { raw = true });
  disable_raw_mode = λ l. (true, record l { raw = false });
  enter_alternate_screen = λ l. (true, record l { alternate = true });
  leave_alternate_screen = λ l. (true, record l { alternate = false });
  clear = λ l. (true, l);
  draw = λ s l. (true, l);
}

abbrev documented : Documented wide console
documented = record {
  look = λ l. l;
  size_seen = λ t. refl;
  sizes = λ c r t. (refl, refl);
  makes = λ c r t. (refl, refl);
  raw_on = λ t. (refl, refl);
  raw_off = λ t. (refl, refl);
  enters = λ t. (refl, refl);
  leaves = λ t. (refl, refl);
  clears = λ t. (refl, refl);
  draws = λ s t. refl;
}

abbrev shell : Look
shell = record { raw = false; alternate = false; shown = (80, 24) }

session_example : Left wide console documented (80, 24) (session wide console some_events app shell)
session_example = session-Left wide console documented some_events app shell app-IsSound
