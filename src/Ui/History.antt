-- ===== src/Ui/History.antt =====
-- pmindd/src/ui/history.rs: the list of plants and the graph of the selected one.
use Prim.Native.String.{String}
use plant_minder.Base.{
  ℕ, ◌%◌, List, [], ◌∷◌, Bool, Option, none, some, if◌then◌else◌, ◌==◌, nat_eq, length, get_elem?,
}
use plant_minder.Sensor.{F32, Light}
use plant_minder.Broker.Types.{NodeSensorReading}
use plant_minder.Minder.{Node, Nodes}

-- `f64`: the conversions `as f64` of a number, of the bits of an `i64` and of an `f32`, comparisons and
-- arithmetic.
pub record F64Ops : Type 1 where
  pub F64 : Type 0
  pub from_nat : ℕ → F64
  pub from_i64 : ℕ → F64
  pub from_f32 : F32 → F64
  pub lt : F64 → F64 → Bool
  pub eq : F64 → F64 → Bool
  pub add : F64 → F64 → F64
  pub sub : F64 → F64 → F64

pub data HistoryView : Type 0 where
  lux lumens temp moisture : HistoryView

-- The node history state is the list of the map's values, in the order of its iteration.
abbrev pub values : Nodes → List Node
values [] = []
values ((a, node) ∷ nodes) = node ∷ values nodes

pub record NodeHistory : Type 0 where
  pub active_row : ℕ
  pub nodes : List Node
  pub view : HistoryView

unfoldable pub new : Nodes → ℕ → HistoryView → NodeHistory
new nodes active_row view = record { active_row = active_row; nodes = values nodes; view = view }

abbrev pub names : List Node → List (List ℕ)
names [] = []
names (node ∷ nodes) = node.name ∷ names nodes

-- The table of the plants with the row that is highlighted, at which the scroll bar stands.
pub record NodeTable : Type 0 where
  pub rows : List (List ℕ)
  pub selected : ℕ

unfoldable pub render_nodes : NodeHistory → NodeTable
render_nodes h =
    let rows = names h.nodes in
    let max_rows = length rows in
    record { rows = rows; selected = if max_rows == 0 then 0 else h.active_row % max_rows }

-- `h.data.light.unwrap_or_default()`
abbrev pub light_or_default : Option Light → Light
light_or_default none = record { fs = 0; lux = 0 }
light_or_default (some x) = x

module _ (f : F64Ops) where
  -- A label is a text, or a number as text.
  pub data Label : Type 0 where
    text : String → Label
    number : f.F64 → Label

  pub record Graph : Type 0 where
    pub points : List (f.F64 × f.F64)
    pub min_x : f.F64
    pub label : String
    pub y_labels : List Label
    pub y_bounds : f.F64 × f.F64

  -- What is given to the chart: the points, the bounds of the axes and the labels.
  pub record Chart : Type 0 where
    pub title : String
    pub points : List (f.F64 × f.F64)
    pub x_bounds : f.F64 × f.F64
    pub y_bounds : f.F64 × f.F64
    pub y_labels : List Label

  unfoldable pub render_graph : Graph → Chart
  render_graph graph = record {
    title = graph.label;
    points = graph.points;
    x_bounds = (graph.min_x, f.add graph.min_x (f.from_nat 1000));
    y_bounds = graph.y_bounds;
    y_labels = graph.y_labels;
  }

  unfoldable pub render_lux : List (f.F64 × f.F64) → f.F64 → Chart
  unfolding render_graph
  render_lux points min_x = render_graph (record {
    points = points;
    min_x = min_x;
    label = "Lux";
    y_labels = text "0" ∷ text "500" ∷ text "1100.0" ∷ [];
    y_bounds = (f.from_nat 0, f.from_nat 1100);
  })

  unfoldable pub render_lumens : List (f.F64 × f.F64) → f.F64 → f.F64 → Chart
  unfolding render_graph
  render_lumens points min_x max_l = render_graph (record {
    points = points;
    min_x = min_x;
    label = "Lumens (Full Spectrum)";
    y_labels = number (f.sub max_l (f.from_nat 500)) ∷ number (f.add max_l (f.from_nat 500)) ∷ [];
    y_bounds = (f.sub max_l (f.from_nat 200), f.add max_l (f.from_nat 100));
  })

  unfoldable pub render_temp : List (f.F64 × f.F64) → f.F64 → Chart
  unfolding render_graph
  render_temp points min_x = render_graph (record {
    points = points;
    min_x = min_x;
    label = "Temperature (F)";
    y_labels = text "35.0" ∷ text "75.0" ∷ text "105.0" ∷ [];
    y_bounds = (f.from_nat 35, f.from_nat 105);
  })

  unfoldable pub render_moisture : List (f.F64 × f.F64) → f.F64 → Chart
  unfolding render_graph
  render_moisture points min_x = render_graph (record {
    points = points;
    min_x = min_x;
    label = "Moisture";
    y_labels = text "Dry" ∷ text "Wet" ∷ [];
    y_bounds = (f.from_nat 200, f.from_nat 1100);
  })

  -- The two tests by which `min_t` and `max_l` follow a value: zero counts as not yet set.
  abbrev pub follow : f.F64 → f.F64 → f.F64
  follow m v = let m' = if f.eq m (f.from_nat 0) then v else m in if f.lt v m' then v else m'

  abbrev pub light_count : NodeSensorReading → f.F64
  light_count h = f.from_nat (light_or_default h.reading.light).fs

  abbrev pub point : HistoryView → NodeSensorReading → f.F64 × f.F64
  point lux h = (f.from_i64 h.reading.ts, f.from_f32 (light_or_default h.reading.light).lux)
  point lumens h = (f.from_i64 h.reading.ts, light_count h)
  point temp h = (f.from_i64 h.reading.ts, f.from_f32 h.reading.soil.temp)
  point moisture h = (f.from_i64 h.reading.ts, f.from_nat h.reading.soil.moisture)

  -- The pass over the history: the points, `min_t` and `max_l`.
  unfoldable pub scan :
      HistoryView → f.F64 → f.F64 → List NodeSensorReading → List (f.F64 × f.F64) × f.F64 × f.F64
  scan view min_t max_l [] = ([], min_t, max_l)
  scan view min_t max_l (h ∷ history) =
      let (points, last_t, last_l) =
        scan view (follow min_t (f.from_i64 h.reading.ts)) (follow max_l (light_count h)) history in
      (point view h ∷ points, last_t, last_l)

  abbrev pub chart_of : HistoryView → List (f.F64 × f.F64) × f.F64 × f.F64 → Chart
  chart_of lux (points, min_t, max_l) = render_lux points min_t
  chart_of lumens (points, min_t, max_l) = render_lumens points min_t max_l
  chart_of temp (points, min_t, max_l) = render_temp points min_t
  chart_of moisture (points, min_t, max_l) = render_moisture points min_t

  abbrev pub chart_for : HistoryView → List NodeSensorReading → Option Chart
  chart_for view [] = none
  chart_for view (h ∷ history) =
      some (chart_of view (scan view (f.from_nat 0) (f.from_nat 0) (h ∷ history)))

  -- Without nodes, or without a history of the selected one, there is no graph.
  abbrev pub chart_at : HistoryView → Option Node → Option Chart
  chart_at view none = none
  chart_at view (some node) = chart_for view node.history

  pub record Rendered : Type 0 where
    pub view : HistoryView
    pub table : NodeTable
    pub chart : Option Chart

  -- `NodeHistory::render`; the view is named in the title.
  unfoldable pub render : NodeHistory → Rendered
  unfolding render_nodes scan render_lux render_lumens render_temp render_moisture
  render h =
      let num_nodes = length h.nodes in
      let row = if num_nodes == 0 then 0 else h.active_row % num_nodes in
      record {
        view = h.view;
        table = render_nodes h;
        chart = chart_at h.view (get_elem? h.nodes row);
      }
