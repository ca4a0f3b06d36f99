-- ===== src/Ui/Screen.antt =====
-- The drawing of pmindd/src/minder.rs: the title and the tabs, what the tab shows, and the keys.
use Prim.Native.String.{String, ◌++◌ as ◌<>◌}
use plant_minder.Base.{
  ℕ, zero, suc, ◌<◌, ◌≡◌, refl, List, [], ◌∷◌, some, get_elem?, arith, if◌then◌else◌, ◌==◌, nat_eq,
}
use plant_minder.Net.{Ipv6Addr}
use plant_minder.Minder.{Nodes, PlantMinder, num_tabs}
use plant_minder.Minder.Table.{Advice, advice}
use plant_minder.Ui.History
use plant_minder.Ui.History.{F64Ops, HistoryView, lux, lumens, temp, moisture, Rendered, render}

abbrev pub tabs : List String
tabs = "Nodes" ∷ "Moisture" ∷ "Temp" ∷ "Lux" ∷ "Lumens" ∷ []

abbrev pub cmd_keys : List (String × String)
cmd_keys =
    ("q", ": exit //")
    ∷ ("tab", ": next view //")
    ∷ ("backtab", ": prev view //")
    ∷ ("↑", ": scroll node up //")
    ∷ ("↓", ": scroll node down")
    ∷ []

-- The title, the tabs and which of them is highlighted.
pub record Top : Type 0 where
  pub title : String
  pub tabs : List String
  pub selected : ℕ

unfoldable pub render_top : PlantMinder → Top
render_top m = record { title = "Plant Minder"; tabs = tabs; selected = m.tab }

abbrev pub spaced : String → String
spaced t = " " <> t <> " "

-- The keys and what they do, each with a space on either side.
abbrev pub spans : List (String × String) → List String
spans [] = []
spans ((key, desc) ∷ rest) = spaced key ∷ spaced desc ∷ spans rest

unfoldable pub render_bottom : List String
render_bottom = spans cmd_keys

-- A row of the table of nodes: the plant's name, its address and how it does.
abbrev pub node_rows : Nodes → List (List ℕ × Ipv6Addr × Advice)
node_rows [] = []
node_rows ((addr, node) ∷ nodes) = (node.name, addr, advice node.history) ∷ node_rows nodes

module _ (f : F64Ops) where
  pub data Body : Type 0 where
    node_last_table : List (List ℕ × Ipv6Addr × Advice) → Body
    node_history : Rendered f → Body

  abbrev pub history_body : PlantMinder → HistoryView → Body
  history_body m view = node_history (render f (History.new m.nodes m.row view))

  unfoldable pub render_node_last_table : PlantMinder → Body
  unfolding advice
  render_node_last_table m = node_last_table (node_rows m.nodes)

  unfoldable pub render_selection : PlantMinder → Body
  unfolding render_node_last_table render History.new
  render_selection m =
      if m.tab == 0
      then render_node_last_table m
      else if m.tab == 1
      then history_body m moisture
      else if m.tab == 2
      then history_body m temp
      else if m.tab == 3
      then history_body m lux
      else if m.tab == 4
      then history_body m lumens
      else render_node_last_table m

  pub record Screen : Type 0 where
    pub top : Top
    pub body : Body
    pub keys : List String

  -- `render` of the front end: three parts, from the top to the bottom.
  unfoldable pub draw : PlantMinder → Screen
  unfolding render_top render_selection render_bottom
  draw m = record { top = render_top m; body = render_selection m; keys = render_bottom }

  -- The name of a view in the title of its history, and of the table in the row of tabs.
  abbrev pub view_name : HistoryView → String
  view_name lux = "Lux"
  view_name lumens = "Lumens"
  view_name temp = "Temp"
  view_name moisture = "Moisture"

  abbrev pub body_name : Body → String
  body_name (node_last_table rows) = "Nodes"
  body_name (node_history h) = view_name h.view

  name_at :
      (m : PlantMinder) (t : ℕ)
      → m.tab ≡ t
      → t < num_tabs
      → get_elem? tabs t ≡ some (body_name (render_selection m))
  unfolding render_selection render_node_last_table render History.new
  name_at m zero e h = ground (arith, e)
  name_at m (suc zero) e h = ground (arith, e)
  name_at m (suc (suc zero)) e h = ground (arith, e)
  name_at m (suc (suc (suc zero))) e h = ground (arith, e)
  name_at m (suc (suc (suc (suc zero)))) e h = ground (arith, e)
  name_at m (suc (suc (suc (suc (suc t))))) e h = absurd (omega arith)

  -- The view that is drawn is the one whose name is highlighted in the row of tabs, for every tab that
  -- exists.
  pub draw-tabs :
      (m : PlantMinder)
      → m.tab < num_tabs
      → get_elem? (draw m).top.tabs (draw m).top.selected ≡ some (body_name (draw m).body)
  unfolding draw render_top
  draw-tabs m h = name_at m m.tab refl h
