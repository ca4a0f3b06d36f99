-- ===== src/Ui/Highlight.antt =====
-- The plant that is highlighted in the list, and how the rows are scrolled through.
use native.Mathlib.Nat.{mod-lt, mod-eq_of_lt, mod-add-mod, add-mod_right}
use plant_minder.Base.{
  ap, ◌∙◌, sym, ℕ, zero, suc, ◌+◌, ◌-◌, ◌%◌, ◌^◌, ◌<◌, ◌≡◌, refl, List, [], ◌∷◌, some, get_elem?,
  length, arith, nat_eq,
}
use plant_minder.Minder.{Node, Nodes, PlantMinder, handle_app_cmd, row_above}
use plant_minder.Minder.Input.{up, down}
use plant_minder.Ui.History.{
  F64Ops, HistoryView, NodeHistory, values, names, render_nodes, render, chart_for, new,
}

length-names : (nodes : List Node) → length (names nodes) ≡ length nodes
length-names [] = refl
length-names (x ∷ nodes) = ground (arith, length-names nodes)

length-values : (nodes : Nodes) → length (values nodes) ≡ length nodes
length-values [] = refl
length-values ((a, x) ∷ nodes) = ground (arith, length-values nodes)

elem-names :
    (nodes : List Node) (i : ℕ)
    → i < length nodes
    → (node : Node) × (get_elem? nodes i ≡ some node) × (get_elem? (names nodes) i ≡ some node.name)
elem-names [] i h = absurd (omega arith)
elem-names (x ∷ nodes) zero h = (x, refl, refl)
elem-names (x ∷ nodes) (suc i) h = elem-names nodes i (omega arith)

module _ (f : F64Ops) where
  -- With plants to show, the graph is that of the plant whose name is highlighted.
  pub render-highlighted :
      (h : NodeHistory)
      → 0 < length h.nodes
      → (node : Node) × (get_elem? h.nodes (h.active_row % length h.nodes) ≡ some node)
        × (get_elem? (render f h).table.rows (render f h).table.selected ≡ some node.name)
        × ((render f h).chart ≡ chart_for f h.view node.history)
  unfolding render render_nodes
  render-highlighted h some_nodes =
      let (node, at_row, named) =
        elem-names h.nodes (h.active_row % length h.nodes) (mod-lt h.active_row some_nodes) in
      (node, at_row, ground (arith, length-names h.nodes), ground arith)

abbrev pub highlighted : PlantMinder → ℕ
highlighted m = (render_nodes (new m.nodes m.row HistoryView.moisture)).selected

highlighted_lem : (m : PlantMinder) → 0 < length m.nodes → highlighted m ≡ m.row % length m.nodes
unfolding render_nodes new
highlighted_lem m h = ground (arith, length-names (values m.nodes), length-values m.nodes)

mod_above : (r n : ℕ) → 0 < n → row_above r n % n ≡ (r % n + (n - 1)) % n
unfolding row_above
mod_above zero n h = ground (arith, mod-add-mod 0 n (n - 1))
mod_above (suc r) n h =
    let before : row_above (suc r) n ≡ r = ground arith in
    let around : suc r + (n - 1) ≡ r + n = omega arith in
    ap (λ (k : ℕ). k % n) before
    ∙ sym (add-mod_right r n)
    ∙ ap (λ (k : ℕ). k % n) (sym around)
    ∙ sym (mod-add-mod (suc r) n (n - 1))

-- The keys move the highlight down and up by one plant, from the last to the first and back, as long as
-- there are as many nodes as plants and the row is below the largest.
pub scroll_lem :
    (m : PlantMinder)
    → 0 < length m.nodes
    → length m.node_addrs ≡ length m.nodes
    → m.row + 1 < 2 ^ 64
    → (highlighted (handle_app_cmd down m) ≡ (highlighted m + 1) % length m.nodes)
      × (highlighted (handle_app_cmd up m)
          ≡ (highlighted m + (length m.nodes - 1)) % length m.nodes)
unfolding handle_app_cmd
scroll_lem m h same small =
    let n = length m.nodes in
    let here : m.row % n ≡ highlighted m = sym (highlighted_lem m h) in
    (
      highlighted_lem (handle_app_cmd down m) h
          ∙ ap (λ (k : ℕ). k % n) (mod-eq_of_lt small)
          ∙ sym (mod-add-mod m.row n 1)
          ∙ ap (λ (k : ℕ). (k + 1) % n) here,
      highlighted_lem (handle_app_cmd up m) h
          ∙ ap (λ (k : ℕ). row_above m.row k % n) same
          ∙ mod_above m.row n h
          ∙ ap (λ (k : ℕ). (k + (n - 1)) % n) here,
    )
