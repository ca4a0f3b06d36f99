-- ===== src/Minder/Commands.antt =====
-- Tabs, rows and the commands of the user.
use plant_minder.Base.{ℕ, ◌^◌, ◌<◌, ◌≡◌, refl, ◌⊎◌, inl, inr, length, nat_eq, arith}
use plant_minder.Minder.{PlantMinder, num_tabs, next_tab, previous_tab, row_above, handle_app_cmd}
use plant_minder.Minder.Input.{AppCmd, quit, invalid, error, next, back, up, down}

next_tab-valid : (t : ℕ) → t < num_tabs → next_tab t < num_tabs
unfolding next_tab
next_tab-valid t b = ground arith

previous_tab-valid : (t : ℕ) → t < num_tabs → previous_tab t < num_tabs
unfolding previous_tab
previous_tab-valid t b = ground arith

row_above-valid : (r n : ℕ) → r < 2 ^ 64 → n < 2 ^ 64 → row_above r n < 2 ^ 64
unfolding row_above
row_above-valid r n br bn = ground arith

-- From a tab that exists, and a row and a number of addresses in the range of a `usize`, every
-- command leaves a tab selected that exists, and the row in that range; the tab changes by `next`
-- and `back` only, the row by `up` and `down`, and only `quit` stops the program.
pub handle_app_cmd_lem :
    (c : AppCmd) (m : PlantMinder)
    → m.tab < num_tabs
    → m.row < 2 ^ 64
    → length m.node_addrs < 2 ^ 64
    → let m' = handle_app_cmd c m in
      (m'.tab < num_tabs)
      × (m'.row < 2 ^ 64)
      × (m' ≡ record m { running = m'.running; tab = m'.tab; row = m'.row })
      × ((c ≡ quit) ⊎ (m'.running ≡ m.running))
      × ((c ≡ next) ⊎ (c ≡ back) ⊎ (m'.tab ≡ m.tab))
      × ((c ≡ up) ⊎ (c ≡ down) ⊎ (m'.row ≡ m.row))
unfolding handle_app_cmd
handle_app_cmd_lem quit m t r a = (t, r, refl, inl refl, inr (inr refl), inr (inr refl))
handle_app_cmd_lem invalid m t r a = (t, r, refl, inr refl, inr (inr refl), inr (inr refl))
handle_app_cmd_lem error m t r a = (t, r, refl, inr refl, inr (inr refl), inr (inr refl))
handle_app_cmd_lem next m t r a =
    (next_tab-valid m.tab t, r, refl, inr refl, inl refl, inr (inr refl))
handle_app_cmd_lem back m t r a =
    (previous_tab-valid m.tab t, r, refl, inr refl, inr (inl refl), inr (inr refl))
handle_app_cmd_lem up m t r a =
    (t, row_above-valid m.row (length m.node_addrs) r a, refl, inr refl, inr (inr refl), inl refl)
handle_app_cmd_lem down m t r a = (t, omega arith, refl, inr refl, inr (inr refl), inr (inl refl))
