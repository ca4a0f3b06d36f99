-- ===== src/Ui/Terminal/Restored.antt =====
-- In which state the terminal is left.
use mathlib.Core.Path.{subst}
use plant_minder.Base.{
  ℕ, ◌≡◌, refl, sym, ap, ◌∙◌, List, [], ◌∷◌, Bool, true, false, some, Result, ok, err,
}
use plant_minder.Broker.Types.{NodeSensorReading}
use plant_minder.Minder.{PlantMinder, handle_event, arrive}
use plant_minder.Minder.Input.{Event}
use plant_minder.Minder.Running.{IsSound, handle_event_lem}
use plant_minder.Ui.History.{F64Ops}
use plant_minder.Ui.Screen.{Screen, draw}
use plant_minder.Ui.Terminal.{
  Console, Tui, Ended, returned, panicked, then_call, new, init, exit, reset, finished, handled,
  drawn, while_running, loop, session, term_col, term_row, resized, made, initialised,
}

-- What can be seen of a terminal.
pub record Look : Type 0 where
  pub raw : Bool
  pub alternate : Bool
  pub shown : ℕ × ℕ

-- The calls of the terminal but the drawing succeed, and do what their libraries document; drawing, even
-- if it fails, changes neither modes nor size.
pub record Documented (f : F64Ops) (C : Console f) : Type 0 where
  pub look : C.Term → Look
  pub size_seen : (t : C.Term) → C.size t ≡ some (look t).shown
  pub sizes :
      (c r : ℕ) (t : C.Term)
      → ((C.set_size c r t).0 ≡ true)
        × (look (C.set_size c r t).1 ≡ record (look t) { shown = (c, r) })
  pub makes :
      (c r : ℕ) (t : C.Term)
      → ((C.with_options c r t).0 ≡ true) × (look (C.with_options c r t).1 ≡ look t)
  pub raw_on :
      (t : C.Term)
      → ((C.enable_raw_mode t).0 ≡ true)
        × (look (C.enable_raw_mode t).1 ≡ record (look t) { raw = true })
  pub raw_off :
      (t : C.Term)
      → ((C.disable_raw_mode t).0 ≡ true)
        × (look (C.disable_raw_mode t).1 ≡ record (look t) { raw = false })
  pub enters :
      (t : C.Term)
      → ((C.enter_alternate_screen t).0 ≡ true)
        × (look (C.enter_alternate_screen t).1 ≡ record (look t) { alternate = true })
  pub leaves :
      (t : C.Term)
      → ((C.leave_alternate_screen t).0 ≡ true)
        × (look (C.leave_alternate_screen t).1 ≡ record (look t) { alternate = false })
  pub clears : (t : C.Term) → ((C.clear t).0 ≡ true) × (look (C.clear t).1 ≡ look t)
  pub draws : (s : Screen f) (t : C.Term) → look (C.draw s t).1 ≡ look t

module _ (f : F64Ops) (C : Console f) (D : Documented f C) where
  call_succeeds :
      {A : Type 0} (p : Bool × C.Term) (next : C.Term → Result A (Unit {0}) × C.Term)
      → p.0 ≡ true
      → then_call f C p next ≡ next p.1
  call_succeeds (true, t) next h = refl
  call_succeeds (false, t) next h = cc

  -- The terminal while it is drawn on.
  abbrev pub on_screen : Look
  on_screen = record { raw = true; alternate = true; shown = (term_col, term_row) }

  -- After `main`: as before with its size back, out of raw mode and of the alternate screen, or, if a
  -- frame could not be drawn, still as it was drawn on.
  abbrev pub Left : ℕ × ℕ → Ended C.Term → Type 0
  Left s (returned (ok _) t) = D.look t ≡ record { raw = false; alternate = false; shown = s }
  Left s (returned (err _) t) = D.look t ≡ on_screen
  Left s (panicked t) = ⊥

  new_lem :
      (t : C.Term)
      → (t' : C.Term) × (new f C t
          ≡ (ok (record { col = (D.look t).shown.0; row = (D.look t).shown.1 }), t'))
        × (D.look t' ≡ record (D.look t) { shown = (term_col, term_row) })
  unfolding new
  new_lem t =
      let (done, sized) = D.sizes term_col term_row t in
      let t1 = (C.set_size term_col term_row t).1 in
      let (there, same) = D.makes term_col term_row t1 in
      (
        (C.with_options term_col term_row t1).1,
        ap (λ s. resized f C s t) (D.size_seen t)
            ∙ call_succeeds (C.set_size term_col term_row t) _ done
            ∙ call_succeeds (C.with_options term_col term_row t1) _ there,
        same ∙ sized,
      )

  init_lem :
      (t : C.Term)
      → (t' : C.Term) × (init f C t ≡ (ok tt, t'))
        × (D.look t' ≡ record (D.look t) { raw = true; alternate = true })
  unfolding init
  init_lem t =
      let (a, raw) = D.raw_on t in
      let t1 = (C.enable_raw_mode t).1 in
      let (b, alternate) = D.enters t1 in
      let t2 = (C.enter_alternate_screen t1).1 in
      let (c, clear) = D.clears t2 in
      (
        (C.clear t2).1,
        call_succeeds (C.enable_raw_mode t) _ a
            ∙ call_succeeds (C.enter_alternate_screen t1) _ b
            ∙ call_succeeds (C.clear t2) _ c,
        clear ∙ alternate ∙ ap (λ (l : Look). record l { alternate = true }) raw,
      )

  exit_lem :
      (tui : Tui) (t : C.Term)
      → (t' : C.Term) × (exit f C tui t ≡ (ok tt, t'))
        × (D.look t' ≡ record { raw = false; alternate = false; shown = (tui.col, tui.row) })
  unfolding exit reset
  exit_lem tui t =
      let (a, raw) = D.raw_off t in
      let t1 = (C.disable_raw_mode t).1 in
      let (b, alternate) = D.leaves t1 in
      let t2 = (C.leave_alternate_screen t1).1 in
      let (c, sized) = D.sizes tui.col tui.row t2 in
      (
        (C.set_size tui.col tui.row t2).1,
        call_succeeds (C.disable_raw_mode t) _ a
            ∙ call_succeeds (C.leave_alternate_screen t1) _ b
            ∙ call_succeeds (C.set_size tui.col tui.row t2) _ c,
        sized
            ∙ ap (λ (l : Look). record l { shown = (tui.col, tui.row) }) alternate
            ∙ ap (λ (l : Look). record l { alternate = false; shown = (tui.col, tui.row) }) raw,
      )

  exit-Left : (tui : Tui) (t : C.Term) → Left (tui.col, tui.row) (finished f C (exit f C tui t))
  exit-Left tui t =
      let (t', ends, seen) = exit_lem tui t in
      subst (λ r. Left (tui.col, tui.row) (finished f C r)) (sym ends) seen

  drawn-Left :
      (s : ℕ × ℕ) (p : Bool × C.Term) (next : C.Term → Ended C.Term)
      → D.look p.1 ≡ on_screen
      → ((t : C.Term) → D.look t ≡ on_screen → Left s (next t))
      → Left s (drawn f C p next)
  drawn-Left s (true, t) next h k = k t h
  drawn-Left s (false, t) next h k = h

  while-Left :
      (s : ℕ × ℕ) (running : Bool) (body after : Ended C.Term)
      → Left s body
      → Left s after
      → Left s (while_running f C running body after)
  while-Left s true body after h k = h
  while-Left s false body after h k = k

  loop-Left :
      (tui : Tui) (es : List (List NodeSensorReading × Event)) (m : PlantMinder) (t : C.Term)
      → IsSound m
      → D.look t ≡ on_screen
      → Left (tui.col, tui.row) (loop f C tui es m t)
  unfolding loop
  loop-Left tui [] m t h seen =
      let s : ℕ × ℕ = (tui.col, tui.row) in
      while-Left s m.running _ _
        (drawn-Left s (C.draw (draw f m) t) (λ t'. finished f C (exit f C tui t'))
          (D.draws (draw f m) t ∙ seen) (λ t' _. exit-Left tui t'))
        (exit-Left tui t)
  loop-Left tui ((arrived, e) ∷ rest) m t h seen =
      let s : ℕ × ℕ = (tui.col, tui.row) in
      let (m', returns_m', sound) = handle_event_lem e (arrive arrived m) h in
      while-Left s m.running _ _
        (drawn-Left s (C.draw (draw f m) t)
          (λ t'.
            handled f C tui t' (handle_event e (arrive arrived m))
              (λ m''. loop f C tui rest m'' t'))
          (D.draws (draw f m) t ∙ seen)
          (λ t' seen'.
            subst (λ o. Left s (handled f C tui t' o (λ m''. loop f C tui rest m'' t')))
              (sym returns_m') (loop-Left tui rest m' t' sound seen')))
        (exit-Left tui t)

  -- Whatever events and readings come in, `main` ends with the terminal out of raw mode and of the
  -- alternate screen and in its old size, unless a frame cannot be drawn: then `main` returns the error
  -- and leaves the terminal as it was drawn on. The other calls of the terminal succeed as documented,
  -- and the maps of the program repeat no key at the start.
  pub session-Left :
      (es : List (List NodeSensorReading × Event)) (m : PlantMinder) (t : C.Term)
      → IsSound m
      → Left (D.look t).shown (session f C es m t)
  unfolding session
  session-Left es m t h =
      let s = (D.look t).shown in
      let tui : Tui = record { col = s.0; row = s.1 } in
      let (t1, made_tui, seen1) = new_lem t in
      let (t2, initialised_t, seen2) = init_lem t1 in
      let next = λ (t' : C.Term). loop f C tui es m t' in
      subst
        (λ r. Left s (
          made f C (λ tui' t'. initialised f C tui' (λ t''. loop f C tui' es m t'') (init f C t'))
            r))
        (sym made_tui)
        (subst (λ r. Left s (initialised f C tui next r)) (sym initialised_t)
          (loop-Left tui es m t2 h
            (seen2 ∙ ap (λ (l : Look). record l { raw = true; alternate = true }) seen1)))
