-- ===== src/Ui/Terminal.antt =====
-- `Tui` of pmindd/src/minder.rs, the terminal that is drawn on, and the part of `main` of
-- pmindd/src/bin/main.rs that uses it.
pub mod Restored
use plant_minder.Base.{
  ℕ, List, [], ◌∷◌, ◌++◌, Bool, true, false, Option, none, some, Result, ok, err, Outcome, returns,
  panics, if◌then◌else◌,
}
use plant_minder.Broker.Types.{NodeSensorReading}
use plant_minder.Minder.{PlantMinder, handle_event, arrive}
use plant_minder.Minder.Input.{Event}
use plant_minder.Ui.History.{F64Ops}
use plant_minder.Ui.Screen.{Screen, draw}

-- What crossterm and ratatui do to the terminal; a call succeeds or fails.
pub record Console (f : F64Ops) : Type 1 where
  pub Term : Type 0
  pub size : Term → Option (ℕ × ℕ)
  pub set_size : ℕ → ℕ → Term → Bool × Term
  pub with_options : ℕ → ℕ → Term → Bool × Term
  pub enable_raw_mode : Term → Bool × Term
  pub disable_raw_mode : Term → Bool × Term
  pub enter_alternate_screen : Term → Bool × Term
  pub leave_alternate_screen : Term → Bool × Term
  pub clear : Term → Bool × Term
  pub draw : Screen f → Term → Bool × Term

-- The size that the terminal had.
pub record Tui : Type 0 where
  pub col : ℕ
  pub row : ℕ

abbrev pub term_col : ℕ
term_col = 125

abbrev pub term_row : ℕ
term_row = 35

-- How `main` ends: it returns a result, or a handler panics and the panic hook resets the terminal.
pub data Ended (T : Type 0) : Type 0 where
  returned : Result (Unit {0}) (Unit {0}) → T → Ended T
  panicked : T → Ended T

module _ (f : F64Ops) (C : Console f) where
  -- `?` on a call of the terminal.
  abbrev pub then_call :
      {A : Type 0}
      → Bool × C.Term
      → (C.Term → Result A (Unit {0}) × C.Term)
      → Result A (Unit {0}) × C.Term
  then_call (true, t) next = next t
  then_call (false, t) next = (err tt, t)

  abbrev pub resized : Option (ℕ × ℕ) → C.Term → Result Tui (Unit {0}) × C.Term
  resized none t = (err tt, t)
  resized (some (col, row)) t = then_call (C.set_size term_col term_row t) (λ t1.
      then_call (C.with_options term_col term_row t1)
        (λ t2. (ok (record { col = col; row = row }), t2)))

  -- `Tui::new`
  unfoldable pub new : C.Term → Result Tui (Unit {0}) × C.Term
  new t = resized (C.size t) t

  -- `Tui::init`; the panic hook that it sets calls `reset` with the size of the terminal.
  unfoldable pub init : C.Term → Result (Unit {0}) (Unit {0}) × C.Term
  init t = then_call (C.enable_raw_mode t) (λ t1.
      then_call (C.enter_alternate_screen t1) (λ t2. then_call (C.clear t2) (λ t3. (ok tt, t3))))

  unfoldable pub reset : Tui → C.Term → Result (Unit {0}) (Unit {0}) × C.Term
  reset tui t = then_call (C.disable_raw_mode t) (λ t1.
      then_call (C.leave_alternate_screen t1)
        (λ t2. then_call (C.set_size tui.col tui.row t2) (λ t3. (ok tt, t3))))

  unfoldable pub exit : Tui → C.Term → Result (Unit {0}) (Unit {0}) × C.Term
  unfolding reset
  exit tui t = reset tui t

  abbrev pub finished : Result (Unit {0}) (Unit {0}) × C.Term → Ended C.Term
  finished (r, t) = returned r t

  -- The next turn of the loop, where no handler has panicked.
  abbrev pub handled :
      Tui → C.Term → Outcome PlantMinder → (PlantMinder → Ended C.Term) → Ended C.Term
  handled tui t panics next = panicked (reset tui t).1
  handled tui t (returns m) next = next m

  -- A frame that cannot be drawn ends `main` at once.
  abbrev pub drawn : Bool × C.Term → (C.Term → Ended C.Term) → Ended C.Term
  drawn (true, t) next = next t
  drawn (false, t) next = returned (err tt) t

  abbrev pub while_running : Bool → Ended C.Term → Ended C.Term → Ended C.Term
  while_running running body after = elim running [ true ↦ body | false ↦ after ]

  -- `while app.running` with the events as they come, each with the readings that came in before it;
  -- without another event, the channel's error ends the loop. Then the terminal is reset.
  unfoldable pub loop :
      Tui → List (List NodeSensorReading × Event) → PlantMinder → C.Term → Ended C.Term
  unfolding exit draw handle_event
  loop tui [] m t =
      while_running m.running (drawn (C.draw (draw f m) t) (λ t'. finished (exit tui t')))
        (finished (exit tui t))
  loop tui ((arrived, e) ∷ rest) m t =
      while_running m.running
        (drawn (C.draw (draw f m) t)
          (λ t'. handled tui t' (handle_event e (arrive arrived m)) (λ m'. loop tui rest m' t')))
        (finished (exit tui t))

  abbrev pub initialised :
      Tui → (C.Term → Ended C.Term) → Result (Unit {0}) (Unit {0}) × C.Term → Ended C.Term
  initialised tui next (err e, t) = returned (err e) t
  initialised tui next (ok _, t) = next t

  abbrev pub made : (Tui → C.Term → Ended C.Term) → Result Tui (Unit {0}) × C.Term → Ended C.Term
  made next (err e, t) = returned (err e) t
  made next (ok tui, t) = next tui t

  unfoldable pub session :
      List (List NodeSensorReading × Event) → PlantMinder → C.Term → Ended C.Term
  unfolding new init loop
  session es m t = made (λ tui t1. initialised tui (λ t2. loop tui es m t2) (init t1)) (new t)
