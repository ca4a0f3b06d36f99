-- ===== src/Firmware/Server/Ends.antt =====
-- How the server of a node ends, and what it has done by then.
use mathlib.Core.Path.{subst}
use plant_minder.Base.{
  ℕ, suc, ◌+◌, ◌≤◌, ◌≡◌, refl, ap, List, [], ◌∷◌, ◌++◌, Bool, true, false, Option, err, Outcome,
  returns, panics, All, All-append, ◌⊎◌, inl, inr, arith,
}
use plant_minder.Sensor.{PlatformSensorError}
use plant_minder.Firmware.{Reading}
use plant_minder.Firmware.Platform.{Json}
use plant_minder.Firmware.Node.{
  Sent, Turn, Codec, Node, Verdict, goes_on, breaks, crashes, interrupted, turn, init,
}
use plant_minder.Firmware.Node.Runs.{
  Run, boots, fires, turns, resets, reports, fired_once, Run-reports, reports-append, Uses,
  turn-Uses,
}
use plant_minder.Firmware.Server.{
  ThreadCall, thread_set_enabled, set_up, unwrapped, Moment, one_turn, timer_fires, Loop, running,
  left, loop, Server, serving, returned, coap_server_event_loop, after_turn, after_interrupt,
  after_loop, disabled, once_up, having_sent, resets_on, platform_error,
}

-- Whether the calls leave Thread enabled, by the state before them.
abbrev pub is_enabled : Bool → List ThreadCall → Bool
is_enabled b [] = b
is_enabled b (thread_set_enabled b' ∷ cs) = is_enabled b' cs
is_enabled b (_ ∷ cs) = is_enabled b cs

abbrev pub interrupts : List Moment → ℕ
interrupts [] = 0
interrupts (timer_fires ∷ ms) = suc (interrupts ms)
interrupts (one_turn t ∷ ms) = interrupts ms

module _ (succeeds : ThreadCall → Bool) where
  abbrev pub AllSucceed : List ThreadCall → Type 0
  AllSucceed cs = All (λ x. succeeds x ≡ true) cs

  -- The last of the calls is the first that fails.
  abbrev pub LastFails : List ThreadCall → Type 0
  LastFails calls =
      (front : List ThreadCall) × (x : ThreadCall) × (calls ≡ front ++ x ∷ [])
      × AllSucceed front
      × (succeeds x ≡ false)

  abbrev Unwraps : List ThreadCall → List ThreadCall × Bool → Type 0
  Unwraps cs (calls, true) = (calls ≡ cs) × AllSucceed cs
  Unwraps cs (calls, false) = LastFails calls

  unwrapped-Unwraps : (cs : List ThreadCall) → Unwraps cs (unwrapped succeeds cs)
  unfolding unwrapped
  unwrapped-Unwraps [] = (refl, tt)
  unwrapped-Unwraps (x ∷ cs) = next (succeeds x) refl (unwrapped succeeds cs) (unwrapped-Unwraps cs)
    where
      next :
          (b : Bool)
          → succeeds x ≡ b
          → (p : List ThreadCall × Bool) → Unwraps cs p
          → Unwraps (x ∷ cs) (elim b [ true ↦ (x ∷ p.0, p.1) | false ↦ (x ∷ [], false) ])
      next true e (calls, true) (same, all) = (ap (◌∷◌ x) same, (e, all))
      next true e (calls, false) (front, y, same, all, fails) =
          (x ∷ front, y, ap (◌∷◌ x) same, (e, all), fails)
      next false e p h = ([], x, refl, tt, e)

module _ {S : Type 0} (read : List ℕ → ℕ → S → Reading S PlatformSensorError) (json : Json)
    (c : Codec) (sensors : List (Option S)) where
  -- A loop that has not panicked is at a state of a run, and has sent the reports of that run.
  abbrev FromRun : ℕ → ℕ → Loop S → Type 0
  FromRun i r (running n sent) = Run read json c sensors i (r + reports sent) n
  FromRun i r (left n sent) =
      (j : ℕ) × (j ≤ i) × Run read json c sensors j (r + reports sent) (init sensors)
  FromRun i r (Loop.panicked sent) = r + reports sent ≤ i

  having_sent-FromRun :
      (i r : ℕ) (sent : List Sent) (l : Loop S)
      → FromRun i (r + reports sent) l
      → FromRun i r (having_sent read json c sent l)
  having_sent-FromRun i r sent (running n more) h =
      subst (λ (k : ℕ). Run read json c sensors i k n) (omega (arith, reports-append sent more)) h
  having_sent-FromRun i r sent (left n more) (j, le, h) = (
    j,
    le,
    subst (λ (k : ℕ). Run read json c sensors j k (init sensors))
        (omega (arith, reports-append sent more)) h,
  )
  having_sent-FromRun i r sent (Loop.panicked more) h = omega (arith, reports-append sent more)

  turn-FromRun :
      (i r k : ℕ) (t : Turn) (n : Node S) (v : Verdict S)
      → turn read json c t n ≡ v
      → (next : Node S → Loop S) → Run read json c sensors i r n
      → ((r' : ℕ) (n' : Node S) → Run read json c sensors i r' n' → FromRun (i + k) r' (next n'))
      → FromRun (i + k) r (after_turn read json c v next)
  turn-FromRun i r k t n (goes_on n' sent) e next run later =
      having_sent-FromRun (i + k) r sent (next n')
        (later (r + reports sent) n' (turns t sent run e))
  turn-FromRun i r k t n (breaks n' sent) e next run later = (i, omega arith, resets t sent run e)
  turn-FromRun i r k t n (crashes sent) e next run later =
      let used = subst (Uses read json c sensors n) e (turn-Uses read json c sensors t n) in
      omega (arith, used, (Run-reports read json c sensors run).0)

  interrupt-FromRun :
      (i r k : ℕ) (n : Node S) (o : Outcome (Node S))
      → interrupted n ≡ o
      → (next : Node S → Loop S) → Run read json c sensors i r n
      → ((n' : Node S) → Run read json c sensors (suc i) r n' → FromRun (suc i + k) r (next n'))
      → FromRun (i + suc k) r (after_interrupt read json c o next)
  interrupt-FromRun i r k n (returns n') e next run later =
      subst (λ (j : ℕ). FromRun j r (next n')) (omega arith) (later n' (fires run e))
  interrupt-FromRun i r k n panics e next run later =
      omega (arith, (Run-reports read json c sensors run).0)

  loop-FromRun :
      (i r : ℕ) (ms : List Moment) (n : Node S)
      → Run read json c sensors i r n
      → FromRun (i + interrupts ms) r (loop read json c ms n)
  unfolding loop
  loop-FromRun i r [] n run =
      subst (λ (k : ℕ). Run read json c sensors k (r + 0) n) (omega arith)
        (subst (λ (k : ℕ). Run read json c sensors i k n) (omega arith) run)
  loop-FromRun i r (one_turn t ∷ ms) n run =
      turn-FromRun i r (interrupts ms) t n (turn read json c t n) refl (loop read json c ms) run
        (λ r' n' run'. loop-FromRun i r' ms n' run')
  loop-FromRun i r (timer_fires ∷ ms) n run =
      interrupt-FromRun i r (interrupts ms) n (interrupted n) refl (loop read json c ms) run
        (λ n' run'. loop-FromRun (suc i) r ms n' run')

  module _ (succeeds : ThreadCall → Bool) (ms : List Moment) where
    abbrev pub Sound : Server S → Type 0
    Sound (serving calls n sent) =
        (calls ≡ set_up)
        × AllSucceed succeeds calls
        × (is_enabled false calls ≡ true)
        × (reports sent + fired_once n.statics ≤ interrupts ms)
    Sound (returned r calls n sent) =
        (r ≡ err platform_error)
        × (resets_on r ≡ true)
        × (calls ≡ set_up ++ thread_set_enabled false ∷ [])
        × AllSucceed succeeds calls
        × (is_enabled false calls ≡ false)
        × (reports sent ≤ interrupts ms)
    Sound (Server.panicked calls sent) =
        (reports sent ≤ interrupts ms)
        × (LastFails succeeds calls
            ⊎ ((calls ≡ set_up)
                × AllSucceed succeeds calls
                × (loop read json c ms (init sensors) ≡ Loop.panicked sent)))

    disabled-Sound :
        (b : Bool) (n : Node S) (sent : List Sent)
        → succeeds (thread_set_enabled false) ≡ b
        → AllSucceed succeeds set_up
        → reports sent ≤ interrupts ms
        → Sound (disabled read json c b set_up n sent)
    unfolding set_up
    disabled-Sound true n sent e all few = (
      refl,
      refl,
      refl,
      All-append (λ x. succeeds x ≡ true) set_up (thread_set_enabled false ∷ []) all (e, tt),
      refl,
      few,
    )
    disabled-Sound false n sent e all few =
        (few, inl (set_up, thread_set_enabled false, refl, all, e))

    after_loop-Sound :
        (l : Loop S)
        → loop read json c ms (init sensors) ≡ l
        → FromRun (interrupts ms) 0 l
        → AllSucceed succeeds set_up
        → Sound (after_loop read json c succeeds set_up l)
    after_loop-Sound (running n sent) e run all =
        (refl, all, unfold set_up in refl, omega (arith, (Run-reports read json c sensors run).0))
    after_loop-Sound (left n sent) e (j, le, run) all =
        disabled-Sound _ n sent refl all (omega (arith, (Run-reports read json c sensors run).0))
    after_loop-Sound (Loop.panicked sent) e run all = (omega arith, inr (refl, all, e))

    once_up-Sound :
        (p : List ThreadCall × Bool) (l : Loop S)
        → loop read json c ms (init sensors) ≡ l
        → FromRun (interrupts ms) 0 l
        → Unwraps succeeds set_up p
        → Sound (once_up read json c succeeds p l)
    once_up-Sound (calls, true) l e run (same, all) = rw same (after_loop-Sound l e run all)
    once_up-Sound (calls, false) l e run fails = (omega arith, inl fails)

    -- While the server of a node serves, all calls of the set up have succeeded, in their order, and
    -- Thread is enabled. If it returns, then with the error for which `main` resets the node, and Thread
    -- is disabled. It panics only at the first call that fails, or in the loop. In each case it has sent
    -- at most one report for each interrupt of the timer.
    pub coap_server_event_loop-Sound :
        Sound (coap_server_event_loop read json c succeeds ms (init sensors))
    unfolding coap_server_event_loop
    coap_server_event_loop-Sound =
        once_up-Sound (unwrapped succeeds set_up) (loop read json c ms (init sensors)) refl
          (subst (λ (i : ℕ). FromRun i 0 (loop read json c ms (init sensors))) (omega arith)
            (loop-FromRun 0 0 ms (init sensors) boots))
          (unwrapped-Unwraps succeeds set_up)
