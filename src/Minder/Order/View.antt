-- ===== src/Minder/Order/View.antt =====
-- The program's state as a quotient, without the order of its maps.
use mathlib.Core.Path.{subst}
use mathlib.Core.Quot
use mathlib.Core.Quot.{Quot, Quot-set}
use plant_minder.Base.{
  ◌≡◌, refl, ap, sym, ◌∙◌, inl, inr, List, [], ◌∷◌, true, Outcome, panics, returns, nat_eq, list_eq,
  Bool-cases,
}
use plant_minder.Broker.Types.{NodeSensorReading}
use plant_minder.Minder.{PlantMinder, handle_event, arrive, run, then_run}
use plant_minder.Minder.Input.{Event}
use plant_minder.Minder.Order.{Same, Agree, arrive-Same, handle_event-Same}
use plant_minder.Minder.Running.{IsSound, run_returns, if_running-on, run-stopped}

pub turn_on :
    (arrived : List NodeSensorReading) (e : Event) (rest : List (List NodeSensorReading × Event))
    (m m1 : PlantMinder)
    → m.running ≡ true
    → handle_event e (arrive arrived m) ≡ returns m1
    → run m ((arrived, e) ∷ rest) ≡ run m1 rest
unfolding run
turn_on arrived e rest m m1 on handled =
    if_running-on m (λ x. then_run (handle_event e (arrive arrived x)) (λ m''. run m'' rest)) on
    ∙ ap (λ o. then_run o (λ m''. run m'' rest)) handled

run-Agree :
    (es : List (List NodeSensorReading × Event)) (m w : PlantMinder)
    → IsSound m
    → IsSound w
    → Same m w
    → Agree (run m es) (run w es)
unfolding run
run-Agree [] m w hm hw same = (m, w, refl, refl, hm, hw, same)
run-Agree ((arrived, e) ∷ rest) m w hm hw same =
    let running : m.running ≡ w.running = ap (λ (x : PlantMinder). x.running) same.others in
    elim (Bool-cases m.running) [
      | inl on ↦
          (let (m1, w1, handled, handled', hm1, hw1, same1) =
              handle_event-Same e (arrive arrived m) (arrive arrived w) hm hw
                (arrive-Same arrived m w same) in
            let (m2, w2, ended, ended', sound, sound', same2) =
              run-Agree rest m1 w1 hm1 hw1 same1 in
            (
              m2,
              w2,
              turn_on arrived e rest m m1 on handled ∙ ended,
              turn_on arrived e rest w w1 (sym running ∙ on) handled' ∙ ended',
              sound,
              sound',
              same2,
            ))
      | inr stopped ↦ (
        m,
        w,
        run-stopped m ((arrived, e) ∷ rest) stopped,
        run-stopped w ((arrived, e) ∷ rest) (sym running ∙ stopped),
        hm,
        hw,
        same,
      )
    ]

abbrev pub Sound : Type 0
Sound = (m : PlantMinder) × IsSound m

-- The program's state, without the order.
abbrev pub View : Type 0
View = Quot (λ (x y : Sound). Same x.0 y.0)

abbrev pub view_of : Sound → View
view_of x = Quot.mk x

-- The state in which the loop ends.
abbrev after : List (List NodeSensorReading × Event) → Sound → Sound
after es (m, h) = let (m', _, h') = run_returns m es h in (m', h')

abbrev state_or : PlantMinder → Outcome PlantMinder → PlantMinder
state_or m panics = m
state_or m (returns m') = m'

after-Same :
    (es : List (List NodeSensorReading × Event)) (x y : Sound)
    → Same x.0 y.0
    → Same (after es x).0 (after es y).0
after-Same es (m, hm) (w, hw) same =
    let (m1, w1, ended, ended', _, _, same1) = run-Agree es m w hm hw same in
    let (m2, returned, _) = run_returns m es hm in
    let (w2, returned', _) = run_returns w es hw in
    subst (λ x. Same x w2) (ap (state_or m) (sym ended ∙ returned))
      (subst (λ x. Same m1 x) (ap (state_or w) (sym ended' ∙ returned')) same1)

view_after : List (List NodeSensorReading × Event) → View → View
view_after es =
    Quot.lift Quot-set (λ x. Quot.mk (after es x)) (λ x y h. Quot.sound (after-Same es x y h))

-- States of the program that differ in nothing but the order in which its maps are iterated stay so,
-- whatever events and readings come in: both end, without a panic, in states that differ in nothing
-- else. The maps repeat no key.
pub run-view_of :
    (es : List (List NodeSensorReading × Event)) (x y : Sound)
    → view_of x ≡ view_of y
    → (x' : Sound) × (y' : Sound) × (run x.0 es ≡ returns x'.0)
      × (run y.0 es ≡ returns y'.0)
      × (view_of x' ≡ view_of y')
unfolding view_after
run-view_of es (m, hm) (w, hw) same =
    let (m', returned, hm') = run_returns m es hm in
    let (w', returned', hw') = run_returns w es hw in
    ((m', hm'), (w', hw'), returned, returned', ap (view_after es) same)
