-- ===== src/Firmware/Tsl2591/Control.antt =====
-- The driver's gain and integration time against the control register of the sensor.
pub mod SetUp
use plant_minder.Base.{
  bit_or, ok-injective, ℕ, ◌+◌, ◌≡◌, refl, ◌⊎◌, inl, inr, [], ◌∷◌, Bool, true, false, Option, none,
  some, Result, ok, err, ◌∙◌, ap, sym,
}
use mathlib.Core.Path.{subst}
use plant_minder.Sensor.{i2c_write_error}
use plant_minder.Firmware.{I2c, then_step, lift_err}
use plant_minder.Firmware.Tsl2591.{
  Tsl2591Error, i2c_error, Gain, medium, IntegrationTime, int_time_300, full_spectrum, Tsl2591,
  gain_code, time_code, cmd_ctrl_set, cmd_enable, written, enable, set_gain, set_timing, new,
  configure_gain, configure_time, configure, adjusted, adjust_for_current_light,
}

-- The sensor behind the bus, by its control register: a write to the register that succeeds sets it.
pub record Device (I : I2c) : Type 0 where
  pub control : I.Bus → ℕ
  pub control_written :
      (address v : ℕ) (bus bus' : I.Bus)
      → I.write address (cmd_ctrl_set ∷ v ∷ []) bus ≡ (true, bus')
      → control bus' ≡ v

abbrev pub gain_or : Gain → Option Gain → Gain
gain_or g none = g
gain_or g (some g') = g'

abbrev pub time_or : IntegrationTime → Option IntegrationTime → IntegrationTime
time_or t none = t
time_or t (some t') = t'

module _ (I : I2c) (D : Device I) where
  -- The register holds the driver's gain and integration time.
  abbrev pub InSync : Tsl2591 I.Bus → Type 0
  InSync s = D.control s.i2c ≡ bit_or (time_code s.int_time) (gain_code s.gain)

  configure_gain_write :
      (s : Tsl2591 I.Bus) (g : Gain) (p : Bool × I.Bus)
      → I.write s.address (cmd_ctrl_set ∷ (bit_or (time_code s.int_time) (gain_code g)) ∷ []) s.i2c
        ≡ p
      → let r =
          then_step
            (lift_err i2c_error (written I s p))
            (λ _ s1. (ok tt, record s1 { gain = g })) in
        ((r.0 ≡ ok tt) × InSync r.1 × (r.1 ≡ record s { i2c = r.1.i2c; gain = g }))
        ⊎ ((r.0 ≡ err (i2c_error i2c_write_error)) × (r.1 ≡ record s { i2c = r.1.i2c }))
  configure_gain_write s g (true, bus) e = inl (refl, D.control_written _ _ _ _ e, refl)
  configure_gain_write s g (false, bus) e = inr (refl, refl)

  configure_time_write :
      (s : Tsl2591 I.Bus) (t : IntegrationTime) (p : Bool × I.Bus)
      → I.write s.address (cmd_ctrl_set ∷ (bit_or (time_code t) (gain_code s.gain)) ∷ []) s.i2c ≡ p
      → let r =
          then_step
            (lift_err i2c_error (written I s p))
            (λ _ s1. (ok tt, record s1 { int_time = t })) in
        ((r.0 ≡ ok tt) × InSync r.1 × (r.1 ≡ record s { i2c = r.1.i2c; int_time = t }))
        ⊎ ((r.0 ≡ err (i2c_error i2c_write_error)) × (r.1 ≡ record s { i2c = r.1.i2c }))
  configure_time_write s t (true, bus) e = inl (refl, D.control_written _ _ _ _ e, refl)
  configure_time_write s t (false, bus) e = inr (refl, refl)

  configure_gain_lem :
      (g : Option Gain) (s : Tsl2591 I.Bus)
      → InSync s
      → let r = configure_gain I g s in
        ((r.0 ≡ ok tt) × InSync r.1 × (r.1 ≡ record s { i2c = r.1.i2c; gain = gain_or s.gain g }))
        ⊎ ((r.0 ≡ err (i2c_error i2c_write_error)) × (r.1 ≡ record s { i2c = r.1.i2c }))
  unfolding configure_gain set_gain
  configure_gain_lem none s h = inl (refl, h, refl)
  configure_gain_lem (some g) s h = configure_gain_write s g _ refl

  configure_time_lem :
      (t : Option IntegrationTime) (s : Tsl2591 I.Bus)
      → InSync s
      → let r = configure_time I t s in
        ((r.0 ≡ ok tt)
          × InSync r.1
          × (r.1 ≡ record s { i2c = r.1.i2c; int_time = time_or s.int_time t }))
        ⊎ ((r.0 ≡ err (i2c_error i2c_write_error)) × (r.1 ≡ record s { i2c = r.1.i2c }))
  unfolding configure_time set_timing
  configure_time_lem none s h = inl (refl, h, refl)
  configure_time_lem (some t) s h = configure_time_write s t _ refl

  -- What the two settings have done, `g` and `t` being the new ones.
  abbrev pub Configured :
      Gain
      → IntegrationTime
      → Tsl2591 I.Bus
      → Result (Unit {0}) Tsl2591Error × Tsl2591 I.Bus
      → Type 0
  Configured g t s r =
      ((r.0 ≡ ok tt) × InSync r.1 × (r.1 ≡ record s { i2c = r.1.i2c; gain = g; int_time = t }))
      ⊎ ((r.0 ≡ err (i2c_error i2c_write_error))
          × (r.1.fault_count ≡ s.fault_count)
          × (r.1.int_time ≡ s.int_time))

  configure_rest :
      (g : Gain) (t : Option IntegrationTime) (s : Tsl2591 I.Bus)
      (p : Result (Unit {0}) Tsl2591Error × Tsl2591 I.Bus)
      → ((p.0 ≡ ok tt) × InSync p.1 × (p.1 ≡ record s { i2c = p.1.i2c; gain = g }))
        ⊎ ((p.0 ≡ err (i2c_error i2c_write_error)) × (p.1 ≡ record s { i2c = p.1.i2c }))
      → Configured g (time_or s.int_time t) s (then_step p (λ _ s1. configure_time I t s1))
  configure_rest g t s (ok _, s1) (inl (_, sync, e)) = elim (configure_time_lem t s1 sync) [
    | inl (done, sync', e') ↦ inl (
      done,
      sync',
      e'
          ∙ ap
              (λ (x : Tsl2591 I.Bus). record x {
                i2c = (configure_time I t s1).1.i2c;
                int_time = time_or x.int_time t;
              })
              e,
    )
    | inr (failed, e') ↦ inr (
      failed,
      ap (λ (x : Tsl2591 I.Bus). x.fault_count) e' ∙ ap (λ (x : Tsl2591 I.Bus). x.fault_count) e,
      ap (λ (x : Tsl2591 I.Bus). x.int_time) e' ∙ ap (λ (x : Tsl2591 I.Bus). x.int_time) e,
    )
  ]
  configure_rest g t s (ok _, s1) (inr (q, e)) = cc
  configure_rest g t s (err x, s1) (inl (q, _, e)) = cc
  configure_rest g t s (err x, s1) (inr (q, e)) =
      inr (q, ap (λ (x : Tsl2591 I.Bus). x.fault_count) e, ap (λ (x : Tsl2591 I.Bus). x.int_time) e)

  -- A configuration that succeeds leaves the sensor's control register with the driver's gain and
  -- time, the new ones where they are given; one that fails says so and leaves the time and the
  -- count of faults. The register agrees with the driver before.
  pub configure_lem :
      (g : Option Gain) (t : Option IntegrationTime) (s : Tsl2591 I.Bus)
      → InSync s
      → Configured (gain_or s.gain g) (time_or s.int_time t) s (configure I g t s)
  unfolding configure
  configure_lem g t s h =
      configure_rest (gain_or s.gain g) t s (configure_gain I g s) (configure_gain_lem g s h)

  -- What an adjustment has done.
  abbrev pub Adjusted : Tsl2591 I.Bus → Result (Unit {0}) Tsl2591Error × Tsl2591 I.Bus → Type 0
  Adjusted s r =
      ((r.0 ≡ ok tt)
        × InSync r.1
        × (r.1 ≡ record s {
          i2c = r.1.i2c;
          gain = (adjusted s.gain).0;
          int_time = (adjusted s.gain).1;
          fault_count = 0;
        }))
      ⊎ ((r.0 ≡ err (i2c_error i2c_write_error)) × (r.1.fault_count ≡ s.fault_count))

  adjust_rest :
      (s : Tsl2591 I.Bus) (p : Result (Unit {0}) Tsl2591Error × Tsl2591 I.Bus)
      → Configured (adjusted s.gain).0 (adjusted s.gain).1 s p
      → Adjusted s (then_step p (λ _ s1. (ok tt, record s1 { fault_count = 0 })))
  adjust_rest s (ok _, s1) (inl (_, sync, e)) =
      inl (refl, sync, ap (λ (x : Tsl2591 I.Bus). record x { fault_count = 0 }) e)
  adjust_rest s (ok _, s1) (inr (q, _, _)) = cc
  adjust_rest s (err x, s1) (inl (q, _, _)) = cc
  adjust_rest s (err x, s1) (inr (q, e, _)) = inr (q, e)

  -- An adjustment that succeeds moves to the next of the four gains with its time, sets the register
  -- to them whatever it held, and forgets the faults; one that fails is an error of the bus and
  -- keeps the count.
  pub adjust_for_current_light_lem : (s : Tsl2591 I.Bus) → Adjusted s (adjust_for_current_light I s)
  unfolding adjust_for_current_light configure configure_gain set_gain
  adjust_for_current_light_lem s = adjust_rest s _ (
      configure_rest (adjusted s.gain).0 (some (adjusted s.gain).1) s _
        (configure_gain_write s (adjusted s.gain).0 _ refl))
