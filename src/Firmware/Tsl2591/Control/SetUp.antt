-- ===== src/Firmware/Tsl2591/Control/SetUp.antt =====
-- The light sensor's driver once it has come up.
use plant_minder.Base.{
  bit_or, ok-injective, ℕ, ◌≡◌, refl, [], ◌∷◌, Bool, true, false, ok, ◌∙◌, ap, sym,
}
use mathlib.Core.Path.{subst}
use plant_minder.Firmware.{I2c, then_step}
use plant_minder.Firmware.Tsl2591.{
  medium, int_time_300, full_spectrum, Tsl2591, gain_code, time_code, cmd_ctrl_set, cmd_enable,
  written, enable, set_gain, set_timing, new,
}
use plant_minder.Firmware.Tsl2591.Control.{Device, InSync}

module _ (I : I2c) (D : Device I) where
  -- A driver with the default settings.
  abbrev pub fresh : I.Bus → ℕ → Tsl2591 I.Bus
  fresh bus address = record {
    address = address;
    i2c = bus;
    gain = medium;
    int_time = int_time_300;
    mode = full_spectrum;
    fault_count = 0;
  }

  new_gain :
      (bus : I.Bus) (address : ℕ) (s : Tsl2591 I.Bus) (p : Bool × I.Bus)
      → I.write address
          (cmd_ctrl_set ∷ (bit_or (time_code int_time_300) (gain_code medium)) ∷ [])
          bus
        ≡ p
      → (then_step (written I (fresh bus address) p) (λ _ s3. (ok s3, s3))).0 ≡ ok s
      → InSync I D s × (s ≡ fresh s.i2c address)
  new_gain bus address s (true, bus') e h =
      let same = ok-injective h in
      (
        subst (InSync I D) same (D.control_written _ _ _ _ e),
        sym same ∙ ap (λ (x : Tsl2591 I.Bus). fresh x.i2c address) same,
      )
  new_gain bus address s (false, bus') e h = cc

  new_timing :
      (bus : I.Bus) (address : ℕ) (s : Tsl2591 I.Bus) (p : Bool × I.Bus)
      → (then_step
          (written I (fresh bus address) p)
          (λ _ s2. then_step (set_gain I medium s2) (λ _ s3. (ok s3, s3)))).0
        ≡ ok s
      → InSync I D s × (s ≡ fresh s.i2c address)
  unfolding set_gain
  new_timing bus address s (true, bus') h = new_gain bus' address s _ refl h
  new_timing bus address s (false, bus') h = cc

  new_enable :
      (bus : I.Bus) (address : ℕ) (s : Tsl2591 I.Bus) (p : Bool × I.Bus)
      → (then_step (written I (fresh bus address) p) (λ _ s1.
          then_step
            (set_timing I int_time_300 s1)
            (λ _ s2. then_step (set_gain I medium s2) (λ _ s3. (ok s3, s3))))).0
        ≡ ok s
      → InSync I D s × (s ≡ fresh s.i2c address)
  unfolding set_timing
  new_enable bus address s (true, bus') h = new_timing bus' address s _ h
  new_enable bus address s (false, bus') h = cc

  -- A driver that comes up has set the control register to its gain and time, the default ones, and
  -- has counted no faults.
  pub tsl_new_lem :
      (bus : I.Bus) (address : ℕ) (s : Tsl2591 I.Bus)
      → new I bus address ≡ ok s
      → InSync I D s × (s ≡ fresh s.i2c address)
  unfolding new enable
  tsl_new_lem bus address s h = new_enable bus address s (I.write address cmd_enable bus) h
