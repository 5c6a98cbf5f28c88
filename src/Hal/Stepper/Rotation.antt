-- ===== src/Hal/Stepper/Rotation.antt =====
-- The power of a motor after a rotation: StepperMotor::rotate, prepareForMotion and setSpeed
-- (libs/HardwareAbstractionLayerImpl/Rpi/src/StepperMotor.cpp).
use sugo_machine_application.Prelude.{
  ℕ, ◌≤◌, ◌≡◌, refl, sym, subst, Bool, true, false, not, ltb, some, arith, ◌⊎◌,
}
use sugo_machine_application.Hal.Bus.{Bus, HalWorld, ◌>>=◌, pure, i2c_write}
use sugo_machine_application.Hal.Tic.{Direction, set_target_velocity, run_value_command}
use sugo_machine_application.Hal.Stepper.{Fields, Outcome, with_controller_lem}
use sugo_machine_application.Hal.Stepper.Motion.{
  prepare_for_motion, set_speed_at, turn, rotate_at, rotate, velocity_of,
}
use sugo_machine_application.Hal.Stepper.Power.{energized, Refused}
use sugo_machine_application.Hal.Stepper.Preparation.{
  OffIfFailed, true_false, unless_failed_off, IfDone, unless_failed_done, off_or_on, or_stop_off,
  or_stop_done, prepare_for_motion_off, prepare_for_motion_done,
}

-- Power with a result of true, none with one of false, or a refused command to take it off.
abbrev pub RotateEnds : Bus → ℕ → Bool → HalWorld Fields → Type 0
RotateEnds bus address ok w =
    (energized bus w.history ≡ ok) ⊎ ((ok ≡ false) × Refused bus address w.history)

module _ (bus : Bus) (address : ℕ) where
  -- A speed within the maximum that cannot be set leaves the motor without power.
  set_speed_at_off :
      (rpm : ℕ) (w : HalWorld Fields)
      → rpm ≤ w.fields.max_speed
      → OffIfFailed bus address (set_speed_at bus address rpm w)
  unfolding set_speed_at
  set_speed_at_off rpm w within =
      let f = record w.fields { speed = rpm } in
      let (success, w1) =
        set_target_velocity bus address (velocity_of f.direction rpm) (record w { fields = f }) in
      let allowed : not (ltb w.fields.max_speed rpm) ≡ true = ground arith in
      rw allowed (or_stop_off bus address success (pure true) w1 true_false)

  set_speed_at_done :
      (rpm : ℕ) (w : HalWorld Fields)
      → energized bus w.history ≡ true
      → IfDone (λ v. energized bus v.history ≡ true) (set_speed_at bus address rpm w)
  unfolding set_speed_at set_target_velocity run_value_command i2c_write
  set_speed_at_done rpm w on =
      let f = record w.fields { speed = rpm } in
      let (success, w1) =
        set_target_velocity bus address (velocity_of f.direction rpm) (record w { fields = f }) in
      unless_failed_done (λ v. energized bus v.history ≡ true) (not (ltb w.fields.max_speed rpm)) _
        w
        (λ _.
          or_stop_done bus address (λ v. energized bus v.history ≡ true) success (pure true) w1
            (λ _ h. on))

  -- How a rotation that starts without power ends.
  rotate_at_power :
      (direction : Direction) (w : HalWorld Fields)
      → energized bus w.history ≡ false
      → w.fields.speed ≤ w.fields.max_speed
      → RotateEnds bus address
          (rotate_at bus address direction w).0
          (rotate_at bus address direction w).1
  unfolding rotate_at turn
  rotate_at_power direction w off within =
      let (prepared, w1) = prepare_for_motion bus address w in
      let w2 : HalWorld Fields = record w1 {
        fields = record w1.fields { direction = direction };
      } in
      let (ok, w3) = set_speed_at bus address w1.fields.speed w2 in
      let (result, w4) = rotate_at bus address direction w in
      let fields = λ (h : prepared ≡ true). (prepare_for_motion_done bus address w h).0 in
      off_or_on bus address result w4
        (unless_failed_off bus address prepared _ w1
          (λ h. prepare_for_motion_off bus address w off h)
          (λ h.
            unless_failed_off bus address ok (pure true) w3
              (set_speed_at_off w1.fields.speed w2
                (subst (λ f. f.speed ≤ f.max_speed) (sym (fields h)) within))
              (λ _. true_false)))
        (unless_failed_done (λ v. energized bus v.history ≡ true) prepared _ w1
          (λ h.
            unless_failed_done (λ v. energized bus v.history ≡ true) ok (pure true) w3
              (λ h' _.
                set_speed_at_done w1.fields.speed w2 (prepare_for_motion_done bus address w h).1
                  h')))

  -- A rotation within the maximum speed that starts without power returns. Counting the power
  -- commands that the controller acknowledged, the motor has power after it exactly if it has
  -- succeeded; or it has failed, and its last command to take the power off was not acknowledged.
  pub rotate_power :
      (direction : Direction) (w : HalWorld Fields)
      → w.fields.controller ≡ some address
      → energized bus w.history ≡ false
      → w.fields.speed ≤ w.fields.max_speed
      → (ok : Bool) × ((rotate bus direction w).0 ≡ Outcome.returned ok)
        × RotateEnds bus address ok (rotate bus direction w).1
  unfolding rotate
  rotate_power direction w here off within =
      subst (λ r. (ok : Bool) × (r.0 ≡ Outcome.returned ok) × RotateEnds bus address ok r.1)
        (sym (
          with_controller_lem (λ a. rotate_at bus a direction >>= λ ok. pure (Outcome.returned ok))
            (some address) w here))
        ((rotate_at bus address direction w).0, refl, rotate_at_power direction w off within)
