-- ===== src/Hal/Stepper/Preparation.antt =====
-- A preparation that fails leaves the motor without power, or with a refused command to take it off:
-- StepperMotor::prepareForMotion and finalize
-- (libs/HardwareAbstractionLayerImpl/Rpi/src/StepperMotor.cpp).
use sugo_machine_application.Prelude.{
  ℕ, ◌≡◌, refl, sym, ◌∙◌, Bool, true, false, Option, none, some, arith, ◌⊎◌, inl, inr,
}
use sugo_machine_application.Prelude.Int.{pos, eqb_ℤ}
use sugo_machine_application.Framework.World.{Level, low, high}
use sugo_machine_application.Hal.Bus
use sugo_machine_application.Hal.Tic.Startup.{turn_off}
use sugo_machine_application.Hal.Tic.Startup
use sugo_machine_application.Hal.Bus.{
  Bus, reset_pin, BusCall, HalWorld, ◌>>=◌, pure, i2c_read, i2c_write, unless_failed,
}
use sugo_machine_application.Hal.Tic.{
  initial_state, state_of, step1_8, get_state, energize, exit_safe_start, set_max_speed,
  set_step_mode, set_current_limit, get_variable_and_clear_errors, run_simple_command,
  run_value_command,
}
use sugo_machine_application.Hal.Stepper.{
  Fields, StepperAction, current_limit, delete_controller, finalize,
}
use sugo_machine_application.Hal.Stepper.Motion.{
  or_stop, leave_and_energize, configure_and_energize, after_step_mode, prepare_for_motion,
  microsteps_of,
}
use sugo_machine_application.Hal.Stepper.Power.{
  energized, NoPower, Refused, get_state-Unpowered, stop_now_off,
}

-- A result of false comes with no power, or with a refused command to take it off.
abbrev pub OffIfFailed : Bus → ℕ → Bool × HalWorld Fields → Type 0
OffIfFailed bus address result = result.0 ≡ false → NoPower bus address result.1

pub true_false : {A : Type 0} → true ≡ false → A
true_false h = absurd (ground arith)

pub unless_failed_off :
    (bus : Bus) (address : ℕ) (ok : Bool) (next : StepperAction Bool) (w : HalWorld Fields)
    → (ok ≡ false → NoPower bus address w)
    → (ok ≡ true → OffIfFailed bus address (next w))
    → OffIfFailed bus address (unless_failed ok next w)
unless_failed_off bus address true next w off then_off = then_off refl
unless_failed_off bus address false next w off then_off = λ h. off refl

-- A result of true comes with a property of the world.
abbrev pub IfDone : (HalWorld Fields → Type 0) → Bool × HalWorld Fields → Type 0
IfDone P result = result.0 ≡ true → P result.1

pub unless_failed_done :
    (P : HalWorld Fields → Type 0) (ok : Bool) (next : StepperAction Bool) (w : HalWorld Fields)
    → (ok ≡ true → IfDone P (next w))
    → IfDone P (unless_failed ok next w)
unless_failed_done P true next w done = done refl
unless_failed_done P false next w done = λ h. true_false (sym h)

-- These fields, and power.
abbrev pub On : Bus → Fields → HalWorld Fields → Type 0
On bus f w = (w.fields ≡ f) × (energized bus w.history ≡ true)

pub off_or_on :
    (bus : Bus) (address : ℕ) (result : Bool) (w : HalWorld Fields)
    → (result ≡ false → NoPower bus address w)
    → (result ≡ true → energized bus w.history ≡ true)
    → (energized bus w.history ≡ result) ⊎ ((result ≡ false) × Refused bus address w.history)
off_or_on bus address true w off on = inl (on refl)
off_or_on bus address false w off on = elim (off refl) [
  | inl no_power ↦ inl no_power
  | inr refused ↦ inr (refl, refused)
]

module _ (bus : Bus) (address : ℕ) where
  pub or_stop_off :
      (ok : Bool) (next : StepperAction Bool) (w : HalWorld Fields)
      → OffIfFailed bus address (next w)
      → OffIfFailed bus address (or_stop bus address ok next w)
  unfolding or_stop
  or_stop_off true next w then_off = then_off
  or_stop_off false next w then_off = λ h. (stop_now_off bus address w).0

  leave_and_energize_off :
      (w : HalWorld Fields) → OffIfFailed bus address (leave_and_energize bus address w)
  unfolding leave_and_energize
  leave_and_energize_off w =
      let (left, w1) = exit_safe_start bus address w in
      let (powered, w2) = energize bus address w1 in
      or_stop_off left _ w1 (or_stop_off powered (pure true) w2 true_false)

  configure_and_energize_off :
      (w : HalWorld Fields)
      → energized bus w.history ≡ false
      → OffIfFailed bus address (configure_and_energize bus address w)
  unfolding configure_and_energize set_max_speed run_value_command set_current_limit i2c_write
      i2c_read get_variable_and_clear_errors
  configure_and_energize_off w off =
      let (speed_set, w1) = set_max_speed bus address (microsteps_of w.fields.max_speed) w in
      let (limit_set, w2) = set_current_limit bus address current_limit w1 in
      let (_, w3) = get_variable_and_clear_errors bus address 0 2 w2 in
      unless_failed_off bus address speed_set _ w1 (λ _. inl off)
        (λ _.
          unless_failed_off bus address limit_set _ w2 (λ _. inl off)
            (λ _. leave_and_energize_off w3))

  pub finalize_power :
      (w : HalWorld Fields) → energized bus (finalize bus w).1.history ≡ energized bus w.history
  unfolding finalize delete_controller Startup.finalize turn_off Bus.set_state Bus.get_state
  finalize_power w = deleted w.fields.controller
    where
      turned :
          (level : Level) (a : ℕ) (v : HalWorld Fields)
          → energized bus (turn_off bus a level v).1.history ≡ energized bus v.history
      turned low a v = refl
      turned high a v = refl

      deleted :
          (controller : Option ℕ)
          → energized bus (delete_controller bus controller w).1.history ≡ energized bus w.history
      deleted none = refl
      deleted (some a) = let (level, w1) = Bus.get_state bus reset_pin w in turned level a w1

  after_step_mode_off :
      (set : Bool) (w : HalWorld Fields)
      → energized bus w.history ≡ false
      → OffIfFailed bus address (after_step_mode bus address set w)
  unfolding after_step_mode
  after_step_mode_off true w off = configure_and_energize_off w off
  after_step_mode_off false w off = λ h. inl (finalize_power w ∙ off)

  pub prepare_for_motion_off :
      (w : HalWorld Fields)
      → energized bus w.history ≡ false
      → OffIfFailed bus address (prepare_for_motion bus address w)
  unfolding prepare_for_motion set_step_mode i2c_write
  prepare_for_motion_off w off =
      let (answer, w1) = get_state bus address initial_state w in
      let still = eqb_ℤ (state_of answer.1).current_velocity (pos 0) in
      let read = get_state-Unpowered bus address initial_state w in
      let (set, w2) = set_step_mode bus address step1_8 w1 in
      let off' = read.same_power ∙ off in
      unless_failed_off bus address answer.0 _ w1 (λ _. inl off')
        (λ _.
          unless_failed_off bus address still _ w1 (λ _. inl off')
            (λ _. after_step_mode_off set w2 off'))

  pub or_stop_done :
      (P : HalWorld Fields → Type 0) (ok : Bool) (next : StepperAction Bool) (w : HalWorld Fields)
      → (ok ≡ true → IfDone P (next w))
      → IfDone P (or_stop bus address ok next w)
  unfolding or_stop
  or_stop_done P true next w done = done refl
  or_stop_done P false next w done = λ h. true_false (sym h)

  configure_and_energize_done :
      (w : HalWorld Fields) → IfDone (On bus w.fields) (configure_and_energize bus address w)
  unfolding configure_and_energize set_max_speed run_value_command set_current_limit i2c_write
      i2c_read get_variable_and_clear_errors leave_and_energize exit_safe_start energize
      run_simple_command
  configure_and_energize_done w =
      let (speed_set, w1) = set_max_speed bus address (microsteps_of w.fields.max_speed) w in
      let (limit_set, w2) = set_current_limit bus address current_limit w1 in
      let (_, w3) = get_variable_and_clear_errors bus address 0 2 w2 in
      let (left, w4) = exit_safe_start bus address w3 in
      let (powered, w5) = energize bus address w4 in
      unless_failed_done (On bus w.fields) speed_set _ w1 (λ _.
        unless_failed_done (On bus w.fields) limit_set _ w2 (λ _.
          or_stop_done (On bus w.fields) left _ w4 (λ _.
            or_stop_done (On bus w.fields) powered (pure true) w5
              (λ taken h. (refl, rw taken refl)))))

  after_step_mode_done :
      (set : Bool) (w : HalWorld Fields)
      → IfDone (On bus w.fields) (after_step_mode bus address set w)
  unfolding after_step_mode
  after_step_mode_done true w = configure_and_energize_done w
  after_step_mode_done false w = λ h. true_false (sym h)

  pub prepare_for_motion_done :
      (w : HalWorld Fields) → IfDone (On bus w.fields) (prepare_for_motion bus address w)
  unfolding prepare_for_motion set_step_mode i2c_write
  prepare_for_motion_done w =
      let (answer, w1) = get_state bus address initial_state w in
      let still = eqb_ℤ (state_of answer.1).current_velocity (pos 0) in
      let read = get_state-Unpowered bus address initial_state w in
      let (set, w2) = set_step_mode bus address step1_8 w1 in
      unless_failed_done (On bus w.fields) answer.0 _ w1 (λ _.
        unless_failed_done (On bus w.fields) still _ w1
          (λ _ h. let done = after_step_mode_done set w2 h in (done.0 ∙ read.same_fields, done.1)))
