-- ===== src/Hal/Stepper/Loss.antt =====
-- The loss of a motor's controller: StepperMotor::prepareForMotion, rotate and finalize
-- (libs/HardwareAbstractionLayerImpl/Rpi/src/StepperMotor.cpp).
use sugo_machine_application.Prelude.{
  ℕ, ltb, Bool-cases, inl, inr, if◌then◌else◌, ◌≡◌, refl, sym, subst, ◌∙◌, ap, Bool, true, false,
  Option, none, some,
}
use sugo_machine_application.Prelude.Int.{ℤ, pos, eqb_ℤ}
use sugo_machine_application.Hal.Bus.{Bus, HalWorld, ◌>>=◌, pure, unless_failed}
use sugo_machine_application.Hal.Tic.{
  Direction, initial_state, state_of, step1_8, get_state, set_step_mode,
}
use sugo_machine_application.Hal.Stepper.{
  Fields, StepperAction, Outcome, with_controller_lem, stop, finalize, delete_controller,
}
use sugo_machine_application.Hal.Stepper.Motion.{
  get_speed, get_position, reset, rotate, rotate_again, rotate_to_position, set_speed, rotate_at,
  turn, prepare_for_motion, after_step_mode,
}

-- The operations that use the controller crash at once: `stop`, `reset`, `rotate`,
-- `rotateToPosition`, the two readings, and `setSpeed`, which returns false for a speed above the
-- maximum.
pub record Lost (bus : Bus) (w : HalWorld Fields) : Type 0 where
  pub stop_crashes : (polls : ℕ) (now : Bool) → stop bus polls now w ≡ (Outcome.crashed, w)
  pub reset_crashes : reset bus w ≡ (Outcome.crashed, w)
  pub rotate_crashes : (direction : Direction) → rotate bus direction w ≡ (Outcome.crashed, w)
  pub rotate_again_crashes : rotate_again bus w ≡ (Outcome.crashed, w)
  pub rotate_to_position_crashes :
      (polls : ℕ) (position : ℤ) → rotate_to_position bus polls position w ≡ (Outcome.crashed, w)
  pub get_speed_crashes : get_speed bus w ≡ (Outcome.crashed, w)
  pub get_position_crashes : get_position bus w ≡ (Outcome.crashed, w)
  pub set_speed_crashes :
      (rpm : ℕ)
      → set_speed bus rpm w
        ≡ ((if ltb w.fields.max_speed rpm then Outcome.returned false else Outcome.crashed), w)

set_speed-none :
    (bus : Bus) (w : HalWorld Fields)
    → w.fields.controller ≡ none
    → (rpm : ℕ)
    → set_speed bus rpm w
      ≡ ((if ltb w.fields.max_speed rpm then Outcome.returned false else Outcome.crashed), w)
unfolding set_speed
set_speed-none bus w gone rpm = elim (Bool-cases (ltb w.fields.max_speed rpm)) [
  | inl high ↦ rw high refl
  | inr allowed ↦ rw allowed (with_controller_lem _ none w gone)
]

Lost-none : (bus : Bus) (w : HalWorld Fields) → w.fields.controller ≡ none → Lost bus w
unfolding stop reset rotate rotate_again rotate_to_position get_speed get_position
Lost-none bus w gone = record {
  stop_crashes = λ polls now. with_controller_lem _ none w gone;
  reset_crashes = with_controller_lem _ none w gone;
  rotate_crashes = λ direction. with_controller_lem _ none w gone;
  rotate_again_crashes = with_controller_lem _ none w gone;
  rotate_to_position_crashes = λ polls position. with_controller_lem _ none w gone;
  get_speed_crashes = with_controller_lem _ none w gone;
  get_position_crashes = with_controller_lem _ none w gone;
  set_speed_crashes = set_speed-none bus w gone;
}

unless_failed-true :
    (ok : Bool) (next : StepperAction Bool) (w : HalWorld Fields)
    → ok ≡ true
    → unless_failed ok next w ≡ next w
unless_failed-true ok next w h = ap (λ b. unless_failed b next w) h

module _ (bus : Bus) (address : ℕ) where
  finalize-none : (w : HalWorld Fields) → (finalize bus w).1.fields.controller ≡ none
  unfolding finalize delete_controller
  finalize-none w = gone w.fields.controller refl
    where
      gone :
          (c : Option ℕ)
          → w.fields.controller ≡ c
          → (delete_controller bus c w).1.fields.controller ≡ none
      gone none e = e
      gone (some a) e = refl

  prepare_refused :
      (w : HalWorld Fields)
      → (get_state bus address initial_state w).0.0 ≡ true
      → (state_of (get_state bus address initial_state w).0.1).current_velocity ≡ pos 0
      → (set_step_mode bus address step1_8 (get_state bus address initial_state w).1).0 ≡ false
      → prepare_for_motion bus address w ≡ (
        false,
        (finalize bus
            (set_step_mode bus address step1_8 (get_state bus address initial_state w).1).1).1,
      )
  unfolding prepare_for_motion after_step_mode
  prepare_refused w ok still refused =
      let (answer, w1) = get_state bus address initial_state w in
      let (set, w2) = set_step_mode bus address step1_8 w1 in
      unless_failed-true answer.0 _ w1 ok
      ∙ unless_failed-true (eqb_ℤ (state_of answer.1).current_velocity (pos 0)) _ w1
          (ap (λ z. eqb_ℤ z (pos 0)) still)
      ∙ ap (λ b. after_step_mode bus address b w2) refused

  -- Where a motor whose state can be read and whose velocity is 0 does not acknowledge the step mode,
  -- its rotation returns false and leaves it so that stop, reset, both forms of rotate,
  -- rotateToPosition, getSpeed and getPosition each dereference a null pointer when called next, and
  -- so does setSpeed for a speed within the maximum, while it returns false for one above it.
  pub rotate_refused :
      (direction : Direction) (w : HalWorld Fields)
      → w.fields.controller ≡ some address
      → (get_state bus address initial_state w).0.0 ≡ true
      → (state_of (get_state bus address initial_state w).0.1).current_velocity ≡ pos 0
      → (set_step_mode bus address step1_8 (get_state bus address initial_state w).1).0 ≡ false
      → ((rotate bus direction w).0 ≡ Outcome.returned false) × Lost bus (rotate bus direction w).1
  unfolding rotate rotate_at turn
  rotate_refused direction w here ok still refused =
      let (answer, w1) = get_state bus address initial_state w in
      let (set, w2) = set_step_mode bus address step1_8 w1 in
      let w3 = (finalize bus w2).1 in
      let ends : rotate bus direction w ≡ (Outcome.returned false, w3) =
        with_controller_lem (λ a. rotate_at bus a direction >>= λ r. pure (Outcome.returned r))
          (some address) w here
        ∙ ap turned (prepare_refused w ok still refused) in
      (
        ap (λ r. r.0) ends,
        subst (λ r. Lost bus r.1) (sym ends) (Lost-none bus w3 (finalize-none w2)),
      )
    where
      turned : Bool × HalWorld Fields → Outcome Bool × HalWorld Fields
      turned r = let (ok', w') = turn bus address direction r.0 r.1 in (Outcome.returned ok', w')
