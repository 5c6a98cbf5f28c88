-- ===== src/Hal/Stepper/Motion.antt =====
-- The movements of a stepper motor: StepperMotor::prepareForMotion, rotate, rotateToPosition,
-- setSpeed, getSpeed, getPosition and reset
-- (libs/HardwareAbstractionLayerImpl/Rpi/src/StepperMotor.cpp).
use sugo_machine_application.Prelude.{
  ℕ, Bool, true, false, not, ltb, ◌==◌, if◌then◌else◌, Option, none, some,
}
use sugo_machine_application.Prelude.Int.{ℤ, pos, eqb_ℤ, sub_ℕ, ◌-ℤ◌}
use sugo_machine_application.Hal.Words.{word32, signed32}
use sugo_machine_application.Hal.Bus.{Bus, ◌>>=◌, ◌>>◌, pure, unless_failed, get_fields, set_fields}
use sugo_machine_application.Hal.Tic.{
  Direction, forward, backward, step1_8, state_of, initial_state, set_target_position,
  set_target_velocity, energize, exit_safe_start, set_max_speed, set_step_mode, set_current_limit,
  get_variable_and_clear_errors, get_state,
}
use sugo_machine_application.Hal.Stepper.{
  Fields, StepperAction, Outcome, outcome_of, with_controller, finalize, stop_now,
  wait_and_shutdown, current_limit,
}
use sugo_machine_application.Hal.Stepper.Speed.{
  rpm_to_microsteps_per_10k_seconds, microsteps_per_10k_seconds_to_rpm, calculate_motion_time,
  magnitude, micro_steps_per_step, micro_steps_per_round,
}

unfoldable pub get_micro_step_count : Fields → ℕ
get_micro_step_count f = micro_steps_per_step

unfoldable pub get_steps_per_round : Fields → ℕ
get_steps_per_round f = micro_steps_per_round

unfoldable pub get_max_speed : Fields → ℕ
get_max_speed f = f.max_speed

-- `setMaxSpeed`: the speed that is set stays, even if it is above.
unfoldable pub set_max_speed_rpm : ℕ → StepperAction (Unit {0})
set_max_speed_rpm rpm = get_fields >>= λ f. set_fields (record f { max_speed = rpm })

-- The microsteps of a speed, as `static_cast<unsigned>(std::abs(...))`.
unfoldable pub microsteps_of : ℕ → ℕ
unfolding signed32 rpm_to_microsteps_per_10k_seconds magnitude
microsteps_of rpm = magnitude (rpm_to_microsteps_per_10k_seconds (signed32 rpm))

unfoldable pub velocity_of : Direction → ℕ → ℤ
unfolding microsteps_of signed32
velocity_of forward rpm = signed32 (microsteps_of rpm)
velocity_of backward rpm = signed32 (word32 (sub_ℕ 0 (microsteps_of rpm)))

module _ (bus : Bus) where
  -- The same where the motor is stopped before.
  unfoldable pub or_stop : ℕ → Bool → StepperAction Bool → StepperAction Bool
  unfolding stop_now
  or_stop address true next = next
  or_stop address false next = stop_now bus address >> pure false

  -- The last step of `prepareForMotion`.
  unfoldable pub leave_and_energize : ℕ → StepperAction Bool
  unfolding exit_safe_start energize or_stop
  leave_and_energize address = exit_safe_start bus address >>= λ left.
      or_stop address left
        (energize bus address >>= λ energized. or_stop address energized (pure true))

  -- `prepareForMotion` from the configuration of the maximum speed on.
  unfoldable pub configure_and_energize : ℕ → StepperAction Bool
  unfolding set_max_speed microsteps_of set_current_limit get_variable_and_clear_errors
      leave_and_energize
  configure_and_energize address = get_fields >>= λ f.
      set_max_speed bus address (microsteps_of f.max_speed) >>= λ speed_set.
      unless_failed speed_set (
        set_current_limit bus address current_limit >>= λ limit_set.
        unless_failed limit_set
          (get_variable_and_clear_errors bus address 0 2 >> leave_and_energize address))

  -- `prepareForMotion` from the step mode on: without it the controller is deleted.
  unfoldable pub after_step_mode : ℕ → Bool → StepperAction Bool
  unfolding finalize configure_and_energize
  after_step_mode address true = configure_and_energize address
  after_step_mode address false = finalize bus >> pure false

  unfoldable pub prepare_for_motion : ℕ → StepperAction Bool
  unfolding get_state state_of set_step_mode after_step_mode
  prepare_for_motion address = get_state bus address initial_state >>= λ answer.
      unless_failed answer.0 (
        unless_failed (eqb_ℤ (state_of answer.1).current_velocity (pos 0))
          (set_step_mode bus address step1_8 >>= after_step_mode address))

  -- `setSpeed`, with the controller at hand.
  unfoldable pub set_speed_at : ℕ → ℕ → StepperAction Bool
  unfolding set_target_velocity velocity_of or_stop
  set_speed_at address rpm = get_fields >>= λ f. unless_failed (not (ltb f.max_speed rpm)) (
      set_fields (record f { speed = rpm })
      >> set_target_velocity bus address (velocity_of f.direction rpm)
      >>= λ success. or_stop address success (pure true))

  unfoldable pub set_speed : ℕ → StepperAction (Outcome Bool)
  unfolding set_speed_at
  set_speed rpm = get_fields >>= λ f.
      if ltb f.max_speed rpm
      then pure (Outcome.returned false)
      else with_controller
          (λ address. set_speed_at address rpm >>= λ ok. pure (Outcome.returned ok))

  -- `rotate` after `prepareForMotion`.
  unfoldable pub turn : ℕ → Direction → Bool → StepperAction Bool
  unfolding set_speed_at
  turn address direction prepared = unless_failed prepared (
      get_fields >>= λ f.
      set_fields (record f { direction = direction }) >> set_speed_at address f.speed >>= λ ok.
      unless_failed ok (pure true))

  unfoldable pub rotate_at : ℕ → Direction → StepperAction Bool
  unfolding prepare_for_motion turn
  rotate_at address direction = prepare_for_motion address >>= turn address direction

  unfoldable pub rotate : Direction → StepperAction (Outcome Bool)
  unfolding rotate_at
  rotate direction =
      with_controller (λ address. rotate_at address direction >>= λ ok. pure (Outcome.returned ok))

  -- `rotate()`.
  unfoldable pub rotate_again : StepperAction (Outcome Bool)
  unfolding rotate
  rotate_again = get_fields >>= λ f. rotate f.direction

  unfoldable pub position_at : ℕ → StepperAction ℤ
  unfolding get_state state_of
  position_at address = get_state bus address initial_state >>= λ answer.
      pure (if not answer.0 then pos 0 else (state_of answer.1).current_position)

  unfoldable pub get_position : StepperAction (Outcome ℤ)
  unfolding position_at
  get_position = with_controller (λ address. position_at address >>= λ p. pure (Outcome.returned p))

  unfoldable pub speed_at : ℕ → StepperAction ℕ
  unfolding get_state state_of microsteps_per_10k_seconds_to_rpm word32
  speed_at address = get_state bus address initial_state >>= λ answer. pure (
      if not answer.0
      then 0
      else word32 (microsteps_per_10k_seconds_to_rpm (state_of answer.1).current_velocity))

  unfoldable pub get_speed : StepperAction (Outcome ℕ)
  unfolding speed_at
  get_speed = with_controller (λ address. speed_at address >>= λ s. pure (Outcome.returned s))

  -- `reset` from the speed on.
  unfoldable pub stop_if_moving : ℕ → ℕ → StepperAction (Outcome Bool)
  unfolding stop_now
  stop_if_moving address rpm =
      if not (rpm == 0)
      then stop_now bus address >> pure (Outcome.returned true)
      else pure (Outcome.returned true)

  unfoldable pub reset : StepperAction (Outcome Bool)
  unfolding speed_at stop_if_moving
  reset = with_controller (λ address. speed_at address >>= stop_if_moving address)

  -- `rotateToPosition` from the target position on; the polls are those of `waitAndShutdown`.
  unfoldable pub after_target : ℕ → ℕ → ℕ → Bool → StepperAction (Outcome Bool)
  unfolding stop_now wait_and_shutdown
  after_target polls address remaining true =
      wait_and_shutdown bus polls address remaining false >>= λ result. pure (outcome_of result)
  after_target polls address remaining false = stop_now bus address >> pure (Outcome.returned false)

  unfoldable pub move_to : ℕ → ℕ → ℤ → Option ℕ → StepperAction (Outcome Bool)
  unfolding set_target_position after_target
  move_to polls address position none = pure Outcome.crashed
  move_to polls address position (some remaining) =
      set_target_position bus address position >>= after_target polls address remaining

  unfoldable pub after_prepared : ℕ → ℕ → ℤ → Bool → StepperAction (Outcome Bool)
  unfolding position_at calculate_motion_time magnitude signed32 word32 ◌-ℤ◌ move_to
  after_prepared polls address position false = pure (Outcome.returned false)
  after_prepared polls address position true = position_at address >>= λ current.
      get_fields >>= λ f.
      move_to polls address position
        (calculate_motion_time f.max_speed (magnitude (signed32 (word32 (current -ℤ position)))))

  unfoldable pub rotate_to_position : ℕ → ℤ → StepperAction (Outcome Bool)
  unfolding prepare_for_motion after_prepared
  rotate_to_position polls position =
      with_controller
        (λ address. prepare_for_motion address >>= after_prepared polls address position)
