-- ===== src/Hal/Stepper.antt =====
-- The stepper motors: StepperMotor (libs/HardwareAbstractionLayerImpl/Rpi/src/StepperMotor.cpp and
-- libs/HardwareAbstractionLayerImpl/include/HardwareAbstractionLayer/StepperMotor.hpp) over the
-- controller. A motor whose controller has been deleted is one with no address.
pub mod Speed
pub mod Motion
pub mod Power
pub mod Preparation
pub mod Rotation
pub mod Waiting
pub mod Feedback
pub mod Loss
pub mod Beginning
use sugo_machine_application.Prelude.{
  ℕ, zero, suc, ◌+◌, ◌-◌, ◌*◌, ◌/◌, ◌%◌, ◌^◌, ◌≡◌, ap, Bool, true, false, not, ◌&&◌, ◌||◌, ltb,
  ◌==◌, if◌then◌else◌, List, Option, none, some,
}
use sugo_machine_application.Prelude.Int.{ℤ, pos, negsuc, eqb_ℤ, sub_ℕ, ◌-ℤ◌}
use sugo_machine_application.Hal.Words.{word32, signed32}
use sugo_machine_application.Hal.Bus.{
  Bus, HalWorld, HalAction, ◌>>=◌, ◌>>◌, pure, get_fields, set_fields, sleep,
}
use sugo_machine_application.Hal.Tic.{
  State, Direction, forward, backward, step1_8, operation_normal, state_of, initial_state,
  set_target_position, set_target_velocity, halt_and_hold, de_energize, energize, exit_safe_start,
  enter_safe_start, set_max_speed, set_step_mode, set_current_limit, get_variable_and_clear_errors,
  get_state,
}
use sugo_machine_application.Hal.Tic.Startup
use Speed.{
  rpm_to_microsteps_per_10k_seconds, microsteps_per_10k_seconds_to_rpm, calculate_motion_time,
  magnitude, micro_steps_per_step, micro_steps_per_round,
}

abbrev pub min_wait_time : ℕ
min_wait_time = 2

abbrev pub max_wait_time : ℕ
max_wait_time = 500

abbrev pub current_limit : ℕ
current_limit = 1500

pub record Fields : Type 0 where
  pub controller : Option ℕ
  pub max_speed : ℕ
  pub speed : ℕ
  pub direction : Direction

pub record Config : Type 0 where
  pub i2c_address : ℕ
  pub max_speed_rpm : ℕ
  pub is_backward : Bool

abbrev pub StepperAction : Type 0 → Type 0
StepperAction A = HalAction Fields A

-- What becomes of a call: it returns, it dereferences the null pointer of a deleted controller or
-- divides by zero, or it still polls the controller after the polls that it was given.
pub data Outcome (A : Type 0) : Type 0 where
  returned : A → Outcome A
  crashed : Outcome A
  polling : Outcome A

abbrev pub outcome_of : {A : Type 0} → Option A → Outcome A
outcome_of none = Outcome.polling
outcome_of (some a) = Outcome.returned a

-- A use of `m_controller`.
abbrev pub use_controller :
    {A : Type 0} → Option ℕ → (ℕ → StepperAction (Outcome A)) → StepperAction (Outcome A)
use_controller none use_it = pure Outcome.crashed
use_controller (some address) use_it = use_it address

abbrev pub with_controller :
    {A : Type 0} → (ℕ → StepperAction (Outcome A)) → StepperAction (Outcome A)
with_controller use_it w = use_controller w.fields.controller use_it w

pub with_controller_lem :
    {A : Type 0} (use_it : ℕ → StepperAction (Outcome A)) (controller : Option ℕ)
    (w : HalWorld Fields)
    → w.fields.controller ≡ controller
    → with_controller use_it w ≡ use_controller controller use_it w
with_controller_lem use_it controller w here = ap (λ c. use_controller c use_it w) here

-- A round of the loop of `waitAndShutdown` after the state was read: whether the loop is left, and
-- whether an error occurred.
unfoldable pub verdict : Bool × List ℕ → Bool × Bool
unfolding state_of
verdict answer =
    let state = state_of answer.1 in
    let error_occurred = not answer.0 || not (state.operation_state == operation_normal) in
    (eqb_ℤ state.current_velocity (pos 0) || error_occurred, error_occurred)

unfoldable pub next_remaining : ℕ → ℕ → ℕ
next_remaining remaining elapsed =
    if ltb min_wait_time (remaining - elapsed) then remaining - elapsed else min_wait_time

-- The fields of a motor once `init` has read the configuration.
abbrev pub configured : Config → Fields → Fields
configured config f = record f {
  controller = some (config.i2c_address % 256);
  max_speed = config.max_speed_rpm;
  direction = if config.is_backward then backward else forward;
}

module _ (bus : Bus) where
  -- `finalize`, with the destructor of the controller.
  unfoldable pub delete_controller : Option ℕ → StepperAction (Unit {0})
  unfolding Startup.finalize
  delete_controller none = pure tt
  delete_controller (some address) = Startup.finalize bus address >> get_fields >>= λ f.
      set_fields (record f { controller = none })

  unfoldable pub finalize : StepperAction (Unit {0})
  unfolding delete_controller
  finalize = get_fields >>= λ f. delete_controller f.controller

  -- `init`, from the result of the controller's start on.
  unfoldable pub after_start : Bool → StepperAction Bool
  unfolding finalize
  after_start true = pure true
  after_start false = finalize >> pure false

  unfoldable pub init : Config → StepperAction Bool
  unfolding Startup.init after_start
  init config = get_fields >>= λ f.
      set_fields (configured config f)
      >> Startup.init bus (config.i2c_address % 256)
      >>= after_start

  -- The rest of the round, and how the loop goes on. Its result is whether an error occurred.
  unfoldable pub after_verdict :
      Bool × Bool → ℕ → Bool → (ℕ → StepperAction (Option Bool)) → StepperAction (Option Bool)
  unfolding sleep next_remaining
  after_verdict (true, error_occurred) remaining stop_immediately again = pure (some error_occurred)
  after_verdict (false, error_occurred) remaining stop_immediately again =
      sleep bus (if ltb max_wait_time remaining then max_wait_time else remaining) >>= λ elapsed.
      if stop_immediately
      then pure (some error_occurred)
      else again (next_remaining remaining elapsed)

  unfoldable pub poll_round :
      ℕ
      → ℕ
      → Bool
      → List ℕ
      → (ℕ → List ℕ → StepperAction (Option Bool))
      → StepperAction (Option Bool)
  unfolding get_state verdict after_verdict
  poll_round address remaining stop_immediately memory again =
      get_state bus address memory >>= λ answer.
      after_verdict (verdict answer) remaining stop_immediately
        (λ remaining'. again remaining' answer.1)

  -- The loop, with a number of further polls; `none` when these are used up.
  unfoldable pub poll : ℕ → ℕ → ℕ → Bool → List ℕ → StepperAction (Option Bool)
  unfolding poll_round
  poll zero address remaining stop_immediately memory =
      poll_round address remaining stop_immediately memory (λ remaining' memory'. pure none)
  poll (suc polls) address remaining stop_immediately memory =
      poll_round address remaining stop_immediately memory
        (λ remaining' memory'. poll polls address remaining' stop_immediately memory')

  -- `waitAndShutdown` from the end of the loop on.
  unfoldable pub shutdown : ℕ → Bool → StepperAction Bool
  unfolding de_energize enter_safe_start
  shutdown address error_occurred = de_energize bus address >>= λ de_energized.
      enter_safe_start bus address >>= λ safe.
      pure (if error_occurred then false else (if not (safe && de_energized) then false else true))

  unfoldable pub after_poll : ℕ → Option Bool → StepperAction (Option Bool)
  unfolding shutdown
  after_poll address none = pure none
  after_poll address (some error_occurred) =
      shutdown address error_occurred >>= λ success. pure (some success)

  unfoldable pub wait_and_shutdown : ℕ → ℕ → ℕ → Bool → StepperAction (Option Bool)
  unfolding get_state poll after_poll
  wait_and_shutdown polls address remaining stop_immediately =
      get_state bus address initial_state >>= λ answer.
      poll polls address remaining stop_immediately answer.1 >>= after_poll address

  -- `stop`, with the controller at hand.
  unfoldable pub stop_at : ℕ → ℕ → Bool → StepperAction (Option Bool)
  unfolding halt_and_hold set_target_velocity wait_and_shutdown
  stop_at polls address stop_immediately =
      (if stop_immediately
        then halt_and_hold bus address
        else set_target_velocity bus address (pos 0))
      >>= λ success.
          wait_and_shutdown polls address 0 (if not success then true else stop_immediately)

  -- `(void)stop(true)`: it polls once.
  unfoldable pub stop_now : ℕ → StepperAction (Option Bool)
  unfolding stop_at
  stop_now address = stop_at 0 address true

  unfoldable pub stop : ℕ → Bool → StepperAction (Outcome Bool)
  unfolding stop_at
  stop polls stop_immediately =
      with_controller
        (λ address. stop_at polls address stop_immediately >>= λ result. pure (outcome_of result))
