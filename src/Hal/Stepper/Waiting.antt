-- ===== src/Hal/Stepper/Waiting.antt =====
-- The waiting for a standstill ends: StepperMotor::waitAndShutdown, stop and rotateToPosition
-- (libs/HardwareAbstractionLayerImpl/Rpi/src/StepperMotor.cpp).
use sugo_machine_application.Prelude.{
  ℕ, zero, suc, ◌+◌, ◌≤◌, ◌<◌, ◌≡◌, refl, sym, subst, ◌∙◌, ap, Bool, true, false, List, Option,
  none, some, none-ne-some, arith, length, inl, inr,
}
use sugo_machine_application.Prelude.Int.{ℤ, ◌-ℤ◌}
use sugo_machine_application.Hal.Words.{word32, signed32}
use sugo_machine_application.Hal.Bus.{Bus, HalWorld, ◌>>=◌, pure, sleep, i2c_write}
use sugo_machine_application.Hal.Tic.{
  initial_state, length-initial_state, state_size, get_state, set_target_position,
  set_target_velocity, halt_and_hold, run_value_command, run_simple_command,
}
use sugo_machine_application.Hal.Stepper.{
  Fields, StepperAction, Outcome, outcome_of, with_controller_lem, verdict, after_verdict, poll,
  poll_round, after_poll, wait_and_shutdown, stop_at, stop, stop_now,
}
use sugo_machine_application.Hal.Tic.Reading.{length-get_state}
use sugo_machine_application.Hal.Stepper.Speed.{
  calculate_motion_time, calculate_motion_time-some, magnitude,
}
use sugo_machine_application.Hal.Stepper.Motion.{
  position_at, prepare_for_motion, after_target, move_to, after_prepared, rotate_to_position,
}
use sugo_machine_application.Hal.Stepper.Power.{
  energized, NoPower, Ended, get_state-Unpowered, wait_and_shutdown_off, stop_now_off,
}
use sugo_machine_application.Hal.Stepper.Preparation.{
  prepare_for_motion_off, prepare_for_motion_done,
}

module _ (bus : Bus) (address : ℕ) where
  failed_Ended : (w : HalWorld Fields) → NoPower bus address w → Ended bus address false w
  failed_Ended w (inl off) = inl off
  failed_Ended w (inr refused) = inr (refl, refused)

  -- Once this many calls are made, each state that is read shows a standstill or an error, or
  -- cannot be read.
  abbrev pub StillAfter : ℕ → Type 0
  StillAfter n =
      (memory : List ℕ) (w : HalWorld Fields)
      → length memory ≡ state_size
      → n ≤ length w.history
      → (verdict (get_state bus address memory w).0).0 ≡ true

  ended :
      (v : Bool × Bool) (remaining : ℕ) (stop_immediately : Bool)
      (again : ℕ → StepperAction (Option Bool)) (w : HalWorld Fields)
      → v.0 ≡ true
      → (error : Bool) × ((after_verdict bus v remaining stop_immediately again w).0 ≡ some error)
  unfolding after_verdict
  ended (true, error) remaining stop_immediately again w h = (error, refl)
  ended (false, error) remaining stop_immediately again w h = absurd (ground arith)

  goes_on :
      (v : Bool × Bool) (remaining : ℕ) (stop_immediately : Bool)
      (again : ℕ → StepperAction (Option Bool)) (w : HalWorld Fields)
      → ((r : ℕ) (w' : HalWorld Fields)
          → length w.history < length w'.history
          → (error : Bool) × ((again r w').0 ≡ some error))
      → (error : Bool) × ((after_verdict bus v remaining stop_immediately again w).0 ≡ some error)
  unfolding after_verdict sleep
  goes_on (true, error) remaining stop_immediately again w h = (error, refl)
  goes_on (false, error) remaining true again w h = (error, refl)
  goes_on (false, error) remaining false again w h = h _ _ (omega arith)

  poll_ends :
      (n : ℕ)
      → StillAfter n
      → (polls remaining : ℕ) (stop_immediately : Bool) (memory : List ℕ) (w : HalWorld Fields)
      → length memory ≡ state_size
      → n ≤ polls + length w.history
      → (error : Bool) × ((poll bus polls address remaining stop_immediately memory w).0
          ≡ some error)
  unfolding poll poll_round
  poll_ends n still zero remaining stop_immediately memory w size h =
      ended _ _ _ _ _ (still memory w size (omega arith))
  poll_ends n still (suc polls) remaining stop_immediately memory w size h =
      let read = get_state-Unpowered bus address memory w in
      let (answer, w1) = get_state bus address memory w in
      goes_on (verdict answer) remaining stop_immediately
        (λ r. poll bus polls address r stop_immediately answer.1) w1
        (λ r w' longer.
          poll_ends n still polls r stop_immediately answer.1 w'
            (length-get_state bus address memory w size) (omega (arith, read.grown, longer)))

  after_poll_returns :
      (result : Option Bool) (w : HalWorld Fields)
      → ((error : Bool) × (result ≡ some error))
      → (success : Bool) × ((after_poll bus address result w).0 ≡ some success)
  unfolding after_poll
  after_poll_returns none w e = absurd (none-ne-some e.0 e.1)
  after_poll_returns (some error) w e = (_, refl)

  pub wait_and_shutdown_ends :
      (n : ℕ)
      → StillAfter n
      → (polls remaining : ℕ) (stop_immediately : Bool) (w : HalWorld Fields)
      → n ≤ polls + length w.history
      → (success : Bool) × ((wait_and_shutdown bus polls address remaining stop_immediately w).0
          ≡ some success)
        × Ended bus address success
            (wait_and_shutdown bus polls address remaining stop_immediately w).1
  unfolding wait_and_shutdown
  wait_and_shutdown_ends n still polls remaining stop_immediately w h =
      let read = get_state-Unpowered bus address initial_state w in
      let (answer, w1) = get_state bus address initial_state w in
      let (result, w2) = poll bus polls address remaining stop_immediately answer.1 w1 in
      let (success, e) = after_poll_returns result w2 (
        poll_ends n still polls remaining stop_immediately answer.1 w1
          (length-get_state bus address initial_state w length-initial_state)
          (omega (arith, h, read.grown))) in
      (
        success,
        e,
        (wait_and_shutdown_off bus address polls remaining stop_immediately w success e).0,
      )

  -- The end of a call: it returns, and the power is off, or it has failed and the command to take the
  -- power off was not acknowledged.
  abbrev pub ReturnsOff : Outcome Bool × HalWorld Fields → Type 0
  ReturnsOff result =
      (success : Bool) × (result.0 ≡ Outcome.returned success) × Ended bus address success result.1

  stop_at_ends :
      (n : ℕ)
      → StillAfter n
      → (polls : ℕ) (stop_immediately : Bool) (w : HalWorld Fields) → n ≤ polls + length w.history
      → (success : Bool) × ((stop_at bus polls address stop_immediately w).0 ≡ some success)
        × Ended bus address success (stop_at bus polls address stop_immediately w).1
  unfolding stop_at halt_and_hold set_target_velocity run_simple_command run_value_command i2c_write
  stop_at_ends n still polls true w h =
      wait_and_shutdown_ends n still polls 0 _ _ (omega (arith, h))
  stop_at_ends n still polls false w h =
      wait_and_shutdown_ends n still polls 0 _ _ (omega (arith, h))

  -- If each state that is read after `n` calls shows a standstill or an error, or cannot be read, and
  -- the polls that are allowed reach to the n-th call, then a stop returns. Counting the power commands
  -- that the controller acknowledged, the motor has no power after it; or the stop returns false and
  -- its command to take the power off was not acknowledged.
  pub stop_ends :
      (n : ℕ) (polls : ℕ) (stop_immediately : Bool) (w : HalWorld Fields)
      → StillAfter n
      → w.fields.controller ≡ some address
      → n ≤ polls + length w.history
      → ReturnsOff (stop bus polls stop_immediately w)
  unfolding stop
  stop_ends n polls stop_immediately w still here h =
      let (success, e, off) = stop_at_ends n still polls stop_immediately w h in
      subst ReturnsOff
        (sym (
          with_controller_lem
            (λ a. stop_at bus polls a stop_immediately >>= λ result. pure (outcome_of result))
            (some address) w here))
        (success, ap outcome_of e, off)

  after_target_ends :
      (n : ℕ)
      → StillAfter n
      → (polls remaining : ℕ) (sent : Bool) (w : HalWorld Fields) → n ≤ polls
      → ReturnsOff (after_target bus polls address remaining sent w)
  unfolding after_target
  after_target_ends n still polls remaining true w h =
      let (success, e, off) =
        wait_and_shutdown_ends n still polls remaining false w (omega (arith, h)) in
      (success, ap outcome_of e, off)
  after_target_ends n still polls remaining false w h =
      (false, refl, failed_Ended (stop_now bus address w).1 (stop_now_off bus address w).0)

  after_prepared_ends :
      (n : ℕ)
      → StillAfter n
      → (polls : ℕ) (position : ℤ) (prepared : Bool) (w : HalWorld Fields) → n ≤ polls
      → (prepared ≡ false → NoPower bus address w)
      → (prepared ≡ true → (0 < w.fields.max_speed) × (w.fields.max_speed ≤ 2684354))
      → ReturnsOff (after_prepared bus polls address position prepared w)
  unfolding after_prepared position_at move_to set_target_position
  after_prepared_ends n still polls position false w h off speed =
      (false, refl, failed_Ended w (off refl))
  after_prepared_ends n still polls position true w h off speed =
      let read = get_state-Unpowered bus address initial_state w in
      let (current, w1) = position_at bus address w in
      let distance = magnitude (signed32 (word32 (current -ℤ position))) in
      let (t, e) =
        calculate_motion_time-some w.fields.max_speed distance (speed refl).0 (speed refl).1 in
      let time : calculate_motion_time w1.fields.max_speed distance ≡ some t =
        ap (λ f. calculate_motion_time f.max_speed distance) read.same_fields ∙ e in
      moved (calculate_motion_time w1.fields.max_speed distance) t w1 time
    where
      moved :
          (time : Option ℕ) (t : ℕ) (v : HalWorld Fields)
          → time ≡ some t
          → ReturnsOff (move_to bus polls address position time v)
      moved none t v e = absurd (none-ne-some t e)
      moved (some remaining) t v e =
          let (sent, v1) = set_target_position bus address position v in
          after_target_ends n still polls remaining sent v1 h

  -- If each state that is read after `n` calls shows a standstill or an error, or cannot be read, then
  -- a movement to a position that starts without power, with at least `n` polls and a maximum speed
  -- from 1 to 2684354, returns. Counting the power commands that the controller acknowledged, the motor
  -- has no power after it; or the movement returns false and its last command to take the power off
  -- was not acknowledged.
  pub rotate_to_position_ends :
      (n : ℕ) (polls : ℕ) (position : ℤ) (w : HalWorld Fields)
      → StillAfter n
      → w.fields.controller ≡ some address
      → energized bus w.history ≡ false
      → 0 < w.fields.max_speed
      → w.fields.max_speed ≤ 2684354
      → n ≤ polls
      → ReturnsOff (rotate_to_position bus polls position w)
  unfolding rotate_to_position
  rotate_to_position_ends n polls position w still here off positive small h =
      let (prepared, w1) = prepare_for_motion bus address w in
      let ends =
        after_prepared_ends n still polls position prepared w1 h
          (prepare_for_motion_off bus address w off)
          (λ p.
            subst (λ f. (0 < f.max_speed) × (f.max_speed ≤ 2684354))
              (sym (prepare_for_motion_done bus address w p).0) (positive, small)) in
      subst ReturnsOff
        (sym (
          with_controller_lem
            (λ a. prepare_for_motion bus a >>= after_prepared bus polls a position) (some address) w
            here))
        ends
