-- ===== src/Tests/Motors.antt =====
-- The stepper motors on concrete buses.
use sugo_machine_application.Prelude.{
  ℕ, ◌+◌, ◌≡◌, refl, ◌==◌, ◌∙◌, ap, Bool, true, false, if◌then◌else◌, List, [], ◌∷◌, none, some,
  arith,
}
use sugo_machine_application.Prelude.Int.{ℤ, pos, negsuc}
use sugo_machine_application.Hal.Words.{signed32, word32, byte_at, uint16_at, uint32_at, int32_at}
use sugo_machine_application.Hal.Bus.{
  Bus, BusCall, i2c_transfer, write_message, HalWorld, i2c_write, buffer,
}
use sugo_machine_application.Hal.Tic.{
  forward, backward, state_size, initial_state, length-initial_state, state_of, set_step_mode,
  get_state,
}
use sugo_machine_application.Hal.Tic.Reading.{Answers, get_state-Answers}
use sugo_machine_application.Hal.Tic.Startup.{check_error, check_error-true}
use sugo_machine_application.Hal.Tic.Started.{Started}
use sugo_machine_application.Hal.Stepper.Speed.{rpm_to_microsteps_per_10k_seconds, magnitude}
use sugo_machine_application.Hal.Stepper.{Fields, Config, Outcome, stop, verdict}
use sugo_machine_application.Hal.Stepper.Motion.{
  velocity_of, microsteps_of, rotate, rotate_to_position, get_speed, reset,
}
use sugo_machine_application.Hal.Stepper.Rotation.{RotateEnds, rotate_power}
use sugo_machine_application.Hal.Stepper.Waiting.{
  StillAfter, ReturnsOff, stop_ends, rotate_to_position_ends,
}
use sugo_machine_application.Hal.Stepper.Feedback.{
  after_state_reads, velocity_in, speed_value, reported, get_speed-velocity_of, reset_slow,
}
use sugo_machine_application.Hal.Stepper.Loss.{Lost, rotate_refused}

-- A controller that acknowledges each command, or each but the step mode, and answers each read out
-- of its memory.
abbrev transferred : Bool → BusCall → ℤ
transferred takes_mode (i2c_transfer (write_message a (command ∷ byte ∷ []) ∷ [])) =
    if takes_mode then pos 1 else negsuc 0
transferred takes_mode (i2c_transfer (m ∷ n ∷ [])) = pos 2
transferred takes_mode _ = pos 1

abbrev out_of : (ℕ → ℕ) → BusCall → ℕ → ℕ
out_of memory (i2c_transfer (write_message a (command ∷ offset ∷ []) ∷ n ∷ [])) i =
    memory (offset + i)
out_of memory _ i = 0

abbrev controller_bus : Bool → (ℕ → ℕ) → Bus
controller_bus takes_mode memory = record {
  ioctl = λ h c. transferred takes_mode c;
  received = λ h c. out_of memory c;
  pin_value = λ h pin. 1;
  elapsed = λ h n. n;
}

controller_bus-Answers :
    (takes_mode : Bool) (address : ℕ) (memory : ℕ → ℕ)
    → Answers (controller_bus takes_mode memory) address memory
controller_bus-Answers takes_mode address memory = record {
  goes_through = λ h offset size. refl;
  answers = λ h offset size i. refl;
}

-- At rest in the operation state Normal, and with the velocity of 1 and of -3 rpm.
abbrev resting : ℕ → ℕ
resting i = if i == 0 then 10 else 0

abbrev slow : ℕ → ℕ
slow i =
    if i == 0
    then 10
    else (if i == 38 then 0xAA else (if i == 39 then 0x11 else (if i == 40 then 4 else 0)))

abbrev backwards : ℕ → ℕ
backwards i =
    if i == 0
    then 10
    else (if i == 38
        then 0x00
        else (if i == 39 then 0xCB else (if i == 40 then 0xF3 else (if i == 41 then 0xFF else 0))))

abbrev motor : HalWorld Fields
motor = record {
  fields = record { controller = some 14; max_speed = 100; speed = 50; direction = forward };
  history = [];
}

resting_bus-still : StillAfter (controller_bus true resting) 14 0
unfolding verdict signed32 buffer
resting_bus-still memory w size h =
    ap (λ (r : (Bool × List ℕ) × HalWorld Fields). (verdict r.0).0)
      (get_state-Answers (controller_bus true resting) 14 resting
        (controller_bus-Answers true 14 resting) memory w size)

rotate_example :
    (ok : Bool) × ((rotate (controller_bus true resting) forward motor).0 ≡ Outcome.returned ok)
    × RotateEnds
        (controller_bus true resting)
        14
        ok
        (rotate (controller_bus true resting) forward motor).1
rotate_example = rotate_power (controller_bus true resting) 14 forward motor refl refl (omega arith)

stop_example :
    ReturnsOff (controller_bus true resting) 14 (stop (controller_bus true resting) 0 false motor)
stop_example =
    stop_ends (controller_bus true resting) 14 0 0 false motor resting_bus-still refl (omega arith)

rotate_to_position_example :
    ReturnsOff
      (controller_bus true resting)
      14
      (rotate_to_position (controller_bus true resting) 0 (pos 1600) motor)
rotate_to_position_example =
    rotate_to_position_ends (controller_bus true resting) 14 0 0 (pos 1600) motor resting_bus-still
      refl refl (omega arith) (omega arith) (omega arith)

get_state_example :
    get_state (controller_bus true slow) 14 initial_state motor
    ≡ ((true, buffer slow 0 state_size), record motor { history = after_state_reads 14 [] })
get_state_example =
    get_state-Answers (controller_bus true slow) 14 slow (controller_bus-Answers true 14 slow)
      initial_state motor length-initial_state

abbrev motor_config : Config
motor_config = record { i2c_address = 14; max_speed_rpm = 50; is_backward = false }

abbrev new_motor : HalWorld Fields
new_motor = record {
  fields = record { controller = none; max_speed = 0; speed = 0; direction = forward };
  history = [];
}

abbrev started_from : HalWorld Fields
started_from = record new_motor {
  fields = record { controller = some 14; max_speed = 50; speed = 0; direction = forward };
}

backwards_velocity : velocity_in backwards ≡ velocity_of backward 3
unfolding velocity_of microsteps_of rpm_to_microsteps_per_10k_seconds magnitude signed32 word32
    buffer state_of byte_at uint16_at uint32_at int32_at
backwards_velocity = refl

get_speed_example :
    (get_speed (controller_bus true backwards) motor).0
    ≡ Outcome.returned (speed_value backward (reported 3))
get_speed_example =
    get_speed-velocity_of (controller_bus true backwards) 14 backwards backward 3 motor
      (controller_bus-Answers true 14 backwards) refl (omega arith) backwards_velocity

slow_velocity : magnitude (velocity_in slow) ≡ 266666
unfolding magnitude signed32 buffer state_of byte_at uint16_at uint32_at int32_at
slow_velocity = refl

reset_slow_example :
    reset (controller_bus true slow) motor
    ≡ (Outcome.returned true, record motor { history = after_state_reads 14 [] })
reset_slow_example =
    reset_slow (controller_bus true slow) 14 slow motor (controller_bus-Answers true 14 slow) refl
      (omega (arith, slow_velocity))

resting_state :
    (address : ℕ) (takes_mode : Bool)
    → get_state (controller_bus takes_mode resting) address initial_state motor ≡ (
      (true, buffer resting 0 state_size),
      record motor { history = after_state_reads address [] },
    )
resting_state address takes_mode =
    get_state-Answers (controller_bus takes_mode resting) address resting
      (controller_bus-Answers takes_mode address resting) initial_state motor length-initial_state

resting_velocity : velocity_in resting ≡ pos 0
unfolding signed32 buffer state_of byte_at uint16_at uint32_at int32_at
resting_velocity = refl

rotate_refused_example :
    ((rotate (controller_bus false resting) forward motor).0 ≡ Outcome.returned false)
    × Lost (controller_bus false resting) (rotate (controller_bus false resting) forward motor).1
unfolding set_step_mode i2c_write
rotate_refused_example =
    rotate_refused (controller_bus false resting) 14 forward motor refl
      (ap (λ (r : (Bool × List ℕ) × HalWorld Fields). r.0.0) (resting_state 14 false))
      (ap (λ (r : (Bool × List ℕ) × HalWorld Fields). (state_of r.0.1).current_velocity)
          (resting_state 14 false)
        ∙ resting_velocity)
      refl

check_error_example : (check_error (controller_bus true slow) 14 motor).0 ≡ true
check_error_example = check_error-true (controller_bus true slow) 14 motor
