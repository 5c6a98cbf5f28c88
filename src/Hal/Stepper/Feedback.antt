-- ===== src/Hal/Stepper/Feedback.antt =====
-- What a motor reports about its movement, and the loss of its controller: StepperMotor::getSpeed,
-- reset, rotate and prepareForMotion
-- (libs/HardwareAbstractionLayerImpl/Rpi/src/StepperMotor.cpp).
use sugo_machine_application.Prelude.{
  ℕ, zero, suc, ◌-◌, ◌*◌, ◌/◌, ◌%◌, ◌^◌, ◌≤◌, ◌<◌, ◌≡◌, refl, ◌∙◌, ap, Bool, true, not, ◌==◌,
  if◌then◌else◌, List, [], ◌∷◌, some, arith,
}
use sugo_machine_application.Prelude.Int.{ℤ, sub_ℕ}
use sugo_machine_application.Hal.Words.{word32, signed32}
use sugo_machine_application.Hal.Bus.{Bus, HalWorld, BusCall, buffer, read_call, ◌>>=◌, pure}
use sugo_machine_application.Hal.Tic.{
  Direction, forward, backward, initial_state, length-initial_state, state_of, state_size,
}
use sugo_machine_application.Hal.Tic.Reading.{Answers, get_state-Answers}
use sugo_machine_application.Hal.Stepper.{Fields, Outcome, with_controller_lem}
use sugo_machine_application.Hal.Stepper.Speed.{
  rpm_to_microsteps_per_10k_seconds, microsteps_per_10k_seconds_to_rpm, magnitude,
}
use sugo_machine_application.Hal.Stepper.Motion.{
  velocity_of, microsteps_of, speed_at, get_speed, stop_if_moving, reset,
}

-- The speed that is read back for one that was set: the quotient by 3 is not exact.
abbrev pub reported : ℕ → ℕ
reported rpm = if rpm % 3 == 0 then rpm else rpm - 1

reported-forward :
    (rpm : ℕ)
    → rpm ≤ 134
    → word32 (microsteps_per_10k_seconds_to_rpm (velocity_of forward rpm)) ≡ reported rpm
unfolding velocity_of microsteps_of rpm_to_microsteps_per_10k_seconds
    microsteps_per_10k_seconds_to_rpm magnitude word32 signed32
reported-forward rpm h = ground arith

microsteps_of_small : (rpm : ℕ) → rpm ≤ 134 → microsteps_of rpm ≡ rpm * 16000000 / 60
unfolding microsteps_of rpm_to_microsteps_per_10k_seconds magnitude signed32
microsteps_of_small rpm h = ground arith

negative_word : (m : ℕ) → m < 2 ^ 31 → signed32 (word32 (sub_ℕ 0 m)) ≡ sub_ℕ 0 m
unfolding signed32 word32
negative_word m h = ground arith

negative_rpm :
    (m : ℕ)
    → m ≤ 35733333
    → word32 (microsteps_per_10k_seconds_to_rpm (sub_ℕ 0 m)) ≡ (2 ^ 32 - m * 60 / 16000000) % 2 ^ 32
unfolding microsteps_per_10k_seconds_to_rpm word32 signed32
negative_rpm zero h = refl
negative_rpm (suc m) h = ground arith

reported-backward :
    (rpm : ℕ)
    → rpm ≤ 134
    → word32 (microsteps_per_10k_seconds_to_rpm (velocity_of backward rpm))
      ≡ (2 ^ 32 - reported rpm) % 2 ^ 32
unfolding velocity_of
reported-backward rpm h =
    let m = rpm * 16000000 / 60 in
    let round : m * 60 / 16000000 ≡ reported rpm = ground arith in
    rw
      (
        microsteps_of_small rpm h,
        negative_word m (omega arith),
        negative_rpm m (omega arith),
        round,
      )
      refl

-- A velocity of less than a round per minute.
slow_reported :
    (velocity : ℤ)
    → magnitude velocity ≤ 266666
    → word32 (microsteps_per_10k_seconds_to_rpm velocity) ≡ 0
unfolding microsteps_per_10k_seconds_to_rpm magnitude word32 signed32
slow_reported velocity h = ground arith

-- The velocity in a controller's memory.
abbrev pub velocity_in : (ℕ → ℕ) → ℤ
velocity_in memory = (state_of (buffer memory 0 state_size)).current_velocity

-- The three reads of a controller's state.
abbrev pub after_state_reads : ℕ → List BusCall → List BusCall
after_state_reads address h =
    read_call address (0xA1 ∷ 30 ∷ []) 12
    ∷ read_call address (0xA1 ∷ 15 ∷ []) 15
    ∷ read_call address (0xA1 ∷ 0 ∷ []) 15
    ∷ h

-- The value that `getSpeed` gives for a direction: as unsigned, a speed backwards wraps around.
abbrev pub speed_value : Direction → ℕ → ℕ
speed_value forward rpm = rpm
speed_value backward rpm = (2 ^ 32 - rpm) % 2 ^ 32

module _ (bus : Bus) (address : ℕ) (memory : ℕ → ℕ) where
  speed_at-Answers :
      (w : HalWorld Fields)
      → Answers bus address memory
      → speed_at bus address w ≡ (
        word32 (microsteps_per_10k_seconds_to_rpm (velocity_in memory)),
        record w { history = after_state_reads address w.history },
      )
  unfolding speed_at
  speed_at-Answers w a =
      ap speed_of (get_state-Answers bus address memory a initial_state w length-initial_state)
    where
      speed_of : (Bool × List ℕ) × HalWorld Fields → ℕ × HalWorld Fields
      speed_of r = (
        if not r.0.0
            then 0
            else word32 (microsteps_per_10k_seconds_to_rpm (state_of r.0.1).current_velocity),
        r.1,
      )

  -- A motor that moves with the velocity that a speed of up to 134 rpm is set to reports this speed
  -- if it is a multiple of 3, else one less; a motor that moves backward reports it wrapped around.
  pub get_speed-velocity_of :
      (direction : Direction) (rpm : ℕ) (w : HalWorld Fields)
      → Answers bus address memory
      → w.fields.controller ≡ some address
      → rpm ≤ 134
      → velocity_in memory ≡ velocity_of direction rpm
      → (get_speed bus w).0 ≡ Outcome.returned (speed_value direction (reported rpm))
  unfolding get_speed
  get_speed-velocity_of direction rpm w a here h moves =
      let read = speed_at-Answers w a in
      let value =
        ap (λ z. word32 (microsteps_per_10k_seconds_to_rpm z)) moves ∙ by_direction direction in
      ap (λ r. r.0)
        (with_controller_lem (λ x. speed_at bus x >>= λ s. pure (Outcome.returned s)) (some address)
          w here)
      ∙ ap (λ r. Outcome.returned r.0) read
      ∙ ap Outcome.returned value
    where
      by_direction :
          (d : Direction)
          → word32 (microsteps_per_10k_seconds_to_rpm (velocity_of d rpm))
            ≡ speed_value d (reported rpm)
      by_direction forward = reported-forward rpm h
      by_direction backward = reported-backward rpm h

  -- `reset` leaves a motor running that moves by less than a round per minute: it only reads the
  -- state, and returns true.
  pub reset_slow :
      (w : HalWorld Fields)
      → Answers bus address memory
      → w.fields.controller ≡ some address
      → magnitude (velocity_in memory) ≤ 266666
      → reset bus w
        ≡ (Outcome.returned true, record w { history = after_state_reads address w.history })
  unfolding reset stop_if_moving
  reset_slow w a here slow =
      with_controller_lem (λ x. speed_at bus x >>= stop_if_moving bus x) (some address) w here
      ∙ ap stop_if_moving_at (speed_at-Answers w a)
      ∙ ap (λ rpm. stop_if_moving bus address rpm w') (slow_reported (velocity_in memory) slow)
    where
      w' : HalWorld Fields
      w' = record w { history = after_state_reads address w.history }

      stop_if_moving_at : ℕ × HalWorld Fields → Outcome Bool × HalWorld Fields
      stop_if_moving_at r = stop_if_moving bus address r.0 r.1
