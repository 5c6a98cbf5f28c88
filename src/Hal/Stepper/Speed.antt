-- ===== src/Hal/Stepper/Speed.antt =====
-- The units of a motor's speed: the constants and functions of the first namespace of
-- libs/HardwareAbstractionLayerImpl/Rpi/src/StepperMotor.cpp. An int wraps around at 2 ^ 32, which
-- is what the processor does; the language leaves an overflow open.
use sugo_machine_application.Prelude.{
  ℕ, ◌+◌, ◌-◌, ◌*◌, ◌/◌, ◌%◌, ◌^◌, ◌≤◌, ◌<◌, ◌≡◌, refl, false, ◌==◌, if◌then◌else◌, Option, none,
  some, arith,
}
use sugo_machine_application.Prelude.Int.{ℤ, pos, negsuc, sub_ℕ}
use sugo_machine_application.Hal.Words.{word32, signed32}

abbrev pub micro_steps_per_step : ℕ
micro_steps_per_step = 8

abbrev full_steps_per_round : ℕ
full_steps_per_round = 200

abbrev pub micro_steps_per_round : ℕ
micro_steps_per_round = full_steps_per_round * micro_steps_per_step

abbrev seconds_per_minute : ℕ
seconds_per_minute = 60

abbrev milliseconds_per_minute : ℕ
milliseconds_per_minute = seconds_per_minute * 1000

-- A product of an int and a positive constant, and a quotient by one: it rounds towards 0.
unfoldable times : ℤ → ℕ → ℤ
unfolding word32 signed32
times (pos n) k = signed32 (n * k % 2 ^ 32)
times (negsuc n) k = signed32 (word32 (sub_ℕ 0 ((n + 1) * k)))

unfoldable over : ℤ → ℕ → ℤ
over (pos n) k = pos (n / k)
over (negsuc n) k = sub_ℕ 0 ((n + 1) / k)

unfoldable pub rpm_to_microsteps_per_10k_seconds : ℤ → ℤ
unfolding times over
rpm_to_microsteps_per_10k_seconds rpm =
    over (times (times rpm micro_steps_per_round) 10000) seconds_per_minute

unfoldable pub microsteps_per_10k_seconds_to_rpm : ℤ → ℤ
unfolding times over
microsteps_per_10k_seconds_to_rpm microsteps =
    over (times microsteps seconds_per_minute) (micro_steps_per_round * 10000)

-- The absolute value, as the unsigned that the code casts it to.
unfoldable pub magnitude : ℤ → ℕ
magnitude (pos n) = n
magnitude (negsuc n) = n + 1

-- In milliseconds, computed on unsigned; `none` is the division by zero.
unfoldable pub calculate_motion_time : ℕ → ℕ → Option ℕ
calculate_motion_time rpm microsteps =
    let divider = micro_steps_per_round * rpm % 2 ^ 32 in
    if divider == 0 then none else some (microsteps * milliseconds_per_minute % 2 ^ 32 / divider)

-- Up to 134 rpm a speed that is set is read back unchanged if it is a multiple of 3, and else as one
-- less.
pub read_back :
    (rpm : ℕ)
    → rpm ≤ 134
    → microsteps_per_10k_seconds_to_rpm (rpm_to_microsteps_per_10k_seconds (pos rpm))
      ≡ pos (if rpm % 3 == 0 then rpm else rpm - 1)
unfolding microsteps_per_10k_seconds_to_rpm rpm_to_microsteps_per_10k_seconds times over signed32
read_back rpm h = ground arith

-- The motion time is defined for a speed above 0 whose microsteps for a minute fit an unsigned.
pub calculate_motion_time-some :
    (rpm microsteps : ℕ)
    → 0 < rpm
    → rpm ≤ 2684354
    → (t : ℕ) × (calculate_motion_time rpm microsteps ≡ some t)
unfolding calculate_motion_time
calculate_motion_time-some rpm microsteps h h' =
    let e : (micro_steps_per_round * rpm % 2 ^ 32 == 0) ≡ false = ground arith in rw e (_, refl)
