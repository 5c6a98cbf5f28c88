-- ===== src/Hal/Tic/Commands.antt =====
-- The commands of TicController (libs/HardwareAbstractionLayerImpl/Rpi/src/TicController.cpp) as the
-- controller takes them off the bus.
use sugo_machine_application.Prelude.{
  ℕ, ◌*◌, ◌+◌, ◌^◌, ◌≤◌, ◌<◌, ◌≡◌, refl, ◌/◌, ◌%◌, Bool, false, ltb, ◌==◌, if◌then◌else◌, List, [],
  ◌∷◌, Option, none, some, arith, Bool-cases, inl, inr, ◌⊎◌,
}
use sugo_machine_application.Prelude.Int.{ℤ}
use sugo_machine_application.Hal.Words.{IsInt32, uint32_at, int32_at}
use sugo_machine_application.Hal.Bus.{Bus, HalAction, HalWorld, write_call, i2c_write}
use sugo_machine_application.Hal.Tic.{
  StepMode, full, step1_2, step1_4, step1_8, Direction, forward, backward, set_target_position,
  set_target_velocity, halt_and_set_position, set_max_speed, set_starting_speed,
  set_max_acceleration, set_max_deceleration, halt_and_hold, reset_command_timeout, de_energize,
  energize, exit_safe_start, enter_safe_start, reset, go_home, set_step_mode, set_current_limit,
}

-- The commands of the controller's I2C protocol that the operations of the class always send as they
-- are asked to.
pub data Command : Type 0 where
  target_position target_velocity halt_and_set : ℤ → Command
  max_speed starting_speed max_acceleration max_deceleration : ℕ → Command
  hold command_timeout_reset de_energized energized safe_start_left safe_start device_reset :
      Command
  home : Direction → Command
  step_mode : StepMode → Command

-- The arguments that the operations' parameter types can hold.
abbrev InRange : Command → Type 0
InRange (target_position z) = IsInt32 z
InRange (target_velocity z) = IsInt32 z
InRange (halt_and_set z) = IsInt32 z
InRange (max_speed n) = n < 2 ^ 32
InRange (starting_speed n) = n < 2 ^ 32
InRange (max_acceleration n) = n < 2 ^ 32
InRange (max_deceleration n) = n < 2 ^ 32
InRange _ = Unit

-- The operation of the class for a command.
unfoldable pub perform : {D : Type 0} → Bus → ℕ → Command → HalAction D Bool
unfolding set_target_position set_target_velocity halt_and_set_position set_max_speed
    set_starting_speed set_max_acceleration set_max_deceleration halt_and_hold reset_command_timeout
    de_energize energize exit_safe_start enter_safe_start reset go_home set_step_mode
perform bus address (target_position z) = set_target_position bus address z
perform bus address (target_velocity z) = set_target_velocity bus address z
perform bus address (halt_and_set z) = halt_and_set_position bus address z
perform bus address (max_speed n) = set_max_speed bus address n
perform bus address (starting_speed n) = set_starting_speed bus address n
perform bus address (max_acceleration n) = set_max_acceleration bus address n
perform bus address (max_deceleration n) = set_max_deceleration bus address n
perform bus address hold = halt_and_hold bus address
perform bus address command_timeout_reset = reset_command_timeout bus address
perform bus address de_energized = de_energize bus address
perform bus address energized = energize bus address
perform bus address safe_start_left = exit_safe_start bus address
perform bus address safe_start = enter_safe_start bus address
perform bus address device_reset = reset bus address
perform bus address (home direction) = go_home bus address direction
perform bus address (step_mode mode) = set_step_mode bus address mode

-- The controller's reading of a command's byte and its data.
-- The entry of a table for a byte.
abbrev lookup {ℓ} : {A : Type ℓ} → List (ℕ × A) → ℕ → Option A
lookup [] key = none
lookup ((k, a) ∷ rows) key = let rest = lookup rows key in if key == k then some a else rest

unfoldable value_command : ℕ → List ℕ → Option Command
unfolding int32_at uint32_at
value_command command data_bytes =
    lookup
      ((0xE0, target_position (int32_at data_bytes 0))
        ∷ (0xE3, target_velocity (int32_at data_bytes 0))
        ∷ (0xEC, halt_and_set (int32_at data_bytes 0))
        ∷ (0xE6, max_speed (uint32_at data_bytes 0))
        ∷ (0xE5, starting_speed (uint32_at data_bytes 0))
        ∷ (0xEA, max_acceleration (uint32_at data_bytes 0))
        ∷ (0xE9, max_deceleration (uint32_at data_bytes 0))
        ∷ [])
      command

unfoldable simple_command : ℕ → Option Command
simple_command command =
    lookup
      ((0x89, hold)
        ∷ (0x8C, command_timeout_reset)
        ∷ (0x86, de_energized)
        ∷ (0x85, energized)
        ∷ (0x83, safe_start_left)
        ∷ (0x8F, safe_start)
        ∷ (0xB0, device_reset)
        ∷ [])
      command

unfoldable byte_command : ℕ → ℕ → Option Command
byte_command command byte =
    if command == 0x97
    then lookup ((0, home forward) ∷ (1, home backward) ∷ []) byte
    else (if command == 0x94
        then lookup
            ((0, step_mode full)
              ∷ (1, step_mode step1_2)
              ∷ (2, step_mode step1_4)
              ∷ (3, step_mode step1_8)
              ∷ [])
            byte
        else none)

unfoldable pub read_command : List ℕ → Option Command
unfolding value_command simple_command byte_command
read_command (command ∷ []) = simple_command command
read_command (command ∷ byte ∷ []) = byte_command command byte
read_command (command ∷ b0 ∷ b1 ∷ b2 ∷ b3 ∷ []) = value_command command (b0 ∷ b1 ∷ b2 ∷ b3 ∷ [])
read_command _ = none

-- The current limit: above 4480 mA nothing is sent; else the controller is sent a number of units of
-- 40 mA that is at most 112, stays within the limit and misses it by less than a unit.
pub set_current_limit_bounds :
    {D : Type 0} (bus : Bus) (address limit : ℕ) (w : HalWorld D)
    → let (success, w') = set_current_limit bus address limit w in
      ((4480 < limit) × (success ≡ false) × (w' ≡ w))
      ⊎ ((limit ≤ 4480)
          × ((units : ℕ) × (w'
                ≡ record w { history = write_call address (0x91 ∷ units ∷ []) ∷ w.history })
              × (units ≤ 112)
              × (units * 40 ≤ limit)
              × (limit < units * 40 + 40)))
unfolding set_current_limit i2c_write
set_current_limit_bounds bus address limit w = elim (Bool-cases (ltb 4480 limit)) [
  | inl high ↦ inl (ground arith, rw high refl, rw high refl)
  | inr fine ↦
      inr (ground arith, (limit / 40 % 256, rw fine refl, ground arith, ground arith, ground arith))
]
