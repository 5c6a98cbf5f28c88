-- ===== src/Hal/Tic.antt =====
-- The stepper motor controller Tic T249 on the I2C bus: TicController
-- (libs/HardwareAbstractionLayerImpl/Rpi/src/TicController.cpp and
-- Rpi/include/HardwareAbstractionLayer/TicController.hpp). The class has no state of its own beside
-- its address; the controller's memory is read in blocks.
pub mod Commands
pub mod Buffers
pub mod Reading
pub mod Startup
pub mod Started
use sugo_machine_application.Prelude.{
  ℕ, ◌≡◌, refl, zero, suc, ◌+◌, ◌-◌, ◌/◌, ◌%◌, Bool, true, false, not, ◌&&◌, ◌||◌, ltb, ◌==◌,
  if◌then◌else◌, List, [], ◌∷◌, Option, none, some, ◌++◌, length, take, drop,
}
use sugo_machine_application.Prelude.Int.{ℤ, pos}
use sugo_machine_application.Framework.World.{Level, low, high}
use sugo_machine_application.Hal.Words.{
  word32, write_to_buffer, byte_at, uint16_at, uint32_at, int32_at,
}
use sugo_machine_application.Hal.Bus.{
  Bus, BusPin, error_pin, reset_pin, HalAction, ◌>>=◌, ◌>>◌, pure, i2c_write, i2c_read,
}
use sugo_machine_application.Hal.Bus

pub data StepMode : Type 0 where
  full step1_2 step1_4 step1_8 : StepMode

unfoldable pub step_mode_value : StepMode → ℕ
step_mode_value full = 0
step_mode_value step1_2 = 1
step_mode_value step1_4 = 2
step_mode_value step1_8 = 3

pub data Direction : Type 0 where
  forward backward : Direction

unfoldable pub direction_value : Direction → ℕ
direction_value forward = 0
direction_value backward = 1

-- `OperationState::Normal`.
abbrev pub operation_normal : ℕ
operation_normal = 10

-- The packed struct `TicController::State`.
pub record State : Type 0 where
  pub operation_state : ℕ
  pub misc_flags : ℕ
  pub error_status : ℕ
  pub errors_occurred : ℕ
  pub reserved : ℕ
  pub planning_mode : ℕ
  pub target_position : ℤ
  pub target_velocity : ℤ
  pub starting_speed : ℕ
  pub max_speed : ℕ
  pub max_deceleration : ℕ
  pub max_acceleration : ℕ
  pub current_position : ℤ
  pub current_velocity : ℤ

abbrev pub state_size : ℕ
state_size = 42

-- The struct on the bytes that it consists of.
unfoldable pub state_of : List ℕ → State
unfolding byte_at uint16_at uint32_at int32_at
state_of bytes = record {
  operation_state = byte_at bytes 0;
  misc_flags = byte_at bytes 1;
  error_status = uint16_at bytes 2;
  errors_occurred = uint32_at bytes 4;
  reserved = byte_at bytes 8;
  planning_mode = byte_at bytes 9;
  target_position = int32_at bytes 10;
  target_velocity = int32_at bytes 14;
  starting_speed = uint32_at bytes 18;
  max_speed = uint32_at bytes 22;
  max_deceleration = uint32_at bytes 26;
  max_acceleration = uint32_at bytes 30;
  current_position = int32_at bytes 34;
  current_velocity = int32_at bytes 38;
}

-- `State state;`: every member is initialised to 0.
unfoldable pub zeros : ℕ → List ℕ
zeros zero = []
zeros (suc n) = 0 ∷ zeros n

abbrev pub initial_state : List ℕ
initial_state = zeros state_size

pub length-initial_state : length initial_state ≡ state_size
unfolding zeros
length-initial_state = refl

abbrev pub max_block_size : ℕ
max_block_size = 15

-- The bytes of the next read: never more than a block.
unfoldable pub next_bytes : ℕ → ℕ
next_bytes remaining = if ltb max_block_size remaining then max_block_size else remaining

-- std::copy of a buffer into the struct.
unfoldable pub copy_at : ℕ → List ℕ → List ℕ → List ℕ
copy_at offset bytes memory = take offset memory ++ bytes ++ drop (offset + length bytes) memory

module _ {D : Type 0} (bus : Bus) (address : ℕ) where
  unfoldable pub run_simple_command : ℕ → HalAction D Bool
  unfolding i2c_write
  run_simple_command command = i2c_write bus address (command ∷ [])

  -- A command with four data bytes: the buffer is filled from the offset 1 on.
  unfoldable pub run_value_command : ℕ → ℕ → HalAction D Bool
  unfolding i2c_write write_to_buffer
  run_value_command command value = i2c_write bus address (command ∷ write_to_buffer value)

  unfoldable pub set_target_position : ℤ → HalAction D Bool
  unfolding run_value_command word32
  set_target_position position = run_value_command 0xE0 (word32 position)

  unfoldable pub set_target_velocity : ℤ → HalAction D Bool
  unfolding run_value_command word32
  set_target_velocity velocity = run_value_command 0xE3 (word32 velocity)

  unfoldable pub halt_and_set_position : ℤ → HalAction D Bool
  unfolding run_value_command word32
  halt_and_set_position position = run_value_command 0xEC (word32 position)

  unfoldable pub set_max_speed : ℕ → HalAction D Bool
  unfolding run_value_command
  set_max_speed speed = run_value_command 0xE6 speed

  unfoldable pub set_starting_speed : ℕ → HalAction D Bool
  unfolding run_value_command
  set_starting_speed speed = run_value_command 0xE5 speed

  unfoldable pub set_max_acceleration : ℕ → HalAction D Bool
  unfolding run_value_command
  set_max_acceleration acceleration = run_value_command 0xEA acceleration

  unfoldable pub set_max_deceleration : ℕ → HalAction D Bool
  unfolding run_value_command
  set_max_deceleration deceleration = run_value_command 0xE9 deceleration

  unfoldable pub halt_and_hold : HalAction D Bool
  unfolding run_simple_command
  halt_and_hold = run_simple_command 0x89

  unfoldable pub reset_command_timeout : HalAction D Bool
  unfolding run_simple_command
  reset_command_timeout = run_simple_command 0x8C

  unfoldable pub de_energize : HalAction D Bool
  unfolding run_simple_command
  de_energize = run_simple_command 0x86

  unfoldable pub energize : HalAction D Bool
  unfolding run_simple_command
  energize = run_simple_command 0x85

  unfoldable pub exit_safe_start : HalAction D Bool
  unfolding run_simple_command
  exit_safe_start = run_simple_command 0x83

  unfoldable pub enter_safe_start : HalAction D Bool
  unfolding run_simple_command
  enter_safe_start = run_simple_command 0x8F

  unfoldable pub reset : HalAction D Bool
  unfolding run_simple_command
  reset = run_simple_command 0xB0

  unfoldable pub go_home : Direction → HalAction D Bool
  unfolding i2c_write direction_value
  go_home direction = i2c_write bus address (0x97 ∷ direction_value direction ∷ [])

  unfoldable pub set_step_mode : StepMode → HalAction D Bool
  unfolding i2c_write step_mode_value
  set_step_mode mode = i2c_write bus address (0x94 ∷ step_mode_value mode ∷ [])

  -- In mA; the controller takes units of 40 mA.
  unfoldable pub set_current_limit : ℕ → HalAction D Bool
  unfolding i2c_write
  set_current_limit limit =
      if ltb 4480 limit then pure false else i2c_write bus address (0x91 ∷ limit / 40 % 256 ∷ [])

  unfoldable pub get_variable : ℕ → ℕ → HalAction D (Bool × List ℕ)
  unfolding i2c_read
  get_variable offset size = i2c_read bus address (0xA1 ∷ offset ∷ []) size

  unfoldable pub get_variable_and_clear_errors : ℕ → ℕ → HalAction D (Bool × List ℕ)
  unfolding i2c_read
  get_variable_and_clear_errors offset size = i2c_read bus address (0xA2 ∷ offset ∷ []) size

  -- The loop of `getState`, on fuel: `none` when the fuel does not reach.
  unfoldable pub read_blocks : ℕ → ℕ → ℕ → List ℕ → HalAction D (Option Bool × List ℕ)
  unfolding get_variable copy_at next_bytes
  read_blocks zero remaining offset memory = pure (none, memory)
  read_blocks (suc fuel) remaining offset memory =
      let next = next_bytes remaining in
      let rest = read_blocks fuel (remaining - next) (offset + next) in
      if remaining == 0
      then pure (some true, memory)
      else (get_variable (offset % 256) next >>= λ answer.
          if answer.0 then rest (copy_at offset answer.1 memory) else pure (some false, memory))

  -- `getState`, on the bytes of the struct that it fills; each round reads at least one byte.
  unfoldable pub get_state : List ℕ → HalAction D (Bool × List ℕ)
  unfolding read_blocks
  get_state memory = read_blocks (state_size + 1) state_size 0 memory >>= λ result.
      pure (elim result.0 [ none ↦ false | some ok ↦ ok ], result.1)
