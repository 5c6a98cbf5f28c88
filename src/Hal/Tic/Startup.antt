-- ===== src/Hal/Tic/Startup.antt =====
-- The start and the end of the controller: TicController::init, checkError and finalize
-- (libs/HardwareAbstractionLayerImpl/Rpi/src/TicController.cpp).
use sugo_machine_application.Prelude.{
  ℕ, ◌/◌, ◌%◌, ◌^◌, ◌≡◌, refl, Bool, true, false, not, ◌&&◌, ◌==◌, if◌then◌else◌, List, Option,
  none, some,
}
use sugo_machine_application.Prelude.Int.{pos}
use sugo_machine_application.Framework.World.{Level, low, high}
use sugo_machine_application.Hal.Bus.{
  Bus, error_pin, reset_pin, HalAction, HalWorld, level_of_value, ◌>>=◌, ◌>>◌, pure, unless_failed,
  set_state, sleep,
}
use sugo_machine_application.Hal.Bus
use sugo_machine_application.Hal.Tic.{
  step1_8, operation_normal, state_of, initial_state, reset, reset_command_timeout, exit_safe_start,
  enter_safe_start, halt_and_set_position, set_step_mode, get_state,
}

pub data ErrorName : Type 0 where
  intent_deenergized motor_drive_error low_vin kill_switch_active : ErrorName
  req_input_invalid serial_error command_timeout save_start_violation : ErrorName

abbrev bit : ℕ → ℕ → Bool
bit value i = value / 2 ^ i % 2 == 1

-- The first error of the status, by its lowest bit.
unfoldable pub error_name : ℕ → Option ErrorName
error_name status =
    if bit status 0
    then some intent_deenergized
    else if bit status 1
    then some motor_drive_error
    else if bit status 2
    then some low_vin
    else if bit status 3
    then some kill_switch_active
    else if bit status 4
    then some req_input_invalid
    else if bit status 5
    then some serial_error
    else if bit status 6
    then some command_timeout
    else if bit status 7
    then some save_start_violation
    else none

-- What `errorState` of `checkError` is after the read of the state: it starts as false, and the
-- only branch that assigns it, the one with no error bit, sets it to false.
unfoldable error_state : Bool → ℕ → Bool
unfolding error_name
error_state success status =
    let error_state = false in
    if success
    then elim (error_name status) [ some name ↦ error_state | none ↦ false ]
    else error_state

module _ {D : Type 0} (bus : Bus) (address : ℕ) where
  -- `checkError`, from the level of the error line on.
  unfoldable pub check_line : Level → HalAction D Bool
  unfolding get_state state_of error_state
  check_line low = pure (not false)
  check_line high = get_state bus address initial_state >>= λ answer.
      pure (not (error_state answer.0 ((state_of answer.1).error_status % 256)))

  unfoldable pub check_error : HalAction D Bool
  unfolding Bus.get_state check_line
  check_error = Bus.get_state bus error_pin >>= check_line

  -- The end of `init`: the state that was read, the error line, and the safe start.
  unfoldable pub check_and_disable : List ℕ → HalAction D Bool
  unfolding state_of check_error enter_safe_start
  check_and_disable memory = check_error >>= λ checked. enter_safe_start bus address >>= λ disabled.
      let normal = (state_of memory).operation_state == operation_normal in
      unless_failed disabled (pure (checked && normal))

  -- The part of `init` after the controller has left the safe start.
  unfoldable pub clear_and_check : HalAction D Bool
  unfolding halt_and_set_position set_step_mode get_state check_and_disable
  clear_and_check = halt_and_set_position bus address (pos 0) >>= λ halted. unless_failed halted (
      set_step_mode bus address step1_8 >> get_state bus address initial_state >>= λ answer.
      unless_failed answer.0 (check_and_disable answer.1))

  unfoldable pub turn_on : HalAction D ℕ
  unfolding set_state sleep
  turn_on =
      set_state bus reset_pin low >> sleep bus 10 >> set_state bus reset_pin high >> sleep bus 10

  -- `init`.
  unfoldable pub init : HalAction D Bool
  unfolding turn_on sleep reset reset_command_timeout exit_safe_start clear_and_check
  init = turn_on >> reset bus address >>= λ was_reset. unless_failed was_reset (
      sleep bus 10 >> reset_command_timeout bus address >>= λ timeout_reset.
      exit_safe_start bus address >>= λ left. unless_failed (left && timeout_reset) clear_and_check)

  -- `finalize`, from the level of the reset pin on: the controller is turned off.
  unfoldable pub turn_off : Level → HalAction D (Unit {0})
  unfolding set_state
  turn_off high = set_state bus reset_pin low >> pure tt
  turn_off low = pure tt

  unfoldable pub finalize : HalAction D (Unit {0})
  unfolding Bus.get_state turn_off
  finalize = Bus.get_state bus reset_pin >>= turn_off

error_state-false : (success : Bool) (status : ℕ) → error_state success status ≡ false
unfolding error_state
error_state-false false status = refl
error_state-false true status = no_error (error_name status)
  where
    no_error : (o : Option ErrorName) → (elim o [ some name ↦ false | none ↦ false ]) ≡ false
    no_error none = refl
    no_error (some name) = refl

check_line-true :
    {D : Type 0} (bus : Bus) (address : ℕ) (line : Level) (w : HalWorld D)
    → (check_line bus address line w).0 ≡ true
unfolding check_line
check_line-true bus address low w = refl
check_line-true bus address high w = rw (error_state-false _ _) refl

-- `checkError` returns true, whatever the error line, the transfers and the error status.
pub check_error-true :
    {D : Type 0} (bus : Bus) (address : ℕ) (w : HalWorld D) → (check_error bus address w).0 ≡ true
unfolding check_error
check_error-true bus address w =
    let (line, w') = Bus.get_state bus error_pin w in check_line-true bus address line w'
