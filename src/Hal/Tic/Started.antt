-- ===== src/Hal/Tic/Started.antt =====
-- A successful start of the controller: TicController::init
-- (libs/HardwareAbstractionLayerImpl/Rpi/src/TicController.cpp).
use sugo_machine_application.Prelude.{
  ℕ, ◌≡◌, refl, Bool, true, false, ◌&&◌, ◌==◌, List, [], ◌∷◌, arith,
}
use sugo_machine_application.Prelude.Int.{pos, eqb_ℤ}
use sugo_machine_application.Hal.Bus.{
  Bus, BusCall, HalAction, HalWorld, write_call, i2c_write, pure, unless_failed, sleep,
}
use sugo_machine_application.Hal.Tic.{
  run_simple_command, step1_8, operation_normal, state_of, initial_state, reset,
  reset_command_timeout, exit_safe_start, enter_safe_start, halt_and_set_position, set_step_mode,
  get_state,
}
use sugo_machine_application.Hal.Tic.Startup.{
  check_error, check_and_disable, clear_and_check, turn_on, init,
}

unless_failed-true :
    {D : Type 0} (P : HalWorld D → Type 0) (ok : Bool) (next : HalAction D Bool) (w : HalWorld D)
    → (ok ≡ true → (next w).0 ≡ true → P (next w).1)
    → (unless_failed ok next w).0 ≡ true
    → P (unless_failed ok next w).1
unless_failed-true P true next w keep h = keep refl h
unless_failed-true P false next w keep h = absurd (ground arith)

is_normal : (a : Bool) (n : ℕ) → (a && (n == operation_normal)) ≡ true → n ≡ operation_normal
is_normal true n h = ground arith
is_normal false n h = absurd (ground arith)

module _ {D : Type 0} (bus : Bus) (address : ℕ) where
  -- The world of a start in which the controller has left the safe start, and the one in which its
  -- state is read.
  abbrev pub left_safe_start : HalWorld D → HalWorld D
  left_safe_start w =
      let w2 = (reset bus address (turn_on bus address w).1).1 in
      (exit_safe_start bus address (reset_command_timeout bus address (sleep bus 10 w2).1).1).1

  abbrev pub before_check : HalWorld D → HalWorld D
  before_check w =
      (set_step_mode bus address step1_8
        (halt_and_set_position bus address (pos 0) (left_safe_start w)).1).1

  -- What a successful start from a world leaves: after the controller had left the safe start, its
  -- state was read, and it was Normal; then the error line was checked, and the last call is the
  -- command to enter the safe start, which was acknowledged.
  pub record Started (from w : HalWorld D) : Type 0 where
    pub state_read : (get_state bus address initial_state (before_check from)).0.0 ≡ true
    pub normal :
        (state_of (get_state bus address initial_state (before_check from)).0.1).operation_state
        ≡ operation_normal
    pub before : List BusCall
    pub checked :
        before
        ≡ (check_error bus address
            (get_state bus address initial_state (before_check from)).1).1.history
    pub disabled : w.history ≡ write_call address (0x8F ∷ []) ∷ before
    pub acknowledged : eqb_ℤ (bus.ioctl before (write_call address (0x8F ∷ []))) (pos 1) ≡ true

  check_and_disable-Started :
      (from : HalWorld D)
      → (get_state bus address initial_state (before_check from)).0.0 ≡ true
      → let (answer, w) = get_state bus address initial_state (before_check from) in
        (check_and_disable bus address answer.1 w).0 ≡ true
        → Started from (check_and_disable bus address answer.1 w).1
  unfolding check_and_disable enter_safe_start run_simple_command i2c_write
  check_and_disable-Started from read =
      let (answer, w) = get_state bus address initial_state (before_check from) in
      let (checked, w1) = check_error bus address w in
      let (disabled, w2) = enter_safe_start bus address w1 in
      unless_failed-true (Started from) disabled
        (pure (checked && ((state_of answer.1).operation_state == operation_normal))) w2
        (λ acknowledged h. record {
          state_read = read;
          normal = is_normal checked (state_of answer.1).operation_state h;
          before = w1.history;
          checked = refl;
          disabled = refl;
          acknowledged = acknowledged;
        })

  clear_and_check-Started :
      (from : HalWorld D)
      → (clear_and_check bus address (left_safe_start from)).0 ≡ true
      → Started from (clear_and_check bus address (left_safe_start from)).1
  unfolding clear_and_check
  clear_and_check-Started from =
      let (halted, w1) = halt_and_set_position bus address (pos 0) (left_safe_start from) in
      let (answer, w3) = get_state bus address initial_state (before_check from) in
      unless_failed-true (Started from) halted _ w1
        (λ _. unless_failed-true (Started from) answer.0 _ w3 (check_and_disable-Started from))

  -- A start of the controller that succeeds has read the state Normal after the controller had left
  -- the safe start, and has put the controller back into it.
  pub init-Started :
      (w : HalWorld D) → (init bus address w).0 ≡ true → Started w (init bus address w).1
  unfolding init
  init-Started w =
      let (_, w1) = turn_on bus address w in
      let (was_reset, w2) = reset bus address w1 in
      let (_, w3) = sleep bus 10 w2 in
      let (timeout_reset, w4) = reset_command_timeout bus address w3 in
      let (left, w5) = exit_safe_start bus address w4 in
      unless_failed-true (Started w) was_reset _ w2 (λ _.
        unless_failed-true (Started w) (left && timeout_reset) _ w5
          (λ _. clear_and_check-Started w))
