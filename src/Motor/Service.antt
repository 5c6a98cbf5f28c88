-- ===== src/Motor/Service.antt =====
-- MotorService (libs/MachineServiceComponent/src/MotorService.cpp) and the requests of the motors
-- (libs/MachineServiceComponent/src/FilamentCoilMotor.cpp).
use sugo_machine_application.Prelude.{
  ℕ, ◌-◌, ◌^◌, Bool, true, false, if◌then◌else◌, ltb, [], Option, none, some,
}
use sugo_machine_application.Prelude.Int.{ℤ, pos, negsuc, ◌+ℤ◌, ◌-ℤ◌, clamp, ◌≤ℤ◌}
use sugo_machine_application.Framework.EventQueue.{empty_queue, default_queue_size}
use sugo_machine_application.Framework.Message.{
  Message, Response, Parameter, missing, empty_value, given, nothing, invalid_payload,
  create_success_response, create_error_response,
}
use sugo_machine_application.Framework.World.{
  Action, Environment, motor_set_speed, motor_rotate, motor_reset, motor_stop, call, ◌>>=◌, ◌>>◌,
  skip, pure, get_fields, set_fields,
}
use sugo_machine_application.Framework.StateMachine.{Machine}
use sugo_machine_application.Motor.Diagram.{State, Event, state_numbers, event_numbers}

pub record Fields : Type 0 where
  pub speed_increment : ℕ
  pub max_motor_speed : ℕ
  pub motor_speed : ℕ
  pub motor_offset_speed : ℤ

abbrev pub MotorAction : Type 0 → Type 0
MotorAction A = Action Fields Event A

abbrev pub MotorMachine : Type 0
MotorMachine = Machine State Fields Event

unfoldable pub init : ℕ → ℕ → MotorMachine
unfolding empty_queue
init increment max_speed = record {
  state = State.off;
  world = record {
    fields = record {
      speed_increment = increment;
      max_motor_speed = max_speed;
      motor_speed = 0;
      motor_offset_speed = pos 0;
    };
    queue = empty_queue default_queue_size;
    history = [];
  };
}

-- static_cast<unsigned>.
abbrev pub to_unsigned : ℤ → ℕ
to_unsigned (pos n) = n
to_unsigned (negsuc n) = 2 ^ 32 - 1 - n

unfoldable pub resulting_speed : Fields → ℤ
resulting_speed f = pos f.motor_speed +ℤ f.motor_offset_speed

-- What `MotorService::setMotorSpeed()` asserts.
abbrev pub WithinMax : Fields → Type 0
WithinMax f = resulting_speed f ≤ℤ pos f.max_motor_speed

unfoldable pub limit_speed : ℕ → Fields → Fields
limit_speed speed f = record f {
  motor_speed = (if ltb f.max_motor_speed speed then f.max_motor_speed else speed);
}

unfoldable pub shift_offset : ℤ → Fields → Fields
shift_offset offset f = record f {
  motor_offset_speed =
      clamp (pos f.motor_speed +ℤ f.motor_offset_speed +ℤ offset) (pos 0) (pos f.max_motor_speed)
      -ℤ pos f.motor_speed;
}

module _ (env : Environment) where
  -- MotorService

  -- `setMotorSpeed()`.
  unfoldable pub apply_motor_speed : MotorAction Bool
  unfolding resulting_speed call
  apply_motor_speed = do
    f ← get_fields
    call env (motor_set_speed (to_unsigned (resulting_speed f)))

  -- `setMotorSpeed(motorSpeed)`.
  unfoldable pub set_motor_speed : ℕ → MotorAction Bool
  unfolding limit_speed apply_motor_speed
  set_motor_speed speed = do f ← get_fields; set_fields (limit_speed speed f); apply_motor_speed

  unfoldable pub add_motor_offset_speed : ℤ → MotorAction Bool
  unfolding shift_offset apply_motor_speed
  add_motor_offset_speed offset = do
    f ← get_fields
    set_fields (shift_offset offset f)
    apply_motor_speed

  unfoldable pub start_motor_rotation : MotorAction Bool
  unfolding apply_motor_speed call
  start_motor_rotation = do _ ← apply_motor_speed; call env motor_rotate

  abbrev clear_speed : Bool → MotorAction Bool
  clear_speed false = pure false
  clear_speed true = do
    f ← get_fields
    set_fields (record f { motor_offset_speed = pos 0; motor_speed = 0 })
    pure true

  unfoldable pub reset_motor : MotorAction Bool
  unfolding call
  reset_motor = do done ← call env motor_reset; clear_speed done

  unfoldable pub stop_motor_rotation : Bool → MotorAction (Unit {0})
  unfolding call
  stop_motor_rotation immediately = do _ ← call env (motor_stop immediately); skip

  -- Requests; none stands for an exception of the JSON library.

  unfoldable pub on_request_set_motor_speed : Message → Parameter ℕ → MotorAction (Option Response)
  unfolding set_motor_speed create_success_response create_error_response
  on_request_set_motor_speed request missing = pure none
  on_request_set_motor_speed request empty_value =
      pure (some (create_error_response request invalid_payload))
  on_request_set_motor_speed request (given speed) = do
    _ ← set_motor_speed speed
    pure (some (create_success_response request nothing))

  unfoldable pub on_request_increase_motor_offset_speed : Message → MotorAction Response
  unfolding add_motor_offset_speed create_success_response
  on_request_increase_motor_offset_speed request = do
    f ← get_fields
    _ ← add_motor_offset_speed (pos f.speed_increment)
    pure (create_success_response request nothing)

  unfoldable pub on_request_decrease_motor_offset_speed : Message → MotorAction Response
  unfolding add_motor_offset_speed create_success_response
  on_request_decrease_motor_offset_speed request = do
    f ← get_fields
    _ ← add_motor_offset_speed (pos 0 -ℤ pos f.speed_increment)
    pure (create_success_response request nothing)
