-- ===== src/MachineControl/Handlers.antt =====
-- The state of MachineControl and how it handles its messages
-- (libs/MachineServiceComponent/src/MachineControl.cpp).
use sugo_machine_application.Prelude.{ℕ, Bool, true, false, if◌then◌else◌, []}
use sugo_machine_application.Prelude.Int.{ℤ, pos, negsuc, ◌+ℤ◌, ◌-ℤ◌, clamp}
use sugo_machine_application.Framework.EventQueue.{empty_queue, default_queue_size}
use sugo_machine_application.Framework.Message.{
  Message, Response, nothing, speed, filament_coil_control, filament_merger_control,
  request_set_motor_speed, default_response, create_success_response, create_error_response,
}
use sugo_machine_application.Framework.World.{
  Action, Environment, send_with, ◌>>=◌, ◌>>◌, skip, pure, get_fields, set_fields,
}
use sugo_machine_application.Framework.StateMachine.{Machine}
use sugo_machine_application.Framework.Stated.{handle_event_message}
use sugo_machine_application.MachineControl.Diagram.{State, Event, state_numbers, event_numbers}

pub record Config : Type 0 where
  pub speed_default : ℕ
  pub speed_max : ℕ
  pub speed_increment : ℕ

pub record Fields : Type 0 where
  pub config : Config
  pub merger_running : Bool
  pub coil_running : Bool
  pub motor_speed : ℕ

abbrev pub ControlAction : Type 0 → Type 0
ControlAction A = Action Fields Event A

abbrev pub ControlMachine : Type 0
ControlMachine = Machine State Fields Event

unfoldable pub init : Config → ControlMachine
unfolding empty_queue
init config = record {
  state = State.off;
  world = record {
    fields = record {
      config = config;
      merger_running = false;
      coil_running = false;
      motor_speed = config.speed_default;
    };
    queue = empty_queue default_queue_size;
    history = [];
  };
}

-- static_cast<unsigned> of a number that is not negative.
abbrev pub to_unsigned : ℤ → ℕ
to_unsigned (pos n) = n
to_unsigned (negsuc n) = 0

unfoldable pub increased_speed : Fields → ℕ
increased_speed f =
    to_unsigned
      (clamp (pos f.motor_speed +ℤ pos f.config.speed_increment) (pos 0) (pos f.config.speed_max))

unfoldable pub decreased_speed : Fields → ℕ
decreased_speed f =
    to_unsigned
      (clamp (pos f.motor_speed -ℤ pos f.config.speed_increment) (pos 0) (pos f.config.speed_max))

abbrev pub set_speed : ℕ → ControlAction (Unit {0})
set_speed n = do f ← get_fields; set_fields (record f { motor_speed = n })

abbrev pub set_merger_running : Bool → ControlAction (Unit {0})
set_merger_running b = do f ← get_fields; set_fields (record f { merger_running = b })

abbrev pub set_coil_running : Bool → ControlAction (Unit {0})
set_coil_running b = do f ← get_fields; set_fields (record f { coil_running = b })

-- Notifications

unfoldable pub on_merger_feeding_running : Message → ControlAction (Unit {0})
unfolding handle_event_message
on_merger_feeding_running request = do
  set_merger_running true
  _ ← handle_event_message request Event.check_starting_state
  skip

unfoldable pub on_merger_feeding_stopped : Message → ControlAction (Unit {0})
unfolding handle_event_message
on_merger_feeding_stopped request = do
  set_merger_running false
  _ ← handle_event_message request Event.check_stopping_state
  skip

unfoldable pub on_coil_running : Message → ControlAction (Unit {0})
unfolding handle_event_message
on_coil_running request = do
  set_coil_running true
  _ ← handle_event_message request Event.check_starting_state
  skip

unfoldable pub on_coil_stopped : Message → ControlAction (Unit {0})
unfolding handle_event_message
on_coil_stopped request = do
  set_coil_running false
  _ ← handle_event_message request Event.check_stopping_state
  skip

unfoldable pub on_request_get_motor_speed : Message → ControlMachine → Response
unfolding create_success_response
on_request_get_motor_speed request m =
    create_success_response request (speed m.world.fields.motor_speed)

abbrev pub is_start_heatless : Event → Bool
is_start_heatless Event.start_heatless = true
is_start_heatless _ = false

unfoldable pub starting_speed : Event → Config → ℕ
starting_speed event config = if is_start_heatless event then 0 else config.speed_default

module _ (env : Environment) where
  -- Requests

  -- The new speed goes to the coil first and then to the merger, in the same response object.
  unfoldable pub broadcast_speed : Message → ℕ → ControlAction Response
  unfolding send_with default_response create_success_response create_error_response
  broadcast_speed request n = do
    (coil_done, r) ←
        send_with env default_response filament_coil_control request_set_motor_speed (speed n)
    if coil_done
        then (do
          (merger_done, r') ←
              send_with env r filament_merger_control request_set_motor_speed (speed n)
          pure (
              if merger_done
              then create_success_response request nothing
              else create_error_response request r'.result))
        else pure (create_error_response request r.result)

  unfoldable pub on_request_increase_motor_speed : Message → ControlAction Response
  on_request_increase_motor_speed request = do
    f ← get_fields
    set_speed (increased_speed f)
    broadcast_speed request (increased_speed f)

  unfoldable pub on_request_decrease_motor_speed : Message → ControlAction Response
  on_request_decrease_motor_speed request = do
    f ← get_fields
    set_speed (decreased_speed f)
    broadcast_speed request (decreased_speed f)
