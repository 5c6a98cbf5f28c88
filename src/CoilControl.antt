-- ===== src/CoilControl.antt =====
-- FilamentCoilControl (libs/MachineServiceComponent/src/FilamentCoilControl.cpp), with its requests,
-- notifications and transitions in libs/MachineServiceComponent/conf/MachineServiceComponent.yaml.
pub mod Diagram
pub mod Transitions
pub mod Safety
pub mod Tension
use sugo_machine_application.Prelude.{
  Bool, true, false, not, if◌then◌else◌, List, [], ◌∷◌, Option, none, some,
}
use sugo_machine_application.Framework.EventQueue.{empty_queue, default_queue_size}
use sugo_machine_application.Framework.Message.{
  Message, Response, Parameter, missing, empty_value, given, nothing, invalid_payload,
  filament_coil_motor, filament_tension_sensor, request_switch_on, request_stop_motor,
  request_start_motor, request_increase_motor_offset_speed, request_decrease_motor_offset_speed,
  request_set_motor_speed, notify_error_occurred, notify_coil_stopped, notify_coil_running,
  create_error_response,
}
use sugo_machine_application.Framework.World.{
  World, Action, Environment, push, notify, send, forward, switch_off_service_component, ◌>>=◌,
  ◌>>◌, skip, pure, get_fields, set_fields, when,
}
use sugo_machine_application.Framework.StateMachine.{
  Transition, Machine, row, process_next_event, after,
}
use sugo_machine_application.Framework.Stated.{handle_event_message, on_world}
use Diagram.{State, Event, state_numbers, event_numbers}

pub record Fields : Type 0 where
  pub control_tension : Bool

abbrev pub CoilAction : Type 0 → Type 0
CoilAction A = Action Fields Event A

abbrev pub CoilMachine : Type 0
CoilMachine = Machine State Fields Event

unfoldable pub init : CoilMachine
unfolding empty_queue
init = record {
  state = State.off;
  world = record {
    fields = record { control_tension = false };
    queue = empty_queue default_queue_size;
    history = [];
  };
}

-- The request StartCoil; none stands for an exception of the JSON library.
unfoldable pub on_request_start_coil : Message → Parameter Bool → CoilAction (Option Response)
unfolding create_error_response handle_event_message
on_request_start_coil request missing = pure none
on_request_start_coil request empty_value =
    pure (some (create_error_response request invalid_payload))
on_request_start_coil request (given tension_control) = do
  set_fields (record { control_tension = tension_control })
  response ← handle_event_message request Event.start_motor
  pure (some response)

module _ (env : Environment) where
  -- `switchOff()`.
  unfoldable pub switch_off_all : CoilAction (Unit {0})
  unfolding switch_off_service_component
  switch_off_all = do
    _ ← switch_off_service_component env filament_coil_motor
    _ ← switch_off_service_component env filament_tension_sensor
    skip

  unfoldable pub switch_on : Event → State → CoilAction (Unit {0})
  unfolding send push
  switch_on _ _ = do
    motor_on ← send env filament_coil_motor request_switch_on nothing
    if motor_on
        then (do
          sensor_on ← send env filament_tension_sensor request_switch_on nothing
          if sensor_on then push Event.switch_on_succeeded else push Event.error_occurred)
        else push Event.error_occurred

  unfoldable pub switch_off : Event → State → CoilAction (Unit {0})
  unfolding switch_off_all
  switch_off _ _ = switch_off_all

  unfoldable pub handle_error : Event → State → CoilAction (Unit {0})
  unfolding switch_off_all notify
  handle_error _ _ = do switch_off_all; notify notify_error_occurred

  unfoldable pub stop_motor : Event → State → CoilAction (Unit {0})
  unfolding send push notify
  stop_motor _ _ = do
    stopped ← send env filament_coil_motor request_stop_motor nothing
    when (not stopped) (push Event.error_occurred)
    notify notify_coil_stopped

  unfoldable pub start_motor : Event → State → CoilAction (Unit {0})
  unfolding send push
  start_motor _ _ = do
    started ← send env filament_coil_motor request_start_motor nothing
    when (not started) (push Event.error_occurred)

  unfoldable pub notify_running : Event → State → CoilAction (Unit {0})
  unfolding notify
  notify_running _ _ = notify notify_coil_running

  -- The request that a tension event calls for, and its success.
  unfoldable pub adjust_motor : Event → CoilAction Bool
  unfolding send
  adjust_motor Event.tension_too_low =
      send env filament_coil_motor request_increase_motor_offset_speed nothing
  adjust_motor Event.tension_too_high =
      send env filament_coil_motor request_decrease_motor_offset_speed nothing
  adjust_motor _ = pure true

  unfoldable pub control_filament_tension : Event → State → CoilAction (Unit {0})
  unfolding adjust_motor push
  control_filament_tension event _ = do
    f ← get_fields
    when f.control_tension
        (do adjusted ← adjust_motor event; when (not adjusted) (push Event.error_occurred))

  -- The generated table; a pattern over the states stands for a row of each state that it matches.
  unfoldable pub transitions : List (Transition State Fields Event)
  transitions =
      row State.off State.initialization Event.switch_on (some switch_on)
      ∷ row State.initialization State.off Event.switch_off (some switch_off)
      ∷ row State.motor_stopped State.off Event.switch_off (some switch_off)
      ∷ row State.starting_motor State.off Event.switch_off (some switch_off)
      ∷ row State.stopping_motor State.off Event.switch_off (some switch_off)
      ∷ row State.running State.off Event.switch_off (some switch_off)
      ∷ row State.pausing State.off Event.switch_off (some switch_off)
      ∷ row State.paused State.off Event.switch_off (some switch_off)
      ∷ row State.error State.off Event.switch_off (some switch_off)
      ∷ row State.off State.off Event.switch_off none
      ∷ row State.off State.error Event.error_occurred (some handle_error)
      ∷ row State.initialization State.error Event.error_occurred (some handle_error)
      ∷ row State.motor_stopped State.error Event.error_occurred (some handle_error)
      ∷ row State.starting_motor State.error Event.error_occurred (some handle_error)
      ∷ row State.stopping_motor State.error Event.error_occurred (some handle_error)
      ∷ row State.running State.error Event.error_occurred (some handle_error)
      ∷ row State.pausing State.error Event.error_occurred (some handle_error)
      ∷ row State.paused State.error Event.error_occurred (some handle_error)
      ∷ row State.error State.error Event.error_occurred none
      ∷ row State.initialization State.motor_stopped Event.switch_on_succeeded none
      ∷ row State.motor_stopped State.starting_motor Event.start_motor (some start_motor)
      ∷ row State.motor_stopped State.motor_stopped Event.stop_motor none
      ∷ row State.starting_motor State.motor_stopped Event.stop_motor (some stop_motor)
      ∷ row State.starting_motor State.running Event.start_motor_succeeded (some notify_running)
      ∷ row State.running State.stopping_motor Event.stop_motor (some stop_motor)
      ∷ row State.stopping_motor State.stopping_motor Event.stop_motor none
      ∷ row State.stopping_motor State.motor_stopped Event.stop_motor_succeeded none
      ∷ row State.running State.running Event.tension_too_high (some control_filament_tension)
      ∷ row State.running State.running Event.tension_too_low (some control_filament_tension)
      ∷ row State.running State.pausing Event.tension_overloaded (some stop_motor)
      ∷ row State.pausing State.pausing Event.tension_overloaded none
      ∷ row State.pausing State.paused Event.stop_motor_succeeded none
      ∷ row State.paused State.paused Event.tension_overloaded none
      ∷ row State.paused State.starting_motor Event.tension_too_high (some start_motor)
      ∷ row State.paused State.motor_stopped Event.stop_motor (some stop_motor)
      ∷ []

-- What can happen to the component: a request or a notification that is an event, the request
-- StartCoil, the request SetMotorSpeed, a round of the event thread.
pub data Input : Type 0 where
  event_message : Message → Event → Input
  start_coil_request : Message → Parameter Bool → Input
  set_motor_speed_request : Message → Input
  event_round : Input

unfoldable pub step : Environment → Input → CoilMachine → CoilMachine
unfolding handle_event_message on_request_start_coil forward process_next_event
step env (event_message message event) = on_world (handle_event_message message event)
step env (start_coil_request request parsed) = on_world (on_request_start_coil request parsed)
step env (set_motor_speed_request request) =
    on_world (forward env request filament_coil_motor request_set_motor_speed)
step env event_round = λ m. after (process_next_event (transitions env) [] m)
