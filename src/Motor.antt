-- ===== src/Motor.antt =====
-- The motors: FilamentCoilMotor and FilamentFeederMotor
-- (libs/MachineServiceComponent/src/FilamentCoilMotor.cpp and FilamentFeederMotor.cpp, whose code
-- is the same but for the two offset requests of the coil motor) over MotorService
-- (libs/MachineServiceComponent/src/MotorService.cpp), and the transitions of `_BaseMotor` in
-- libs/MachineServiceComponent/conf/MachineServiceComponent.yaml.
-- Speeds are below 2 ^ 31, so that the casts to int keep them; the cast of a negative speed to
-- unsigned wraps.
pub mod Diagram
pub mod Transitions
pub mod Safety
pub mod Speed
mod Service
use sugo_machine_application.Prelude.{
  ℕ, ◌-◌, ◌^◌, Bool, true, false, if◌then◌else◌, ltb, List, [], ◌∷◌, Option, none, some,
}
use sugo_machine_application.Prelude.Int.{ℤ, pos, negsuc, ◌+ℤ◌, ◌-ℤ◌, clamp, ◌≤ℤ◌}
use sugo_machine_application.Framework.EventQueue.{empty_queue, default_queue_size}
use sugo_machine_application.Framework.Message.{
  Message, Response, Parameter, missing, empty_value, given, nothing, invalid_payload,
  notify_start_motor_succeeded, notify_stop_motor_succeeded, notify_error_occurred,
  create_success_response, create_error_response,
}
use sugo_machine_application.Framework.World.{
  World, Action, Environment, motor_set_speed, motor_rotate, motor_reset, motor_stop, push, notify,
  call, ◌>>=◌, ◌>>◌, skip, pure, get_fields, set_fields,
}
use sugo_machine_application.Framework.StateMachine.{
  Transition, Machine, row, process_next_event, after,
}
use sugo_machine_application.Framework.Stated.{handle_event_message, on_world, run}
use Diagram.{State, Event, state_numbers, event_numbers}
unfoldable pub use Service.*

module _ (env : Environment) where
  -- Transition actions

  unfoldable pub switch_on : Event → State → MotorAction (Unit {0})
  unfolding reset_motor push
  switch_on _ _ = do
    done ← reset_motor env
    if done then push Event.switch_on_succeeded else push Event.error_occurred

  unfoldable pub start_motor : Event → State → MotorAction (Unit {0})
  unfolding start_motor_rotation push notify
  start_motor _ _ = do
    started ← start_motor_rotation env
    if started
        then (push Event.start_motor_succeeded >> notify notify_start_motor_succeeded)
        else (push Event.error_occurred >> notify notify_error_occurred)

  unfoldable pub handle_error : Event → State → MotorAction (Unit {0})
  unfolding stop_motor_rotation notify
  handle_error _ _ = do stop_motor_rotation env true; notify notify_error_occurred

  unfoldable pub stop_motor : Event → State → MotorAction (Unit {0})
  unfolding stop_motor_rotation push notify
  stop_motor _ _ = do
    stop_motor_rotation env false
    push Event.stop_motor_succeeded
    notify notify_stop_motor_succeeded

  unfoldable pub switch_off : Event → State → MotorAction (Unit {0})
  unfolding stop_motor_rotation
  switch_off _ _ = stop_motor_rotation env false

  -- The generated table; a pattern over the states stands for a row of each state that it matches.
  unfoldable pub transitions : List (Transition State Fields Event)
  unfolding switch_on start_motor handle_error stop_motor switch_off
  transitions =
      row State.off State.initialization Event.switch_on (some switch_on)
      ∷ row State.initialization State.off Event.switch_off none
      ∷ row State.stopped State.off Event.switch_off none
      ∷ row State.stopping State.off Event.switch_off none
      ∷ row State.error State.off Event.switch_off none
      ∷ row State.starting State.off Event.switch_off (some switch_off)
      ∷ row State.running State.off Event.switch_off (some switch_off)
      ∷ row State.off State.off Event.switch_off none
      ∷ row State.off State.error Event.error_occurred (some handle_error)
      ∷ row State.initialization State.error Event.error_occurred (some handle_error)
      ∷ row State.stopped State.error Event.error_occurred (some handle_error)
      ∷ row State.starting State.error Event.error_occurred (some handle_error)
      ∷ row State.running State.error Event.error_occurred (some handle_error)
      ∷ row State.stopping State.error Event.error_occurred (some handle_error)
      ∷ row State.error State.error Event.error_occurred none
      ∷ row State.initialization State.stopped Event.switch_on_succeeded none
      ∷ row State.stopped State.stopped Event.stop_motor none
      ∷ row State.stopped State.starting Event.start_motor (some start_motor)
      ∷ row State.starting State.running Event.start_motor_succeeded none
      ∷ row State.starting State.stopping Event.stop_motor (some stop_motor)
      ∷ row State.running State.stopping Event.stop_motor (some stop_motor)
      ∷ row State.stopping State.stopping Event.stop_motor none
      ∷ row State.stopping State.stopped Event.stop_motor_succeeded none
      ∷ []

-- What can happen to a motor: a request, or a round of the event thread.
pub data Input : Type 0 where
  switch_on_request switch_off_request start_motor_request stop_motor_request : Message → Input
  set_motor_speed_request : Message → Parameter ℕ → Input
  increase_offset_request decrease_offset_request : Message → Input
  event_round : Input

unfoldable pub step : Environment → Input → MotorMachine → MotorMachine
unfolding handle_event_message on_request_set_motor_speed on_request_increase_motor_offset_speed
    on_request_decrease_motor_offset_speed process_next_event
step env (switch_on_request request) = on_world (handle_event_message request Event.switch_on)
step env (switch_off_request request) = on_world (handle_event_message request Event.switch_off)
step env (start_motor_request request) = on_world (handle_event_message request Event.start_motor)
step env (stop_motor_request request) = on_world (handle_event_message request Event.stop_motor)
step env (set_motor_speed_request request parsed) =
    on_world (on_request_set_motor_speed env request parsed)
step env (increase_offset_request request) =
    on_world (on_request_increase_motor_offset_speed env request)
step env (decrease_offset_request request) =
    on_world (on_request_decrease_motor_offset_speed env request)
step env event_round = λ m. after (process_next_event (transitions env) [] m)
