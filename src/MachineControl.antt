-- ===== src/MachineControl.antt =====
-- MachineControl (libs/MachineServiceComponent/src/MachineControl.cpp), with its requests,
-- notifications and transitions in libs/MachineServiceComponent/conf/MachineServiceComponent.yaml.
-- Speeds are below 2 ^ 31, so that the casts to int keep them.
pub mod Diagram
pub mod Transitions
pub mod Safety
pub mod Speed
pub mod Requests
pub mod Lifecycle
mod Handlers
use sugo_machine_application.Prelude.{
  ℕ, Bool, true, false, not, ◌&&◌, if◌then◌else◌, List, [], ◌∷◌, Option, none, some,
}
use sugo_machine_application.Prelude.Int.{ℤ, pos, negsuc, ◌+ℤ◌, ◌-ℤ◌, clamp}
use sugo_machine_application.Framework.EventQueue.{empty_queue, default_queue_size}
use sugo_machine_application.Framework.Message.{
  Message, Response, Result, nothing, speed, tension_control, filament_coil_control,
  filament_merger_control, request_switch_on, request_start_heating, request_set_motor_speed,
  request_start_feeding, request_start_coil, request_stop_feeding, request_stop_coil,
  notify_error_occurred, notify_heating_up, notify_starting, notify_running, notify_switched_off,
  NotificationTopic, default_response, create_success_response, create_error_response,
}
use sugo_machine_application.Framework.World.{
  World, Action, Environment, push, notify, send, send_with, switch_off_service_component, ◌>>=◌,
  ◌>>◌, skip, pure, get_fields, set_fields, when,
}
use sugo_machine_application.Framework.StateMachine.{
  Transition, Machine, row, process_next_event, after,
}
use sugo_machine_application.Framework.Stated.{handle_event_message, on_world}
use Diagram.{State, Event, state_numbers, event_numbers}
unfoldable pub use Handlers.*

module _ (env : Environment) where
  -- Transition actions

  unfoldable pub switch_on : Event → State → ControlAction (Unit {0})
  unfolding send push
  switch_on _ _ = do
    merger_on ← send env filament_merger_control request_switch_on nothing
    if merger_on
        then (do
          coil_on ← send env filament_coil_control request_switch_on nothing
          if coil_on then push Event.switch_on_succeeded else push Event.error_occurred)
        else push Event.error_occurred

  unfoldable pub start_heating : Event → State → ControlAction (Unit {0})
  unfolding send push notify
  start_heating _ _ = do
    heating ← send env filament_merger_control request_start_heating nothing
    when (not heating) (push Event.error_occurred)
    notify notify_heating_up

  unfoldable pub start_machine : Event → State → ControlAction (Unit {0})
  unfolding starting_speed send push notify
  start_machine event _ = do
    f ← get_fields
    let n = starting_speed event f.config
    set_fields (record f { merger_running = false; coil_running = false; motor_speed = n })
    merger_set ← send env filament_merger_control request_set_motor_speed (speed n)
    if merger_set
        then (do
          feeding ← send env filament_merger_control request_start_feeding nothing
          if feeding
              then (do
                coil_set ← send env filament_coil_control request_set_motor_speed (speed n)
                if coil_set
                    then (do
                      coil_started ←
                          send env filament_coil_control request_start_coil
                            (tension_control (not (is_start_heatless event)))
                      if coil_started then notify notify_starting else push Event.error_occurred)
                    else push Event.error_occurred)
              else push Event.error_occurred)
        else push Event.error_occurred

  unfoldable pub check_starting_state : Event → State → ControlAction (Unit {0})
  unfolding push notify
  check_starting_state _ _ = do
    f ← get_fields
    when (f.merger_running && f.coil_running)
        (do push Event.starting_succeeded; notify notify_running)

  -- `switchOff()`.
  unfoldable pub switch_off_all : ControlAction (Unit {0})
  unfolding switch_off_service_component
  switch_off_all = do
    _ ← switch_off_service_component env filament_merger_control
    _ ← switch_off_service_component env filament_coil_control
    skip

  unfoldable pub handle_error : Event → State → ControlAction (Unit {0})
  unfolding switch_off_all notify
  handle_error _ _ = do switch_off_all; notify notify_error_occurred

  unfoldable pub stop_machine : Event → State → ControlAction (Unit {0})
  unfolding send push
  stop_machine _ _ = do
    feeding_stopped ← send env filament_merger_control request_stop_feeding nothing
    if feeding_stopped
        then (do
          coil_stopped ← send env filament_coil_control request_stop_coil nothing
          when (not coil_stopped) (push Event.error_occurred))
        else push Event.error_occurred

  unfoldable pub check_stopping_state : Event → State → ControlAction (Unit {0})
  unfolding push notify
  check_stopping_state _ _ = do
    f ← get_fields
    when (not f.merger_running && not f.coil_running)
        (do push Event.stopping_succeeded; notify NotificationTopic.notify_stopped)

  unfoldable pub notify_stopped : Event → State → ControlAction (Unit {0})
  unfolding notify
  notify_stopped _ _ = notify NotificationTopic.notify_stopped

  unfoldable pub switch_off : Event → State → ControlAction (Unit {0})
  unfolding switch_off_all notify
  switch_off _ _ = do switch_off_all; notify notify_switched_off

  -- The generated table; a pattern over the states stands for a row of each state that it matches.
  unfoldable pub transitions : List (Transition State Fields Event)
  transitions =
      row State.off State.initialization Event.switch_on (some switch_on)
      ∷ row State.initialization State.off Event.switch_off (some switch_off)
      ∷ row State.stopped State.off Event.switch_off (some switch_off)
      ∷ row State.heating_up State.off Event.switch_off (some switch_off)
      ∷ row State.starting State.off Event.switch_off (some switch_off)
      ∷ row State.running State.off Event.switch_off (some switch_off)
      ∷ row State.stopping State.off Event.switch_off (some switch_off)
      ∷ row State.error State.off Event.switch_off (some switch_off)
      ∷ row State.off State.off Event.switch_off none
      ∷ row State.off State.error Event.error_occurred (some handle_error)
      ∷ row State.initialization State.error Event.error_occurred (some handle_error)
      ∷ row State.stopped State.error Event.error_occurred (some handle_error)
      ∷ row State.heating_up State.error Event.error_occurred (some handle_error)
      ∷ row State.starting State.error Event.error_occurred (some handle_error)
      ∷ row State.running State.error Event.error_occurred (some handle_error)
      ∷ row State.stopping State.error Event.error_occurred (some handle_error)
      ∷ row State.error State.error Event.error_occurred none
      ∷ row State.initialization State.stopped Event.switch_on_succeeded (some notify_stopped)
      ∷ row State.stopped State.heating_up Event.start (some start_heating)
      ∷ row State.stopped State.starting Event.start_heatless (some start_machine)
      ∷ row State.heating_up State.starting Event.merger_heated_up (some start_machine)
      ∷ row State.heating_up State.stopping Event.stop (some stop_machine)
      ∷ row State.starting State.starting Event.check_starting_state (some check_starting_state)
      ∷ row State.starting State.running Event.starting_succeeded none
      ∷ row State.running State.running Event.starting_succeeded none
      ∷ row State.starting State.stopping Event.stop (some stop_machine)
      ∷ row State.running State.stopping Event.stop (some stop_machine)
      ∷ row State.stopping State.stopping Event.check_stopping_state (some check_stopping_state)
      ∷ row State.stopping State.stopped Event.stopping_succeeded none
      ∷ row State.stopped State.stopped Event.check_stopping_state none
      ∷ []

-- What can happen to the component: a request or a notification that is an event, the other
-- notifications, the requests that change the speed, a round of the event thread.
pub data Input : Type 0 where
  event_message : Message → Event → Input
  merger_running_notification merger_stopped_notification : Message → Input
  coil_running_notification coil_stopped_notification : Message → Input
  increase_speed_request decrease_speed_request : Message → Input
  event_round : Input

unfoldable pub step : Environment → Input → ControlMachine → ControlMachine
step env (event_message message event) = on_world (handle_event_message message event)
step env (merger_running_notification m) = on_world (on_merger_feeding_running m)
step env (merger_stopped_notification m) = on_world (on_merger_feeding_stopped m)
step env (coil_running_notification m) = on_world (on_coil_running m)
step env (coil_stopped_notification m) = on_world (on_coil_stopped m)
step env (increase_speed_request m) = on_world (on_request_increase_motor_speed env m)
step env (decrease_speed_request m) = on_world (on_request_decrease_motor_speed env m)
step env event_round = λ m. after (process_next_event (transitions env) [] m)
