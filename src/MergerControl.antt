-- ===== src/MergerControl.antt =====
-- FilamentMergerControl (libs/MachineServiceComponent/src/FilamentMergerControl.cpp), with its
-- requests, notifications and transitions in
-- libs/MachineServiceComponent/conf/MachineServiceComponent.yaml.
pub mod Diagram
pub mod Transitions
pub mod Safety
pub mod Heating
use sugo_machine_application.Prelude.{
  Bool, true, false, not, ◌&&◌, if◌then◌else◌, List, [], ◌∷◌, Option, none, some,
}
use sugo_machine_application.Framework.EventQueue.{empty_queue, default_queue_size}
use sugo_machine_application.Framework.Message.{
  Message, nothing, filament_feeder_motor, filament_pre_heater, filament_merger_heater,
  request_switch_on, request_stop_motor, request_start_motor, request_get_temperature,
  request_set_motor_speed, notify_error_occurred, notify_feeding_stopped, notify_feeding_running,
  NotificationTopic,
}
use sugo_machine_application.Framework.World.{
  World, Action, Environment, push, notify, send, forward, switch_off_service_component, ◌>>=◌,
  ◌>>◌, skip, pure, get_fields, set_fields, when,
}
use sugo_machine_application.Framework.StateMachine.{
  Transition, Machine, row, process_next_event, after,
}
use sugo_machine_application.Framework.Stated.{handle_event_message, on_world}
use Diagram.{State, Event, state_numbers, event_numbers}

pub record Fields : Type 0 where
  pub pre_heater_reached : Bool
  pub merger_heater_reached : Bool

abbrev pub MergerAction : Type 0 → Type 0
MergerAction A = Action Fields Event A

abbrev pub MergerMachine : Type 0
MergerMachine = Machine State Fields Event

abbrev pub cold : Fields
cold = record { pre_heater_reached = false; merger_heater_reached = false }

unfoldable pub init : MergerMachine
unfolding empty_queue
init = record {
  state = State.off;
  world = record { fields = cold; queue = empty_queue default_queue_size; history = [] };
}

-- Notifications

unfoldable pub on_pre_heater_temperature_range_reached : Message → MergerAction (Unit {0})
unfolding handle_event_message
on_pre_heater_temperature_range_reached request = do
  f ← get_fields
  set_fields (record f { pre_heater_reached = true })
  when (not f.pre_heater_reached && f.merger_heater_reached)
      (do _ ← handle_event_message request Event.heating_up_succeeded; skip)

unfoldable pub on_merger_heater_temperature_range_reached : Message → MergerAction (Unit {0})
unfolding handle_event_message
on_merger_heater_temperature_range_reached request = do
  f ← get_fields
  set_fields (record f { merger_heater_reached = true })
  when (not f.merger_heater_reached && f.pre_heater_reached)
      (do _ ← handle_event_message request Event.heating_up_succeeded; skip)

module _ (env : Environment) where
  unfoldable pub switch_on : Event → State → MergerAction (Unit {0})
  unfolding send push
  switch_on _ _ = do
    set_fields cold
    motor_on ← send env filament_feeder_motor request_switch_on nothing
    if motor_on then push Event.switch_on_succeeded else push Event.error_occurred

  -- `switchOff()`.
  unfoldable pub switch_off_all : MergerAction (Unit {0})
  unfolding switch_off_service_component
  switch_off_all = do
    _ ← switch_off_service_component env filament_feeder_motor
    _ ← switch_off_service_component env filament_merger_heater
    _ ← switch_off_service_component env filament_pre_heater
    skip

  unfoldable pub switch_off : Event → State → MergerAction (Unit {0})
  unfolding switch_off_all
  switch_off _ _ = switch_off_all

  unfoldable pub start_motor : Event → State → MergerAction (Unit {0})
  unfolding send push
  start_motor _ _ = do
    started ← send env filament_feeder_motor request_start_motor nothing
    when (not started) (push Event.error_occurred)

  unfoldable pub stop_merger : Event → State → MergerAction (Unit {0})
  unfolding switch_off_service_component send push notify
  stop_merger _ _ = do
    _ ← switch_off_service_component env filament_merger_heater
    _ ← switch_off_service_component env filament_pre_heater
    stopped ← send env filament_feeder_motor request_stop_motor nothing
    when (not stopped) (push Event.error_occurred)
    notify notify_feeding_stopped

  unfoldable pub handle_error : Event → State → MergerAction (Unit {0})
  unfolding switch_off_all notify
  handle_error _ _ = do switch_off_all; notify notify_error_occurred

  unfoldable pub notify_heated_up : Event → State → MergerAction (Unit {0})
  unfolding notify
  notify_heated_up _ _ = notify NotificationTopic.notify_heated_up

  unfoldable pub heating_up : Event → State → MergerAction (Unit {0})
  unfolding send push
  heating_up _ _ = do
    set_fields cold
    pre_on ← send env filament_pre_heater request_switch_on nothing
    when (not pre_on) (push Event.error_occurred)
    merger_on ← send env filament_merger_heater request_switch_on nothing
    when (not merger_on) (push Event.error_occurred)

  unfoldable pub notify_running : Event → State → MergerAction (Unit {0})
  unfolding notify
  notify_running _ _ = notify notify_feeding_running

  -- The generated table; a pattern over the states stands for a row of each state that it matches.
  unfoldable pub transitions : List (Transition State Fields Event)
  transitions =
      row State.off State.initialization Event.switch_on (some switch_on)
      ∷ row State.initialization State.off Event.switch_off (some switch_off)
      ∷ row State.heating_up State.off Event.switch_off (some switch_off)
      ∷ row State.heated_up State.off Event.switch_off (some switch_off)
      ∷ row State.merger_stopped State.off Event.switch_off (some switch_off)
      ∷ row State.starting_motor State.off Event.switch_off (some switch_off)
      ∷ row State.running State.off Event.switch_off (some switch_off)
      ∷ row State.error State.off Event.switch_off (some switch_off)
      ∷ row State.off State.off Event.switch_off none
      ∷ row State.off State.error Event.error_occurred (some handle_error)
      ∷ row State.initialization State.error Event.error_occurred (some handle_error)
      ∷ row State.heating_up State.error Event.error_occurred (some handle_error)
      ∷ row State.heated_up State.error Event.error_occurred (some handle_error)
      ∷ row State.merger_stopped State.error Event.error_occurred (some handle_error)
      ∷ row State.starting_motor State.error Event.error_occurred (some handle_error)
      ∷ row State.running State.error Event.error_occurred (some handle_error)
      ∷ row State.error State.error Event.error_occurred none
      ∷ row State.initialization State.merger_stopped Event.switch_on_succeeded none
      ∷ row State.merger_stopped State.heating_up Event.start_heating (some heating_up)
      ∷ row State.heating_up State.heated_up Event.heating_up_succeeded (some notify_heated_up)
      ∷ row State.heating_up State.merger_stopped Event.stop (some stop_merger)
      ∷ row State.starting_motor State.merger_stopped Event.stop (some stop_merger)
      ∷ row State.running State.merger_stopped Event.stop (some stop_merger)
      ∷ row State.heated_up State.starting_motor Event.start_motor (some start_motor)
      ∷ row State.merger_stopped State.starting_motor Event.start_motor (some start_motor)
      ∷ row State.merger_stopped State.merger_stopped Event.stop none
      ∷ row State.starting_motor State.running Event.start_motor_succeeded (some notify_running)
      ∷ []

-- What can happen to the component: a request or a notification that is an event, the other
-- notifications, the requests that are forwarded, a round of the event thread.
pub data Input : Type 0 where
  event_message : Message → Event → Input
  pre_heater_reached_notification merger_heater_reached_notification : Message → Input
  get_temperature_request set_motor_speed_request : Message → Input
  event_round : Input

unfoldable pub step : Environment → Input → MergerMachine → MergerMachine
unfolding handle_event_message on_pre_heater_temperature_range_reached
    on_merger_heater_temperature_range_reached forward process_next_event
step env (event_message message event) = on_world (handle_event_message message event)
step env (pre_heater_reached_notification m) = on_world (on_pre_heater_temperature_range_reached m)
step env (merger_heater_reached_notification m) =
    on_world (on_merger_heater_temperature_range_reached m)
step env (get_temperature_request request) =
    on_world (forward env request filament_merger_heater request_get_temperature)
step env (set_motor_speed_request request) =
    on_world (forward env request filament_feeder_motor request_set_motor_speed)
step env event_round = λ m. after (process_next_event (transitions env) [] m)
