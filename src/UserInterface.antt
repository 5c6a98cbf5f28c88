-- ===== src/UserInterface.antt =====
-- UserInterfaceControl (libs/MachineServiceComponent/src/UserInterfaceControl.cpp) over
-- UserLightService (libs/MachineServiceComponent/src/UserLightService.cpp), with its notifications
-- and transitions in libs/MachineServiceComponent/conf/MachineServiceComponent.yaml, and the names
-- of libs/RemoteControl/include/RemoteControl/Protocol.hpp.
pub mod Diagram
pub mod Transitions
pub mod Commands
pub mod Lights
use Prim.Native.String.{String}
use text.Mathlib.Text.{◌==◌ as str_eq}
use sugo_machine_application.Prelude.{
  ℕ, Bool, true, false, ◌&&◌, not, if◌then◌else◌, List, [], ◌∷◌, Option, none, some,
}
use sugo_machine_application.Framework.EventQueue.{empty_queue, default_queue_size}
use sugo_machine_application.Framework.Message.{
  Message, Response, Payload, StateMessage, Parameter, missing, empty_value, given, nothing, speed,
  RequestTopic, machine_control, request_switch_on, request_switch_off, request_start,
  request_start_heatless, request_stop, request_increase_motor_speed, request_decrease_motor_speed,
  request_get_motor_speed, default_response,
}
use sugo_machine_application.Framework.World.{
  World, Action, Environment, Effect, Level, low, high, Pin, light_power_pin, light_run_pin,
  light_ready_pin, set_pin, call, send, ◌>>=◌, ◌>>◌, skip, pure, get_fields, set_fields, when,
}
use sugo_machine_application.Framework.StateMachine.{
  Transition, Machine, row, process_next_event, after,
}
use sugo_machine_application.Framework.Stated.{handle_event_message, on_world}
use Diagram.{State, Event, state_numbers, event_numbers}

pub record Fields : Type 0 where
  pub last_machine_event : Event
  -- Whether a callback for notifications is registered.
  pub has_callback : Bool

abbrev pub UserAction : Type 0 → Type 0
UserAction A = Action Fields Event A

abbrev pub UserMachine : Type 0
UserMachine = Machine State Fields Event

unfoldable pub init : UserMachine
unfolding empty_queue
init = record {
  state = State.active;
  world = record {
    fields = record { last_machine_event = Event.machine_switched_off; has_callback = false };
    queue = empty_queue default_queue_size;
    history = [];
  };
}

-- `registerSendNotification`.
unfoldable pub register_send_notification : UserAction (Unit {0})
register_send_notification = do f ← get_fields; set_fields (record f { has_callback = true })

unfoldable pub convert_to_string : Event → String
convert_to_string Event.machine_switched_off = "off"
convert_to_string Event.machine_stopped = "stopped"
convert_to_string Event.machine_heating_up = "starting"
convert_to_string Event.machine_starting = "starting"
convert_to_string Event.machine_running = "running"
convert_to_string Event.machine_error = "error"

-- What `receiveRequest` answers.
pub data Answer : Type 0 where
  state_answer : StateMessage → Answer
  command_answer : String → Answer
  error_answer : String → Answer

-- The request of a command of the user, if it is one.
unfoldable pub command_request : String → Option RequestTopic
command_request c =
    if str_eq c "switch-on"
    then some request_switch_on
    else (if str_eq c "start"
        then some request_start
        else (if str_eq c "start-heatless"
            then some request_start_heatless
            else (if str_eq c "stop"
                then some request_stop
                else (if str_eq c "increase-speed"
                    then some request_increase_motor_speed
                    else (if str_eq c "decrease-speed"
                        then some request_decrease_motor_speed
                        else (if str_eq c "switch-off" then some request_switch_off else none))))))

abbrev pub level_of : Bool → Level
level_of true = high
level_of false = low

-- The speed in a payload; the response object that is looked at is never written, so that its
-- payload is empty.
unfoldable pub response_speed : Bool → Payload → ℕ
response_speed true (speed n) = n
response_speed _ _ = 0

module _ (env : Environment) where
  -- `UserLightService::switchLight`.
  unfoldable pub switch_light : Bool → Bool → Bool → UserAction (Unit {0})
  unfolding call
  switch_light power run ready = do
    _ ← call env (set_pin light_power_pin (level_of power))
    _ ← call env (set_pin light_run_pin (level_of run))
    _ ← call env (set_pin light_ready_pin (level_of ready))
    skip

  unfoldable pub create_state_message : String → UserAction StateMessage
  unfolding send default_response convert_to_string response_speed
  create_state_message type = do
    success ← send env machine_control request_get_motor_speed nothing
    f ← get_fields
    pure (record {
      type = type;
      result = "success";
      state_text = convert_to_string f.last_machine_event;
      machine_speed = response_speed success default_response.payload;
    })

  abbrev pub send_command : Option RequestTopic → UserAction Bool
  send_command none = pure false
  send_command (some topic) = send env machine_control topic nothing

  -- `receiveRequest` with the type and the command that the JSON library finds in the request;
  -- none stands for an exception of that library.
  unfoldable pub receive_command : Parameter String → UserAction (Option Answer)
  unfolding send command_request
  receive_command missing = pure none
  receive_command empty_value = pure (some (error_answer "error-command-unsupported"))
  receive_command (given command) = do
    done ← send_command (command_request command)
    pure (some (command_answer (if done then "success" else "error")))

  unfoldable pub receive_request : Parameter String → Parameter String → UserAction (Option Answer)
  unfolding create_state_message receive_command
  receive_request missing command = pure none
  receive_request empty_value command = pure (some (error_answer "error-type-invalid"))
  receive_request (given type) command =
      if str_eq type "request-state"
      then (do m ← create_state_message "response-state"; pure (some (state_answer m)))
      else (if str_eq type "request-command"
          then receive_command command
          else pure (some (error_answer "error-request-unsupported")))

  unfoldable pub update_machine_state : UserAction (Unit {0})
  unfolding create_state_message
  update_machine_state = do
    f ← get_fields
    when f.has_callback (do
      m ← create_state_message "notification-state"
      λ w. (tt, record w { history = Effect.client_notified m ∷ w.history }))

  -- The lights of a machine event: power, run and ready.
  unfoldable pub switch_event_light : Event → UserAction (Unit {0})
  unfolding switch_light
  switch_event_light Event.machine_error = switch_light false false false
  switch_event_light Event.machine_switched_off = switch_light false false false
  switch_event_light Event.machine_stopped = switch_light true false false
  switch_event_light Event.machine_heating_up = switch_light true true false
  switch_event_light Event.machine_starting = switch_light true true false
  switch_event_light Event.machine_running = switch_light true true true

  unfoldable pub handle_machine_state_change : Event → State → UserAction (Unit {0})
  unfolding switch_event_light update_machine_state
  handle_machine_state_change event _ = do
    f ← get_fields
    set_fields (record f { last_machine_event = event })
    switch_event_light event
    update_machine_state

  -- The generated table.
  unfoldable pub transitions : List (Transition State Fields Event)
  transitions =
      row State.active State.active Event.machine_stopped (some handle_machine_state_change)
      ∷ row State.active State.active Event.machine_heating_up (some handle_machine_state_change)
      ∷ row State.active State.active Event.machine_starting (some handle_machine_state_change)
      ∷ row State.active State.active Event.machine_running (some handle_machine_state_change)
      ∷ row State.active State.active Event.machine_switched_off (some handle_machine_state_change)
      ∷ row State.active State.active Event.machine_error (some handle_machine_state_change)
      ∷ []

-- What can happen to the component: a notification of the machine control, a request of a remote
-- client, the registration of the callback, a round of the event thread.
pub data Input : Type 0 where
  machine_notification : Message → Event → Input
  client_request : Parameter String → Parameter String → Input
  registration : Input
  event_round : Input

unfoldable pub step : Environment → Input → UserMachine → UserMachine
step env (machine_notification message event) = on_world (handle_event_message message event)
step env (client_request type command) = on_world (receive_request env type command)
step env registration = on_world register_send_notification
step env event_round = λ m. after (process_next_event (transitions env) [] m)
