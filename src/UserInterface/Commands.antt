-- ===== src/UserInterface/Commands.antt =====
-- What a remote client gets from the user interface.
use Prim.Native.String.{String}
use sugo_machine_application.Prelude.{◌≡◌, refl, ◌∷◌, arith, some, if◌then◌else◌}
use sugo_machine_application.Framework.Message.{
  Parameter, given, RequestTopic, machine_control, nothing,
}
use sugo_machine_application.Framework.World.{World, Environment, sent, send}
use sugo_machine_application.UserInterface.Diagram.{Event, state_numbers, event_numbers}
use sugo_machine_application.UserInterface.{
  Fields, command_answer, state_answer, command_request, convert_to_string, create_state_message,
  receive_request, receive_command,
}

-- The commands of a client, with their texts and what they ask of the machine control.
pub data Command : Type 0 where
  switch_on switch_off start start_heatless stop increase_speed decrease_speed : Command

abbrev pub command_text : Command → String
command_text switch_on = "switch-on"
command_text switch_off = "switch-off"
command_text start = "start"
command_text start_heatless = "start-heatless"
command_text stop = "stop"
command_text increase_speed = "increase-speed"
command_text decrease_speed = "decrease-speed"

abbrev pub command_topic : Command → RequestTopic
command_topic switch_on = RequestTopic.request_switch_on
command_topic switch_off = RequestTopic.request_switch_off
command_topic start = RequestTopic.request_start
command_topic start_heatless = RequestTopic.request_start_heatless
command_topic stop = RequestTopic.request_stop
command_topic increase_speed = RequestTopic.request_increase_motor_speed
command_topic decrease_speed = RequestTopic.request_decrease_motor_speed

command_request-command_text :
    (c : Command) → command_request (command_text c) ≡ some (command_topic c)
unfolding command_request
command_request-command_text switch_on = refl
command_request-command_text switch_off = refl
command_request-command_text start = refl
command_request-command_text start_heatless = refl
command_request-command_text stop = refl
command_request-command_text increase_speed = refl
command_request-command_text decrease_speed = refl

module _ (env : Environment) where
  -- A request for the state, whatever its command, asks the machine control for the speed and
  -- answers the text of the machine event that was handled last, with the result success and the
  -- speed 0 whatever the machine control answers.
  pub state_request_lem :
      (command : Parameter String) (w : World Fields Event)
      → receive_request env (given "request-state") command w ≡ (
        some (
            state_answer (record {
              type = "response-state";
              result = "success";
              state_text = convert_to_string w.fields.last_machine_event;
              machine_speed = 0;
            })),
        record w {
          history = sent machine_control RequestTopic.request_get_motor_speed nothing ∷ w.history;
        },
      )
  unfolding receive_request create_state_message
  state_request_lem command w = ground arith

  receive_command-some :
      (c : String) (t : RequestTopic) (w : World Fields Event)
      → command_request c ≡ some t
      → receive_command env (given c) w ≡ (
        some (
            command_answer
              (if (send env machine_control t nothing w).0 then "success" else "error")),
        record w { history = sent machine_control t nothing ∷ w.history },
      )
  unfolding receive_command send
  receive_command-some c t w h = rw h refl

  -- Each of the seven commands of a client sends exactly one request to the machine control, the
  -- one that belongs to its text, and is answered with success if that request succeeds and with
  -- error if it does not; no field and no event changes.
  pub command_lem :
      (c : Command) (w : World Fields Event)
      → receive_request env (given "request-command") (given (command_text c)) w ≡ (
        some (
            command_answer (
              if (send env machine_control (command_topic c) nothing w).0
              then "success"
              else "error")),
        record w { history = sent machine_control (command_topic c) nothing ∷ w.history },
      )
  unfolding receive_request
  command_lem c w =
      receive_command-some (command_text c) (command_topic c) w (command_request-command_text c)
