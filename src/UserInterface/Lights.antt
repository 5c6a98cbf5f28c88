-- ===== src/UserInterface/Lights.antt =====
-- The lights of the machine over the whole life of the user interface.
use Prim.Native.String.{String}
use text.Mathlib.Text.{◌==◌ as str_eq}
use sugo_machine_application.Prelude.{
  if◌then◌else◌, ◌≡◌, refl, Bool, true, false, List, [], ◌∷◌, arith, Option, none, some,
}
use sugo_machine_application.Framework.EventQueue.{EventQueue}
use sugo_machine_application.Framework.Message.{
  RequestTopic, Parameter, missing, empty_value, given,
}
use sugo_machine_application.Framework.World.{
  World, Environment, Effect, Level, low, light_power_pin, light_run_pin, light_ready_pin, called,
  set_pin, send,
}
use sugo_machine_application.Framework.StateMachine.{process_event, with_queue}
use sugo_machine_application.Framework.Stated.{run, run_inv, handle_event_message}
use sugo_machine_application.Framework.Stated.Preserve.{Holds, process_next_event-keeps}
use sugo_machine_application.UserInterface.Diagram.{State, Event, state_numbers, event_numbers}
use sugo_machine_application.UserInterface.{
  send_command, Answer, UserAction, command_request, Fields, UserMachine, Input,
  machine_notification, client_request, registration, event_round, init, step, transitions,
  level_of, handle_machine_state_change, create_state_message, receive_request, receive_command,
  register_send_notification, switch_event_light, update_machine_state,
}

-- The level that each light was last switched to; a light is low before.
abbrev pub power_light : List Effect → Level
power_light [] = low
power_light (called (set_pin light_power_pin l) ∷ h) = l
power_light (_ ∷ h) = power_light h

abbrev pub run_light : List Effect → Level
run_light [] = low
run_light (called (set_pin light_run_pin l) ∷ h) = l
run_light (_ ∷ h) = run_light h

abbrev pub ready_light : List Effect → Level
ready_light [] = low
ready_light (called (set_pin light_ready_pin l) ∷ h) = l
ready_light (_ ∷ h) = ready_light h

-- What the lights mean.
abbrev pub is_on : Event → Bool
is_on Event.machine_switched_off = false
is_on Event.machine_error = false
is_on _ = true

abbrev pub is_working : Event → Bool
is_working Event.machine_heating_up = true
is_working Event.machine_starting = true
is_working Event.machine_running = true
is_working _ = false

abbrev pub is_ready : Event → Bool
is_ready Event.machine_running = true
is_ready _ = false

pub record Shows (m : UserMachine) : Type 0 where
  pub power_shown : power_light m.world.history ≡ level_of (is_on m.world.fields.last_machine_event)
  pub run_shown :
      run_light m.world.history ≡ level_of (is_working m.world.fields.last_machine_event)
  pub ready_shown :
      ready_light m.world.history ≡ level_of (is_ready m.world.fields.last_machine_event)

-- The fields and the lights stay as they are.
abbrev Quiet : World Fields Event → World Fields Event → Type 0
Quiet w w' =
    (w'.fields ≡ w.fields)
    × (power_light w'.history ≡ power_light w.history)
    × (run_light w'.history ≡ run_light w.history)
    × (ready_light w'.history ≡ ready_light w.history)

if-Quiet :
    (b : Bool) (c d : UserAction (Option Answer)) (w : World Fields Event)
    → Quiet w (c w).1
    → Quiet w (d w).1
    → Quiet w ((if b then c else d) w).1
if-Quiet true c d w h k = h
if-Quiet false c d w h k = k

module _ (env : Environment) where
  create_state_message-Quiet :
      (type : String) (w : World Fields Event) → Quiet w (create_state_message env type w).1
  unfolding create_state_message
  create_state_message-Quiet type w = (refl, refl, refl, refl)

  send_command-Quiet :
      (topic : Option RequestTopic) (w : World Fields Event) → Quiet w (send_command env topic w).1
  unfolding send
  send_command-Quiet none w = (refl, refl, refl, refl)
  send_command-Quiet (some topic) w = (refl, refl, refl, refl)

  receive_command-Quiet :
      (c : Parameter String) (w : World Fields Event) → Quiet w (receive_command env c w).1
  unfolding receive_command
  receive_command-Quiet missing w = (refl, refl, refl, refl)
  receive_command-Quiet empty_value w = (refl, refl, refl, refl)
  receive_command-Quiet (given c) w = send_command-Quiet (command_request c) w

  -- A request of a client moves neither the fields nor the lights.
  receive_request-Quiet :
      (type command : Parameter String) (w : World Fields Event)
      → Quiet w (receive_request env type command w).1
  unfolding receive_request
  receive_request-Quiet missing command w = (refl, refl, refl, refl)
  receive_request-Quiet empty_value command w = (refl, refl, refl, refl)
  receive_request-Quiet (given type) command w =
      if-Quiet (str_eq type "request-state") _ _ w (create_state_message-Quiet "response-state" w) (
        if-Quiet (str_eq type "request-command") _ _ w (receive_command-Quiet command w)
          (refl, refl, refl, refl))

  process_event-Shows :
      (s : State) (e : Event) (w : World Fields Event)
      → Shows (record { state = s; world = w })
      → Holds Shows (process_event (transitions env) e (record { state = s; world = w }))
  unfolding process_event transitions handle_machine_state_change switch_event_light
      update_machine_state create_state_message
  process_event-Shows s Event.machine_stopped w h = ground arith
  process_event-Shows s Event.machine_heating_up w h = ground arith
  process_event-Shows s Event.machine_starting w h = ground arith
  process_event-Shows s Event.machine_running w h = ground arith
  process_event-Shows s Event.machine_switched_off w h = ground arith
  process_event-Shows s Event.machine_error w h = ground arith

  queue_of_Shows : (m : UserMachine) (q : EventQueue Event) → Shows m → Shows (with_queue m q)
  queue_of_Shows m q h = record {
    power_shown = h.power_shown;
    run_shown = h.run_shown;
    ready_shown = h.ready_shown;
  }

  step-Shows : (i : Input) (m : UserMachine) → Shows m → Shows (step env i m)
  unfolding step handle_event_message register_send_notification
  step-Shows (machine_notification message event) m h = ground arith
  step-Shows (client_request type command) m h =
      let quiet = receive_request-Quiet type command m.world in
      record {
        power_shown = rw (quiet.0, quiet.1) h.power_shown;
        run_shown = rw (quiet.0, quiet.2) h.run_shown;
        ready_shown = rw (quiet.0, quiet.3) h.ready_shown;
      }
  step-Shows registration m h = ground arith
  step-Shows event_round m h =
      process_next_event-keeps (transitions env) Shows queue_of_Shows
        (λ e k. process_event-Shows k.state e k.world) [] m h

  -- Whatever the environment answers and in whatever order notifications, client requests,
  -- registrations and event rounds come, the three lights show the machine event that was handled
  -- last: the power light is on unless it is switched off or in error, the run light is on while
  -- it is heating up, starting or running, and the ready light is on while it is running.
  pub lights_run-Shows : (is : List Input) → Shows (run (step env) is init)
  lights_run-Shows is = run_inv (step env) Shows step-Shows is init (unfold init in ground arith)
