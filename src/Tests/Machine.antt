-- ===== src/Tests/Machine.antt =====
-- Runs of the machine control and of the user interface.
use sugo_machine_application.Prelude.{◌≡◌, ◌≤◌, refl, true, false, [], ◌∷◌, some, arith}
use sugo_machine_application.Framework.Message.{
  success, given, missing, filament_coil_control, request_set_motor_speed, speed, RequestTopic,
  machine_control, nothing,
}
use sugo_machine_application.Framework.World.{World, sent}
use sugo_machine_application.Framework.Stated.{run}
use sugo_machine_application.Framework.StateMachine.{process_event}
use sugo_machine_application.MachineControl
use sugo_machine_application.MachineControl.{
  broadcast_speed, start_machine, event_message, event_round, increase_speed_request,
}
use sugo_machine_application.MachineControl.Diagram.{State, Event, state_numbers, event_numbers}
use sugo_machine_application.MachineControl.Lifecycle.{
  Obedient, start_inputs, wind_down_inputs, start_and_stop_lem,
}
use sugo_machine_application.MachineControl.Safety.{IsSafe, machine_run-IsSafe}
use sugo_machine_application.MachineControl.Speed.{run-speed-le}
use sugo_machine_application.MachineControl.Requests.{
  StartEnds, error_history, off_history, broadcast_speed_lost, start_machine_outcome,
  error_and_switch_off_lem,
}
use sugo_machine_application.UserInterface
use sugo_machine_application.UserInterface.{
  receive_request, state_answer, command_answer, machine_notification, registration,
}
use sugo_machine_application.UserInterface.Diagram.{Event as UserEvent}
use sugo_machine_application.UserInterface.Lights.{Shows, lights_run-Shows}
use sugo_machine_application.UserInterface.Commands.{state_request_lem}
use sugo_machine_application.Tests.{request, accepted, obedient_environment, dead_environment}

abbrev config : MachineControl.Config
config = record { speed_default = 40; speed_max = 100; speed_increment = 15 }

obedient_environment-Obedient : Obedient obedient_environment
obedient_environment-Obedient h c t p = (accepted, refl, refl)

abbrev world : World MachineControl.Fields Event
world = record {
  fields = record { config = config; merger_running = true; coil_running = true; motor_speed = 90 };
  queue = record { events = []; max_size = 10 };
  history = [];
}

start_and_stop_example :
    let r =
      run
        (MachineControl.step obedient_environment)
        (start_inputs request true)
        (MachineControl.init config) in
    let q = run (MachineControl.step obedient_environment) (wind_down_inputs request false) r in
    (r.state ≡ State.running)
    × (r.world.fields.motor_speed ≡ 40)
    × (r.world.queue.events ≡ [])
    × (q.state ≡ State.stopped)
    × (q.world.queue.events ≡ [])
start_and_stop_example =
    start_and_stop_lem obedient_environment obedient_environment-Obedient config request true false

machine_IsSafe_example : IsSafe (
    run
      (MachineControl.step dead_environment)
      (event_message request Event.switch_on ∷ event_round ∷ event_round ∷ [])
      (MachineControl.init config))
machine_IsSafe_example =
    machine_run-IsSafe dead_environment config
      (event_message request Event.switch_on ∷ event_round ∷ event_round ∷ [])

run-speed-le_example :
    (run
      (MachineControl.step obedient_environment)
      (increase_speed_request request ∷ increase_speed_request request ∷ [])
      (MachineControl.init config)).world.fields.motor_speed
    ≤ 100
run-speed-le_example =
    run-speed-le obedient_environment config
      (increase_speed_request request ∷ increase_speed_request request ∷ []) (omega arith)

broadcast_speed_lost_example :
    let (answer, w') = broadcast_speed dead_environment request 50 world in
    (answer.result ≡ success)
    × (w'.history ≡ sent filament_coil_control request_set_motor_speed (speed 50) ∷ [])
broadcast_speed_lost_example = broadcast_speed_lost dead_environment request 50 world refl

start_machine_example :
    StartEnds obedient_environment Event.start world
      (start_machine obedient_environment Event.start State.starting world).1
start_machine_example = start_machine_outcome obedient_environment Event.start State.starting world

error_and_switch_off_example :
    (process_event
        (MachineControl.transitions dead_environment)
        Event.error_occurred
        (record { state = State.running; world = world })
      ≡ some (record {
        state = State.error;
        world = record world { history = error_history State.running [] };
      }))
    × (process_event
          (MachineControl.transitions dead_environment)
          Event.switch_off
          (record { state = State.running; world = world })
        ≡ some (record {
          state = State.off;
          world = record world { history = off_history State.running [] };
        }))
error_and_switch_off_example = error_and_switch_off_lem dead_environment State.running world

lights_example : Shows (
    run
      (UserInterface.step obedient_environment)
      (registration
        ∷ machine_notification request UserEvent.machine_running
        ∷ UserInterface.event_round
        ∷ [])
      UserInterface.init)
lights_example = lights_run-Shows obedient_environment (
    registration
    ∷ machine_notification request UserEvent.machine_running
    ∷ UserInterface.event_round
    ∷ [])

abbrev user_world : World UserInterface.Fields UserEvent
user_world = record {
  fields = record { last_machine_event = UserEvent.machine_running; has_callback = true };
  queue = record { events = []; max_size = 10 };
  history = [];
}

state_request_example :
    receive_request obedient_environment (given "request-state") missing user_world ≡ (
      some (
          state_answer (record {
            type = "response-state";
            result = "success";
            state_text = "running";
            machine_speed = 0;
          })),
      record user_world {
        history = sent machine_control RequestTopic.request_get_motor_speed nothing ∷ [];
      },
    )
unfolding UserInterface.convert_to_string
state_request_example = state_request_lem obedient_environment missing user_world
