-- ===== src/CoilControl/Tension.antt =====
-- How the coil control answers the events of the tension sensor.
use sugo_machine_application.Prelude.{
  ◌≡◌, Bool, true, false, List, [], ◌∷◌, arith, some, if◌then◌else◌,
}
use sugo_machine_application.Framework.EventQueue
use sugo_machine_application.Framework.Message.{
  Message, RequestTopic, Response, nothing, filament_coil_motor,
  request_increase_motor_offset_speed, request_decrease_motor_offset_speed, request_start_motor,
  request_stop_motor, success, notify_coil_stopped, notify_coil_running,
}
use sugo_machine_application.Framework.World.{World, Environment, Effect, sent, notified, send}
use sugo_machine_application.Framework.StateMachine.{process_event}
use sugo_machine_application.Framework.Stated.{run}
use sugo_machine_application.CoilControl.Diagram.{State, Event, state_numbers, event_numbers}
use sugo_machine_application.CoilControl.{
  Fields, Input, event_message, event_round, step, transitions, control_filament_tension,
  stop_motor, start_motor, notify_running,
}

-- The direction in which the motor's offset speed is to go: up when the tension is too low.
abbrev pub tension_event : Bool → Event
tension_event true = Event.tension_too_low
tension_event false = Event.tension_too_high

abbrev pub offset_request : Bool → RequestTopic
offset_request true = request_increase_motor_offset_speed
offset_request false = request_decrease_motor_offset_speed

-- In the state Running, a tension that is too low or too high leaves the state as it is. If the
-- tension is controlled, the coil motor gets exactly one request, to increase the offset speed for
-- a tension too low and to decrease it for one too high, and a request that fails pushes the event
-- ErrorOccurred; if it is not controlled, nothing happens at all.
pub tension_event_lem :
    (env : Environment) (low : Bool) (w : World Fields Event)
    → let request = sent filament_coil_motor (offset_request low) nothing in
      let succeeded = (send env filament_coil_motor (offset_request low) nothing w).0 in
      process_event
        (transitions env)
        (tension_event low)
        (record { state = State.running; world = w })
      ≡ some (record {
        state = State.running;
        world =
            if w.fields.control_tension
            then record {
              fields = w.fields;
              queue =
                  if succeeded then w.queue else (EventQueue.push Event.error_occurred w.queue).0;
              history = request ∷ w.history;
            }
            else w;
      })
unfolding process_event transitions control_filament_tension send
tension_event_lem env true w = ground arith
tension_event_lem env false w = ground arith

-- The coil motor answers each request, and with success.
abbrev pub MotorObeys : Environment → Type 0
MotorObeys env =
    (h : List Effect) (t : RequestTopic)
    → (r : Response) × (env.reply h filament_coil_motor t nothing ≡ some r) × (r.result ≡ success)

-- An overload, the stop of the motor, a tension that is too high again, the start of the motor.
abbrev pub pause_inputs : Message → List Input
pause_inputs m =
    event_message m Event.tension_overloaded
    ∷ event_round
    ∷ event_message m Event.stop_motor_succeeded
    ∷ event_round
    ∷ event_message m Event.tension_too_high
    ∷ event_round
    ∷ event_message m Event.start_motor_succeeded
    ∷ event_round
    ∷ []

-- If the coil motor obeys, a running coil control pauses on an overload, with one request to stop
-- and the notification CoilStopped, and when the motor has stopped and the tension is too high but
-- no longer overloaded it starts the motor again and ends in the state Running, with an empty
-- queue, its fields as before and the notification CoilRunning.
pub pause_and_resume_lem :
    (env : Environment)
    → MotorObeys env
    → (m : Message) (f : Fields) (h : List Effect)
    → run (step env) (pause_inputs m) (record {
      state = State.running;
      world = record { fields = f; queue = record { events = []; max_size = 10 }; history = h };
    })
      ≡ record {
        state = State.running;
        world = record {
          fields = f;
          queue = record { events = []; max_size = 10 };
          history =
              notified notify_coil_running nothing
              ∷ sent filament_coil_motor request_start_motor nothing
              ∷ notified notify_coil_stopped nothing
              ∷ sent filament_coil_motor request_stop_motor nothing
              ∷ h;
        };
      }
unfolding run step transitions stop_motor start_motor notify_running
pause_and_resume_lem env obeys m f h = ground (
  arith,
  obeys h request_stop_motor,
  obeys
      (notified notify_coil_stopped nothing
        ∷ sent filament_coil_motor request_stop_motor nothing
        ∷ h)
      request_start_motor,
)
