-- ===== src/Tests/Units.antt =====
-- Runs of the merger control and of the coil control.
use sugo_machine_application.Prelude.{◌≡◌, refl, true, false, [], ◌∷◌, arith}
use sugo_machine_application.Framework.EventQueue
use sugo_machine_application.Framework.Message.{
  nothing, filament_coil_motor, request_start_motor, request_stop_motor, notify_coil_stopped,
  notify_coil_running, given,
}
use sugo_machine_application.Framework.World.{World, sent, notified}
use sugo_machine_application.Framework.Stated.{run, on_world, handle_event_message}
use sugo_machine_application.Framework.StateMachine.{process_next_event, unknown_event}
use sugo_machine_application.MergerControl
use sugo_machine_application.MergerControl.Diagram.{
  State as MergerState, Event as MergerEvent, state_numbers as merger_states,
  event_numbers as merger_events,
}
use sugo_machine_application.MergerControl.Safety.{IsSafe as MergerIsSafe, merger_run-IsSafe}
use sugo_machine_application.MergerControl.Heating.{
  report_all, report_all-queue_from_cold, motor_stopped_notification_unknown,
}
use sugo_machine_application.CoilControl
use sugo_machine_application.CoilControl.Diagram.{
  State as CoilState, Event as CoilEvent, state_numbers as coil_states,
  event_numbers as coil_events,
}
use sugo_machine_application.CoilControl.Safety.{IsSafe as CoilIsSafe, coil_run-IsSafe}
use sugo_machine_application.CoilControl.Tension.{MotorObeys, pause_inputs, pause_and_resume_lem}
use sugo_machine_application.Tests.{request, accepted, obedient_environment}

merger_IsSafe_example : MergerIsSafe (
    run
      (MergerControl.step obedient_environment)
      (MergerControl.event_message request MergerEvent.switch_on
        ∷ MergerControl.event_round
        ∷ MergerControl.event_round
        ∷ MergerControl.event_message request MergerEvent.start_heating
        ∷ MergerControl.event_round
        ∷ [])
      MergerControl.init)
merger_IsSafe_example = merger_run-IsSafe obedient_environment (
    MergerControl.event_message request MergerEvent.switch_on
    ∷ MergerControl.event_round
    ∷ MergerControl.event_round
    ∷ MergerControl.event_message request MergerEvent.start_heating
    ∷ MergerControl.event_round
    ∷ [])

abbrev merger_world : World MergerControl.Fields MergerEvent
merger_world = record {
  fields = MergerControl.cold;
  queue = record { events = []; max_size = 10 };
  history = [];
}

-- The merger heater reports twice, and the pre-heater in between.
report_all-queue_example :
    (report_all request (false ∷ true ∷ false ∷ []) merger_world).queue
    ≡ record { events = MergerEvent.heating_up_succeeded ∷ []; max_size = 10 }
unfolding EventQueue.push
report_all-queue_example =
    report_all-queue_from_cold request (false ∷ true ∷ false ∷ []) merger_world refl

motor_stopped_example :
    process_next_event (MergerControl.transitions obedient_environment) [] (
      on_world
        (handle_event_message request MergerEvent.stop_motor_succeeded)
        (record { state = MergerState.merger_stopped; world = merger_world }))
    ≡ unknown_event MergerEvent.stop_motor_succeeded
        (record { state = MergerState.merger_stopped; world = merger_world })
motor_stopped_example =
    motor_stopped_notification_unknown obedient_environment request MergerState.merger_stopped
      MergerControl.cold [] 10 (omega arith)

coil_IsSafe_example : CoilIsSafe (
    run
      (CoilControl.step obedient_environment)
      (CoilControl.event_message request CoilEvent.switch_on
        ∷ CoilControl.event_round
        ∷ CoilControl.event_round
        ∷ CoilControl.start_coil_request request (given true)
        ∷ CoilControl.event_round
        ∷ [])
      CoilControl.init)
coil_IsSafe_example = coil_run-IsSafe obedient_environment (
    CoilControl.event_message request CoilEvent.switch_on
    ∷ CoilControl.event_round
    ∷ CoilControl.event_round
    ∷ CoilControl.start_coil_request request (given true)
    ∷ CoilControl.event_round
    ∷ [])

abbrev coil_world : World CoilControl.Fields CoilEvent
coil_world = record {
  fields = record { control_tension = true };
  queue = record { events = []; max_size = 10 };
  history = [];
}

obedient_environment-MotorObeys : MotorObeys obedient_environment
obedient_environment-MotorObeys h t = (accepted, refl, refl)

pause_and_resume_example :
    run
      (CoilControl.step obedient_environment)
      (pause_inputs request)
      (record { state = CoilState.running; world = coil_world })
    ≡ record {
      state = CoilState.running;
      world = record {
        fields = record { control_tension = true };
        queue = record { events = []; max_size = 10 };
        history =
            notified notify_coil_running nothing
            ∷ sent filament_coil_motor request_start_motor nothing
            ∷ notified notify_coil_stopped nothing
            ∷ sent filament_coil_motor request_stop_motor nothing
            ∷ [];
      };
    }
pause_and_resume_example =
    pause_and_resume_lem obedient_environment obedient_environment-MotorObeys request
      (record { control_tension = true }) []
