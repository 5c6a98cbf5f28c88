-- ===== src/CoilControl/Safety.antt =====
-- The coil motor over the whole life of the coil control.
use sugo_machine_application.Prelude.{◌≡◌, ◌⊎◌, Bool, true, false, List, [], ◌∷◌, arith}
use sugo_machine_application.Framework.EventQueue.{EventQueue}
use sugo_machine_application.Framework.Message.{
  missing, empty_value, given, filament_coil_motor, request_start_motor, request_stop_motor,
  request_switch_off,
}
use sugo_machine_application.Framework.World.{World, Environment, Effect, sent}
use sugo_machine_application.Framework.StateMachine.{process_event, with_queue}
use sugo_machine_application.Framework.Stated.{run, run_inv}
use sugo_machine_application.Framework.Stated.Preserve.{Holds, process_next_event-keeps}
use sugo_machine_application.CoilControl.Diagram.{State, Event, state_numbers, event_numbers}
use sugo_machine_application.CoilControl.{
  Fields, CoilMachine, Input, event_message, start_coil_request, set_motor_speed_request,
  event_round, init, step, transitions, switch_on, switch_off, handle_error, stop_motor,
  start_motor, notify_running, control_filament_tension,
}

-- The last command to the coil motor, of those to start, stop and switch off, was to start.
abbrev pub is_coiling : List Effect → Bool
is_coiling [] = false
is_coiling (sent filament_coil_motor request_start_motor p ∷ h) = true
is_coiling (sent filament_coil_motor request_stop_motor p ∷ h) = false
is_coiling (sent filament_coil_motor request_switch_off p ∷ h) = false
is_coiling (_ ∷ h) = is_coiling h

pub record IsSafe (m : CoilMachine) : Type 0 where
  pub coils_when_running :
      is_coiling m.world.history ≡ true
      → (m.state ≡ State.starting_motor) ⊎ (m.state ≡ State.running)

module _ (env : Environment) where
  process_event-IsSafe :
      (s : State) (e : Event) (w : World Fields Event)
      → IsSafe (record { state = s; world = w })
      → Holds IsSafe (process_event (transitions env) e (record { state = s; world = w }))
  unfolding process_event transitions switch_on switch_off handle_error stop_motor start_motor
      notify_running control_filament_tension
  process_event-IsSafe State.off Event.switch_on w h = ground arith
  process_event-IsSafe State.running Event.switch_on w h = ground arith
  process_event-IsSafe _ _ w h = ground arith

  queue_of_IsSafe : (m : CoilMachine) (q : EventQueue Event) → IsSafe m → IsSafe (with_queue m q)
  queue_of_IsSafe m q h = record { coils_when_running = h.coils_when_running }

  step-IsSafe : (i : Input) (m : CoilMachine) → IsSafe m → IsSafe (step env i m)
  unfolding step
  step-IsSafe (event_message message event) m h = ground arith
  step-IsSafe (start_coil_request request missing) m h = h
  step-IsSafe (start_coil_request request empty_value) m h = h
  step-IsSafe (start_coil_request request (given b)) m h = ground arith
  step-IsSafe (set_motor_speed_request request) m h = record {
    coils_when_running = h.coils_when_running;
  }
  step-IsSafe event_round m h =
      process_next_event-keeps (transitions env) IsSafe queue_of_IsSafe
        (λ e k. process_event-IsSafe k.state e k.world) [] m h

  -- Whatever the environment answers and in whatever order messages and event rounds come, the last
  -- of the requests to start, to stop and to switch off that the coil control sent to the coil
  -- motor is to start only in the states StartingMotor and Running.
  pub coil_run-IsSafe : (is : List Input) → IsSafe (run (step env) is init)
  coil_run-IsSafe is = run_inv (step env) IsSafe step-IsSafe is init (unfold init in ground arith)
