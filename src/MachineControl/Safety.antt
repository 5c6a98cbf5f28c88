-- ===== src/MachineControl/Safety.antt =====
-- The merger unit over the whole life of the machine control.
use sugo_machine_application.Prelude.{◌≡◌, Bool, true, false, List, [], ◌∷◌, arith}
use sugo_machine_application.Framework.EventQueue.{EventQueue}
use sugo_machine_application.Framework.Message.{
  filament_merger_control, request_start_heating, request_start_feeding, request_stop_feeding,
  request_switch_off,
}
use sugo_machine_application.Framework.World.{World, Environment, Effect, sent}
use sugo_machine_application.Framework.StateMachine.{process_event, with_queue}
use sugo_machine_application.Framework.Stated.{run, run_inv, handle_event_message}
use sugo_machine_application.Framework.Stated.Preserve.{Holds, process_next_event-keeps}
use sugo_machine_application.MachineControl.Diagram.{State, Event, state_numbers, event_numbers}
use sugo_machine_application.MachineControl.{
  Config, Fields, ControlMachine, Input, event_message, merger_running_notification,
  merger_stopped_notification, coil_running_notification, coil_stopped_notification,
  increase_speed_request, decrease_speed_request, event_round, init, step, transitions, switch_on,
  switch_off, handle_error, start_heating, start_machine, check_starting_state, stop_machine,
  check_stopping_state, notify_stopped, broadcast_speed, on_request_increase_motor_speed,
  on_request_decrease_motor_speed, on_merger_feeding_running, on_merger_feeding_stopped,
  on_coil_running, on_coil_stopped,
}

-- The last command to the merger, of those to start or stop feeding, to heat and to switch off, was
-- to start feeding or to heat.
abbrev pub is_working : List Effect → Bool
is_working [] = false
is_working (sent filament_merger_control request_start_feeding p ∷ h) = true
is_working (sent filament_merger_control request_start_heating p ∷ h) = true
is_working (sent filament_merger_control request_stop_feeding p ∷ h) = false
is_working (sent filament_merger_control request_switch_off p ∷ h) = false
is_working (_ ∷ h) = is_working h

abbrev pub may_work : State → Bool
may_work State.heating_up = true
may_work State.starting = true
may_work State.running = true
may_work _ = false

pub record IsSafe (m : ControlMachine) : Type 0 where
  pub works : is_working m.world.history ≡ true → may_work m.state ≡ true

module _ (env : Environment) where
  process_event-IsSafe :
      (s : State) (e : Event) (w : World Fields Event)
      → IsSafe (record { state = s; world = w })
      → Holds IsSafe (process_event (transitions env) e (record { state = s; world = w }))
  unfolding process_event transitions switch_on switch_off handle_error start_heating start_machine
      check_starting_state stop_machine check_stopping_state notify_stopped
  process_event-IsSafe s e w h = ground arith

  queue_of_IsSafe : (m : ControlMachine) (q : EventQueue Event) → IsSafe m → IsSafe (with_queue m q)
  queue_of_IsSafe m q h = record { works = h.works }

  step-IsSafe : (i : Input) (m : ControlMachine) → IsSafe m → IsSafe (step env i m)
  unfolding step handle_event_message on_merger_feeding_running on_merger_feeding_stopped
      on_coil_running on_coil_stopped on_request_increase_motor_speed
      on_request_decrease_motor_speed broadcast_speed
  step-IsSafe (event_message message event) m h = ground arith
  step-IsSafe (merger_running_notification message) m h = ground arith
  step-IsSafe (merger_stopped_notification message) m h = ground arith
  step-IsSafe (coil_running_notification message) m h = ground arith
  step-IsSafe (coil_stopped_notification message) m h = ground arith
  step-IsSafe (increase_speed_request message) m h = ground arith
  step-IsSafe (decrease_speed_request message) m h = ground arith
  step-IsSafe event_round m h =
      process_next_event-keeps (transitions env) IsSafe queue_of_IsSafe
        (λ e k. process_event-IsSafe k.state e k.world) [] m h

  -- Whatever the environment answers and in whatever order messages and event rounds come: of the
  -- requests to heat, to start and to stop feeding and to switch off that the machine control sent
  -- to the merger control, the last is to heat or to start feeding only in the states HeatingUp,
  -- Starting and Running.
  pub machine_run-IsSafe :
      (config : Config) (is : List Input) → IsSafe (run (step env) is (init config))
  machine_run-IsSafe config is =
      run_inv (step env) IsSafe step-IsSafe is (init config) (unfold init in ground arith)
