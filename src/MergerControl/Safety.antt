-- ===== src/MergerControl/Safety.antt =====
-- The feeder motor and the heaters over the whole life of the merger control.
use sugo_machine_application.Prelude.{◌≡◌, Bool, true, false, List, [], ◌∷◌, arith}
use sugo_machine_application.Framework.EventQueue.{EventQueue}
use sugo_machine_application.Framework.Message.{
  filament_feeder_motor, filament_pre_heater, filament_merger_heater, request_start_motor,
  request_stop_motor, request_switch_on, request_switch_off,
}
use sugo_machine_application.Framework.World.{World, Environment, Effect, sent}
use sugo_machine_application.Framework.StateMachine.{process_event, with_queue}
use sugo_machine_application.Framework.Stated.{run, run_inv}
use sugo_machine_application.Framework.Stated.Preserve.{Holds, process_next_event-keeps}
use sugo_machine_application.MergerControl.Diagram.{State, Event, state_numbers, event_numbers}
use sugo_machine_application.MergerControl.{
  Fields, MergerMachine, Input, event_message, pre_heater_reached_notification,
  merger_heater_reached_notification, get_temperature_request, set_motor_speed_request, event_round,
  init, step, transitions, switch_on, switch_off, handle_error, stop_merger, start_motor,
  notify_running, notify_heated_up, heating_up,
}

-- The last command to the feeder motor, of those to start, stop and switch off, was to start.
abbrev pub is_feeding : List Effect → Bool
is_feeding [] = false
is_feeding (sent filament_feeder_motor request_start_motor p ∷ h) = true
is_feeding (sent filament_feeder_motor request_stop_motor p ∷ h) = false
is_feeding (sent filament_feeder_motor request_switch_off p ∷ h) = false
is_feeding (_ ∷ h) = is_feeding h

-- The last command to a heater was to switch on.
abbrev pub is_pre_heating : List Effect → Bool
is_pre_heating [] = false
is_pre_heating (sent filament_pre_heater request_switch_on p ∷ h) = true
is_pre_heating (sent filament_pre_heater request_switch_off p ∷ h) = false
is_pre_heating (_ ∷ h) = is_pre_heating h

abbrev pub is_merger_heating : List Effect → Bool
is_merger_heating [] = false
is_merger_heating (sent filament_merger_heater request_switch_on p ∷ h) = true
is_merger_heating (sent filament_merger_heater request_switch_off p ∷ h) = false
is_merger_heating (_ ∷ h) = is_merger_heating h

-- The states in which the feeder motor may turn, and those in which a heater may heat.
abbrev pub may_feed : State → Bool
may_feed State.starting_motor = true
may_feed State.running = true
may_feed _ = false

abbrev pub may_heat : State → Bool
may_heat State.heating_up = true
may_heat State.heated_up = true
may_heat State.starting_motor = true
may_heat State.running = true
may_heat _ = false

pub record IsSafe (m : MergerMachine) : Type 0 where
  pub feeds : is_feeding m.world.history ≡ true → may_feed m.state ≡ true
  pub pre_heats : is_pre_heating m.world.history ≡ true → may_heat m.state ≡ true
  pub merger_heats : is_merger_heating m.world.history ≡ true → may_heat m.state ≡ true

module _ (env : Environment) where
  process_event-IsSafe :
      (s : State) (e : Event) (w : World Fields Event)
      → IsSafe (record { state = s; world = w })
      → Holds IsSafe (process_event (transitions env) e (record { state = s; world = w }))
  unfolding process_event transitions switch_on switch_off handle_error stop_merger start_motor
      notify_running notify_heated_up heating_up
  process_event-IsSafe s e w h = ground arith

  queue_of_IsSafe : (m : MergerMachine) (q : EventQueue Event) → IsSafe m → IsSafe (with_queue m q)
  queue_of_IsSafe m q h = record {
    feeds = h.feeds;
    pre_heats = h.pre_heats;
    merger_heats = h.merger_heats;
  }

  step-IsSafe : (i : Input) (m : MergerMachine) → IsSafe m → IsSafe (step env i m)
  unfolding step
  step-IsSafe (event_message message event) m h = ground arith
  step-IsSafe (pre_heater_reached_notification message) m h = ground arith
  step-IsSafe (merger_heater_reached_notification message) m h = ground arith
  step-IsSafe (get_temperature_request request) m h = record {
    feeds = h.feeds;
    pre_heats = h.pre_heats;
    merger_heats = h.merger_heats;
  }
  step-IsSafe (set_motor_speed_request request) m h = record {
    feeds = h.feeds;
    pre_heats = h.pre_heats;
    merger_heats = h.merger_heats;
  }
  step-IsSafe event_round m h =
      process_next_event-keeps (transitions env) IsSafe queue_of_IsSafe
        (λ e k. process_event-IsSafe k.state e k.world) [] m h

  -- Whatever the environment answers and in whatever order messages and event rounds come: of the
  -- requests to start, to stop and to switch off that the merger control sent to the feeder motor
  -- the last is to start only in the states StartingMotor and Running, and of the requests to
  -- switch a heater on and off the last is to switch on only in the states HeatingUp, HeatedUp,
  -- StartingMotor and Running, for each of the two heaters.
  pub merger_run-IsSafe : (is : List Input) → IsSafe (run (step env) is init)
  merger_run-IsSafe is = run_inv (step env) IsSafe step-IsSafe is init (unfold init in ground arith)
