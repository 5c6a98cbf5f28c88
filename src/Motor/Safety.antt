-- ===== src/Motor/Safety.antt =====
-- The motor's rotation over the whole life of a motor component.
use sugo_machine_application.Prelude.{◌≡◌, ◌⊎◌, Bool, true, false, List, [], ◌∷◌, arith, ℕ}
use sugo_machine_application.Framework.EventQueue.{EventQueue}
use sugo_machine_application.Framework.Message.{missing, empty_value, given}
use sugo_machine_application.Framework.World.{
  World, Environment, Effect, called, motor_rotate, motor_stop,
}
use sugo_machine_application.Framework.StateMachine.{process_event, with_queue}
use sugo_machine_application.Framework.Stated.{run, run_inv}
use sugo_machine_application.Framework.Stated.Preserve.{Holds, process_next_event-keeps}
use sugo_machine_application.Motor.Diagram.{State, Event, state_numbers, event_numbers}
use sugo_machine_application.Motor.{
  Fields, MotorMachine, Input, switch_on_request, switch_off_request, start_motor_request,
  stop_motor_request, set_motor_speed_request, increase_offset_request, decrease_offset_request,
  event_round, init, step, transitions,
}

-- The motor was told to rotate and not to stop since.
abbrev pub is_rotating : List Effect → Bool
is_rotating [] = false
is_rotating (called motor_rotate ∷ h) = true
is_rotating (called (motor_stop immediately) ∷ h) = false
is_rotating (_ ∷ h) = is_rotating h

-- A motor may turn only while it is starting or running.
pub record IsSafe (m : MotorMachine) : Type 0 where
  pub turns_when_running :
      is_rotating m.world.history ≡ true → (m.state ≡ State.starting) ⊎ (m.state ≡ State.running)

module _ (env : Environment) where
  process_event-IsSafe :
      (s : State) (e : Event) (w : World Fields Event)
      → IsSafe (record { state = s; world = w })
      → Holds IsSafe (process_event (transitions env) e (record { state = s; world = w }))
  unfolding process_event transitions
  process_event-IsSafe State.off Event.switch_on w h = ground arith
  process_event-IsSafe _ _ w h = ground arith

  queue_of_IsSafe : (m : MotorMachine) (q : EventQueue Event) → IsSafe m → IsSafe (with_queue m q)
  queue_of_IsSafe m q h = record { turns_when_running = h.turns_when_running }

  step-IsSafe : (i : Input) (m : MotorMachine) → IsSafe m → IsSafe (step env i m)
  unfolding step
  step-IsSafe (switch_on_request request) m h = ground arith
  step-IsSafe (switch_off_request request) m h = ground arith
  step-IsSafe (start_motor_request request) m h = ground arith
  step-IsSafe (stop_motor_request request) m h = ground arith
  step-IsSafe (set_motor_speed_request request missing) m h = h
  step-IsSafe (set_motor_speed_request request empty_value) m h = h
  step-IsSafe (set_motor_speed_request request (given speed)) m h = record {
    turns_when_running = h.turns_when_running;
  }
  step-IsSafe (increase_offset_request request) m h = record {
    turns_when_running = h.turns_when_running;
  }
  step-IsSafe (decrease_offset_request request) m h = record {
    turns_when_running = h.turns_when_running;
  }
  step-IsSafe event_round m h =
      process_next_event-keeps (transitions env) IsSafe queue_of_IsSafe
        (λ e k. process_event-IsSafe k.state e k.world) [] m h

  -- Whatever the environment answers and in whatever order requests and event rounds come, the
  -- last of the commands to rotate and to stop that the motor got is to rotate only in the states
  -- Starting and Running.
  pub motor_run-IsSafe :
      (increment max_speed : ℕ) (is : List Input)
      → IsSafe (run (step env) is (init increment max_speed))
  motor_run-IsSafe increment max_speed is =
      run_inv (step env) IsSafe step-IsSafe is (init increment max_speed)
        (unfold init in ground arith)
