-- ===== src/MachineControl/Speed.antt =====
-- The motor speed of the machine control: its requests, its bounds, and what the sender is told.
use sugo_machine_application.Prelude.{
  ℕ, ◌+◌, ◌-◌, ◌≤◌, ◌≡◌, ap, ◌∙◌, if◌then◌else◌, leb, List, [], arith,
}
use sugo_machine_application.Prelude.Int.{◌+ℤ◌, ◌-ℤ◌, clamp}
use sugo_machine_application.Framework.EventQueue.{EventQueue}
use sugo_machine_application.Framework.Message.{Message}
use sugo_machine_application.Framework.World.{World, Environment}
use sugo_machine_application.Framework.StateMachine.{process_event, with_queue}
use sugo_machine_application.Framework.Stated.{run, run_inv, handle_event_message}
use sugo_machine_application.Framework.Stated.Preserve.{Holds, process_next_event-keeps}
use sugo_machine_application.MachineControl.Diagram.{State, Event, state_numbers, event_numbers}
use sugo_machine_application.MachineControl.{
  Config, Fields, ControlMachine, Input, event_message, merger_running_notification,
  merger_stopped_notification, coil_running_notification, coil_stopped_notification,
  increase_speed_request, decrease_speed_request, event_round, init, step, transitions, switch_on,
  switch_off, handle_error, start_heating, start_machine, check_starting_state, stop_machine,
  check_stopping_state, notify_stopped, broadcast_speed, increased_speed, decreased_speed,
  on_request_increase_motor_speed, on_request_decrease_motor_speed, on_merger_feeding_running,
  on_merger_feeding_stopped, on_coil_running, on_coil_stopped,
}

abbrev min : ℕ → ℕ → ℕ
min a b = if leb a b then a else b

-- The clamped integer arithmetic, in natural numbers.
increased_speed-min :
    (f : Fields)
    → increased_speed f ≡ min (f.motor_speed + f.config.speed_increment) f.config.speed_max
unfolding increased_speed clamp ◌+ℤ◌
increased_speed-min f = ground arith

decreased_speed-min :
    (f : Fields)
    → decreased_speed f ≡ min (f.motor_speed - f.config.speed_increment) f.config.speed_max
unfolding decreased_speed clamp ◌-ℤ◌
decreased_speed-min f = ground arith

-- The configured default is within the maximum, and so is the speed.
pub record IsBounded (max_speed : ℕ) (m : ControlMachine) : Type 0 where
  pub max_kept : m.world.fields.config.speed_max ≡ max_speed
  pub default_within : m.world.fields.config.speed_default ≤ max_speed
  pub speed_within : m.world.fields.motor_speed ≤ max_speed

module _ (env : Environment) where
  broadcast_speed-fields :
      (request : Message) (n : ℕ) (w : World Fields Event)
      → (broadcast_speed env request n w).1.fields ≡ w.fields
  unfolding broadcast_speed
  broadcast_speed-fields request n w = ground arith

  -- The two speed requests set the speed to the old one plus or minus the increment, where a
  -- difference below zero is zero, cut off at the maximum, and change no other field.
  pub speed_requests_lem :
      (request : Message) (w : World Fields Event)
      → ((on_request_increase_motor_speed env request w).1.fields ≡ record (w.fields) {
        motor_speed =
            min (w.fields.motor_speed + w.fields.config.speed_increment) w.fields.config.speed_max;
      })
        × ((on_request_decrease_motor_speed env request w).1.fields ≡ record (w.fields) {
          motor_speed =
              min
                (w.fields.motor_speed - w.fields.config.speed_increment)
                w.fields.config.speed_max;
        })
  unfolding on_request_increase_motor_speed on_request_decrease_motor_speed
  speed_requests_lem request w = (
    broadcast_speed-fields request _ _
        ∙ ap (λ n. record (w.fields) { motor_speed = n }) (increased_speed-min w.fields),
    broadcast_speed-fields request _ _
        ∙ ap (λ n. record (w.fields) { motor_speed = n }) (decreased_speed-min w.fields),
  )

  process_event-IsBounded :
      (max_speed : ℕ) (s : State) (e : Event) (w : World Fields Event)
      → IsBounded max_speed (record { state = s; world = w })
      → Holds
          (IsBounded max_speed)
          (process_event (transitions env) e (record { state = s; world = w }))
  unfolding process_event transitions switch_on switch_off handle_error start_heating start_machine
      check_starting_state stop_machine check_stopping_state notify_stopped
  process_event-IsBounded max_speed s e w h = ground arith

  queue_of_IsBounded :
      (max_speed : ℕ) (m : ControlMachine) (q : EventQueue Event)
      → IsBounded max_speed m
      → IsBounded max_speed (with_queue m q)
  queue_of_IsBounded max_speed m q h = record {
    max_kept = h.max_kept;
    default_within = h.default_within;
    speed_within = h.speed_within;
  }

  step-IsBounded :
      (max_speed : ℕ) (i : Input) (m : ControlMachine)
      → IsBounded max_speed m
      → IsBounded max_speed (step env i m)
  unfolding step handle_event_message on_merger_feeding_running on_merger_feeding_stopped
      on_coil_running on_coil_stopped
  step-IsBounded n (event_message message event) m h = ground arith
  step-IsBounded n (merger_running_notification message) m h = ground arith
  step-IsBounded n (merger_stopped_notification message) m h = ground arith
  step-IsBounded n (coil_running_notification message) m h = ground arith
  step-IsBounded n (coil_stopped_notification message) m h = ground arith
  step-IsBounded n (increase_speed_request message) m h =
      ground (arith, speed_requests_lem message m.world)
  step-IsBounded n (decrease_speed_request message) m h =
      ground (arith, speed_requests_lem message m.world)
  step-IsBounded n event_round m h =
      process_next_event-keeps (transitions env) (IsBounded n) (queue_of_IsBounded n)
        (λ e k. process_event-IsBounded n k.state e k.world) [] m h

  -- If the configured default speed is within the configured maximum, then the speed stays within
  -- it, whatever the environment answers and in whatever order messages and event rounds come.
  pub run-speed-le :
      (config : Config) (is : List Input)
      → config.speed_default ≤ config.speed_max
      → (run (step env) is (init config)).world.fields.motor_speed ≤ config.speed_max
  run-speed-le config is h =
      (run_inv (step env) (IsBounded config.speed_max) (step-IsBounded config.speed_max) is
        (init config) (unfold init in ground arith)).speed_within
