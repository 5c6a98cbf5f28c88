-- ===== src/TensionSensor/Observation.antt =====
-- When the tension sensor watches its pins, and when it repeats its last event.
use sugo_machine_application.Prelude.{◌≡◌, refl, sym, Bool, true, false, not, ◌||◌, List, [], arith}
use sugo_machine_application.Framework.EventQueue.{EventQueue}
use sugo_machine_application.Framework.World.{World, Environment}
use sugo_machine_application.Framework.StateMachine.{process_event, with_queue}
use sugo_machine_application.Framework.Stated.{run, run_inv}
use sugo_machine_application.Framework.Stated.Preserve.{Holds, process_next_event-keeps}
use sugo_machine_application.TensionSensor.Diagram.{State, Event, state_numbers, event_numbers}
use sugo_machine_application.TensionSensor.{
  Fields, Tension, tension_low, tension_normal, tension_high, tension_overload, EventType,
  rising_edge, falling_edge, timeout, SensorPin, low_pin, high_pin, overload_pin, SensorMachine,
  Input, switch_on_request, switch_off_request, pin_event, timer_tick, event_round, init, is_normal,
  step, transitions, change_tension, stop_sensor_observation, start_sensor_observation, switch_on,
  switch_off, handle_error, handle_filament_tension_event, tension_number,
}

abbrev pub watches : Fields → Bool
watches f = f.low_running || f.high_running || f.overload_running

abbrev pub is_idle : State → Bool
is_idle State.off = true
is_idle State.error = true
is_idle State.initialization = false
is_idle State.running = false

pub record IsConsistent (m : SensorMachine) : Type 0 where
  pub idle_watches_nothing : is_idle m.state ≡ true → watches m.world.fields ≡ false
  pub idle_repeats_nothing : is_idle m.state ≡ true → m.world.fields.timer_running ≡ false
  pub repeats_abnormal :
      watches m.world.fields ≡ true
      → m.world.fields.timer_running ≡ not (is_normal m.world.fields.last_tension)

module _ (env : Environment) where
  -- Stopping leaves nothing running and keeps the last tension.
  stop_sensor_observation-fields :
      (w : World Fields Event)
      → (stop_sensor_observation env w).1.fields ≡ record (w.fields) {
        low_running = false;
        high_running = false;
        overload_running = false;
        timer_running = false;
      }
  unfolding stop_sensor_observation
  stop_sensor_observation-fields w = ground arith

  -- Starting sets the tension to normal and leaves the timer alone.
  start_sensor_observation-fields :
      (w : World Fields Event)
      → let f = (start_sensor_observation env w).1.fields in
        (f.last_tension ≡ tension_normal) × (f.timer_running ≡ w.fields.timer_running)
  unfolding start_sensor_observation
  start_sensor_observation-fields w = ground arith

  switch_on-fields :
      (e : Event) (s : State) (w : World Fields Event)
      → (switch_on env e s w).1.fields ≡ (start_sensor_observation env w).1.fields
  unfolding switch_on
  switch_on-fields e s w = ground arith

  handle_error-fields :
      (e : Event) (s : State) (w : World Fields Event)
      → (handle_error env e s w).1.fields ≡ (stop_sensor_observation env w).1.fields
  unfolding handle_error
  handle_error-fields e s w = ground arith

  process_event-IsConsistent :
      (s : State) (e : Event) (w : World Fields Event)
      → IsConsistent (record { state = s; world = w })
      → Holds IsConsistent (process_event (transitions env) e (record { state = s; world = w }))
  unfolding process_event transitions switch_off
  process_event-IsConsistent s e w h = ground (
    arith,
    stop_sensor_observation-fields w,
    start_sensor_observation-fields w,
    switch_on-fields e State.initialization w,
    handle_error-fields e State.error w,
  )

  queue_of_IsConsistent :
      (m : SensorMachine) (q : EventQueue Event) → IsConsistent m → IsConsistent (with_queue m q)
  queue_of_IsConsistent m q h = record {
    idle_watches_nothing = h.idle_watches_nothing;
    idle_repeats_nothing = h.idle_repeats_nothing;
    repeats_abnormal = h.repeats_abnormal;
  }

  step-IsConsistent : (i : Input) (m : SensorMachine) → IsConsistent m → IsConsistent (step env i m)
  unfolding step
  step-IsConsistent (switch_on_request request) m h = ground arith
  step-IsConsistent (switch_off_request request) m h = ground arith
  step-IsConsistent (pin_event timeout pin) m h = h
  step-IsConsistent (pin_event rising_edge pin) m h = ground arith
  step-IsConsistent (pin_event falling_edge pin) m h = ground arith
  step-IsConsistent timer_tick m h = ground arith
  step-IsConsistent event_round m h =
      process_next_event-keeps (transitions env) IsConsistent queue_of_IsConsistent
        (λ e k. process_event-IsConsistent k.state e k.world) [] m h

  -- Whatever the environment answers and in whatever order requests, edges, timer ticks and event
  -- rounds come: in the states Off and Error no pin is watched and nothing is repeated, and while
  -- a pin is watched the repeat timer runs exactly if the last tension was not normal.
  pub sensor_run-IsConsistent : (is : List Input) → IsConsistent (run (step env) is init)
  sensor_run-IsConsistent is =
      run_inv (step env) IsConsistent step-IsConsistent is init (unfold init in ground arith)

  change_tension-last :
      (t : Tension) (w : World Fields Event)
      → tension_number (change_tension env t w).1.fields.last_tension ≡ tension_number t
  unfolding change_tension
  change_tension-last t w = ground arith

  change_tension_again :
      (t : Tension) (w : World Fields Event)
      → tension_number t ≡ tension_number w.fields.last_tension
      → change_tension env t w ≡ (tt, w)
  unfolding change_tension
  change_tension_again t w h = ground arith

  twice :
      (t : Tension) (w : World Fields Event)
      → change_tension env t (change_tension env t w).1 ≡ (tt, (change_tension env t w).1)
  twice t w = change_tension_again t (change_tension env t w).1 (sym (change_tension-last t w))

  -- An edge of a pin that is reported twice in a row has no effect the second time: no field
  -- changes, no call is made and no notification is sent.
  pub handle_filament_tension_event_twice :
      (type : EventType) (pin : SensorPin) (w : World Fields Event)
      → let w' = (handle_filament_tension_event env type pin w).1 in
        handle_filament_tension_event env type pin w' ≡ (tt, w')
  unfolding handle_filament_tension_event
  handle_filament_tension_event_twice rising_edge low_pin w = twice tension_low w
  handle_filament_tension_event_twice rising_edge high_pin w = twice tension_high w
  handle_filament_tension_event_twice rising_edge overload_pin w = twice tension_overload w
  handle_filament_tension_event_twice falling_edge low_pin w = twice tension_normal w
  handle_filament_tension_event_twice falling_edge high_pin w = twice tension_normal w
  handle_filament_tension_event_twice falling_edge overload_pin w = twice tension_high w
  handle_filament_tension_event_twice timeout pin w = rw still still
    where
      still : change_tension env w.fields.last_tension w ≡ (tt, w)
      still = change_tension_again w.fields.last_tension w refl
