-- ===== src/Heater/Stale.antt =====
-- The temperature limits that a heater in the state Error still reports to itself.
use sugo_machine_application.Prelude.{ℕ, ◌≡◌, true, false, List, [], ◌∷◌, arith, ◌<◌}
use sugo_machine_application.Prelude.Int.{leb_ℤ, eqb_ℤ}
use sugo_machine_application.Framework.World.{Environment, Effect}
use sugo_machine_application.Framework.StateMachine.{unknown_event, process_next_event}
use sugo_machine_application.Heater.Diagram.{State, Event, state_numbers, event_numbers}
use sugo_machine_application.Heater.{
  Fields, HeaterMachine, transitions, check, reached_limit, step, timer_tick,
  update_heater_temperature_and_check,
}

module _ (env : Environment) (f : Fields) (h : List Effect) (size : ℕ) where
  abbrev pub failed : HeaterMachine
  failed = record {
    state = State.error;
    world = record { fields = f; queue = record { events = []; max_size = size }; history = h };
  }

  -- A heater in the state Error with an empty queue that has room still checks its temperature at
  -- each tick of its timer. If the new reading differs from the last checked one and is at or over
  -- the upper limit, the tick pushes MaxTemperatureReached, and the next event round finds no
  -- transition for it and reports an unknown event.
  pub error_tick_lem :
      1 < size
      → eqb_ℤ f.last_checked_temperature (env.sensor h) ≡ false
      → leb_ℤ f.config.temperature_max (env.sensor h) ≡ true
      → let m = step env timer_tick failed in
        (m.world.queue.events ≡ Event.max_temperature_reached ∷ [])
        × (process_next_event (transitions env) [] m
            ≡ unknown_event Event.max_temperature_reached (record m {
              world = record (m.world) { queue = record { events = []; max_size = size } };
            }))
  unfolding step update_heater_temperature_and_check check reached_limit process_next_event
      transitions
  error_tick_lem room differs hot = rw (differs, hot) (ground arith)
