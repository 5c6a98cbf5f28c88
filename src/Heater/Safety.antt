-- ===== src/Heater/Safety.antt =====
-- The heater relay and the observation timer over the whole life of a heater.
use sugo_machine_application.Prelude.{
  ◌≡◌, refl, Bool, true, false, List, [], ◌∷◌, Option, none, some, arith,
}
use sugo_machine_application.Framework.EventQueue.{EventQueue}
use sugo_machine_application.Framework.World.{
  World, Environment, Effect, low, high, heater_pin, temperature_timer, called, set_pin,
  start_observer, stop_observer,
}
use sugo_machine_application.Framework.StateMachine.{process_event, with_queue}
use sugo_machine_application.Framework.Stated.{run, run_inv}
use sugo_machine_application.Framework.Stated.Preserve.{Holds, process_next_event-keeps}
use sugo_machine_application.Heater.Diagram.{State, Event, state_numbers, event_numbers}
use sugo_machine_application.Heater.{
  Config, Fields, HeaterMachine, Input, switch_on_request, switch_off_request, timer_tick,
  event_round, init, step, transitions, check, TemperatureLimit, max_temperature_reached,
  min_temperature_reached, update_heater_temperature_and_check,
}

-- The last command to the relay was to switch it on.
abbrev pub is_heating : List Effect → Bool
is_heating [] = false
is_heating (called (set_pin heater_pin high) ∷ h) = true
is_heating (called (set_pin heater_pin low) ∷ h) = false
is_heating (_ ∷ h) = is_heating h

-- The timer was started and not stopped since.
abbrev pub is_observing : List Effect → Bool
is_observing [] = false
is_observing (called (start_observer temperature_timer) ∷ h) = true
is_observing (called (stop_observer temperature_timer) ∷ h) = false
is_observing (_ ∷ h) = is_observing h

-- Each start of the timer found it stopped, as `Timer::start` asserts.
abbrev pub NeverRestarted : List Effect → Type 0
NeverRestarted [] = Unit
NeverRestarted (called (start_observer temperature_timer) ∷ h) =
    (is_observing h ≡ false) × NeverRestarted h
NeverRestarted (_ ∷ h) = NeverRestarted h

pub record IsSafe (m : HeaterMachine) : Type 0 where
  pub heats_when_on : is_heating m.world.history ≡ true → m.state ≡ State.heating_on
  pub off_unobserved : m.state ≡ State.off → is_observing m.world.history ≡ false
  pub never_restarted : NeverRestarted m.world.history

-- A check of the temperature makes no call.
check-history :
    (unchanged : Bool) (limit : Option TemperatureLimit) (w : World Fields Event)
    → (check unchanged limit w).1.history ≡ w.history
unfolding check
check-history true limit w = refl
check-history false none w = refl
check-history false (some max_temperature_reached) w = refl
check-history false (some min_temperature_reached) w = refl

module _ (env : Environment) where
  process_event-IsSafe :
      (s : State) (e : Event) (w : World Fields Event)
      → IsSafe (record { state = s; world = w })
      → Holds IsSafe (process_event (transitions env) e (record { state = s; world = w }))
  unfolding process_event transitions
  process_event-IsSafe State.off Event.switch_on w h = ground arith
  process_event-IsSafe _ _ w h = ground arith

  queue_of_IsSafe : (m : HeaterMachine) (q : EventQueue Event) → IsSafe m → IsSafe (with_queue m q)
  queue_of_IsSafe m q h = record {
    heats_when_on = h.heats_when_on;
    off_unobserved = h.off_unobserved;
    never_restarted = h.never_restarted;
  }

  tick-history :
      (w : World Fields Event) → (update_heater_temperature_and_check env w).1.history ≡ w.history
  unfolding update_heater_temperature_and_check
  tick-history w = check-history _ _ _

  -- Every input keeps a heater safe.
  step-IsSafe : (i : Input) (m : HeaterMachine) → IsSafe m → IsSafe (step env i m)
  unfolding step
  step-IsSafe (switch_on_request request) m h = ground arith
  step-IsSafe (switch_off_request request) m h = ground arith
  step-IsSafe timer_tick m h = record {
    heats_when_on = rw (tick-history m.world) h.heats_when_on;
    off_unobserved = rw (tick-history m.world) h.off_unobserved;
    never_restarted = rw (tick-history m.world) h.never_restarted;
  }
  step-IsSafe event_round m h =
      process_next_event-keeps (transitions env) IsSafe queue_of_IsSafe
        (λ e k. process_event-IsSafe k.state e k.world) [] m h

  -- Whatever the environment answers and in whatever order requests, timer ticks and event rounds
  -- come: the last command to the heater relay is to heat only in the state HeatingOn, in the
  -- state Off the temperature is not observed, and the observation timer is never started while
  -- it runs.
  pub heater_run-IsSafe :
      (config : Config) (is : List Input) → IsSafe (run (step env) is (init config))
  heater_run-IsSafe config is =
      run_inv (step env) IsSafe step-IsSafe is (init config) (unfold init in ground arith)
