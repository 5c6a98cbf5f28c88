-- ===== src/TensionSensor.antt =====
-- FilamentTensionSensor (libs/MachineServiceComponent/src/FilamentTensionSensor.cpp) over
-- FilamentTensionSensorService (libs/MachineServiceComponent/src/FilamentTensionSensorService.cpp),
-- with the observer threads of GpioPinEventObserver
-- (libs/MachineServiceComponent/src/GpioPinEventObserver.cpp). The pins' identifiers are distinct.
pub mod Diagram
pub mod Transitions
pub mod Observation
mod Service
use sugo_machine_application.Prelude.{
  ℕ, Bool, true, false, not, if◌then◌else◌, ◌==◌, List, [], ◌∷◌, Option, none, some,
}
use sugo_machine_application.Framework.EventQueue.{empty_queue, default_queue_size}
use sugo_machine_application.Framework.Message.{
  Message, notify_tension_too_low, notify_tension_too_high, notify_tension_overloaded,
  notify_error_occurred,
}
use sugo_machine_application.Framework.World.{
  World, Action, Environment, Observer, low_tension_observer, high_tension_observer,
  tension_overload_observer, tension_repeat_timer, start_observer, stop_observer, push, notify,
  call, ◌>>=◌, ◌>>◌, skip, pure, get_fields, set_fields, when,
}
use sugo_machine_application.Framework.StateMachine.{
  Transition, Machine, row, process_next_event, after,
}
use sugo_machine_application.Framework.Stated.{handle_event_message, on_world}
use Diagram.{State, Event, state_numbers, event_numbers}
unfoldable pub use Service.*

module _ (env : Environment) where
  -- Transition actions

  unfoldable pub switch_off : Event → State → SensorAction (Unit {0})
  unfolding stop_sensor_observation
  switch_off _ _ = stop_sensor_observation env

  unfoldable pub switch_on : Event → State → SensorAction (Unit {0})
  unfolding start_sensor_observation push
  switch_on _ _ = do
    started ← start_sensor_observation env
    if started then push Event.switch_on_succeeded else push Event.switch_on_failed

  unfoldable pub handle_error : Event → State → SensorAction (Unit {0})
  unfolding stop_sensor_observation notify
  handle_error _ _ = do stop_sensor_observation env; notify notify_error_occurred

  -- The generated table; a pattern over the states stands for a row of each state that it matches.
  unfoldable pub transitions : List (Transition State Fields Event)
  transitions =
      row State.off State.initialization Event.switch_on (some switch_on)
      ∷ row State.initialization State.off Event.switch_off (some switch_off)
      ∷ row State.running State.off Event.switch_off (some switch_off)
      ∷ row State.error State.off Event.switch_off (some switch_off)
      ∷ row State.off State.off Event.switch_off none
      ∷ row State.off State.error Event.error_occurred (some handle_error)
      ∷ row State.initialization State.error Event.error_occurred (some handle_error)
      ∷ row State.running State.error Event.error_occurred (some handle_error)
      ∷ row State.error State.error Event.error_occurred none
      ∷ row State.initialization State.running Event.switch_on_succeeded none
      ∷ []

-- The observer that watches a pin.
abbrev pub watcher : SensorPin → Observer
watcher low_pin = low_tension_observer
watcher high_pin = high_tension_observer
watcher overload_pin = tension_overload_observer

-- What can happen to the sensor: a request, an edge on a pin that its observer reports, a tick of
-- the repeat timer, a round of the event thread.
pub data Input : Type 0 where
  switch_on_request switch_off_request : Message → Input
  pin_event : EventType → SensorPin → Input
  timer_tick : Input
  event_round : Input

-- The observer thread of GpioPinEventObserver: it reports what is no timeout while it runs.
unfoldable pub observe : Environment → EventType → SensorPin → SensorAction (Unit {0})
unfolding handle_filament_tension_event
observe env timeout pin = skip
observe env rising_edge pin = do
  f ← get_fields
  when (runs (watcher pin) f) (handle_filament_tension_event env rising_edge pin)
observe env falling_edge pin = do
  f ← get_fields
  when (runs (watcher pin) f) (handle_filament_tension_event env falling_edge pin)

unfoldable pub step : Environment → Input → SensorMachine → SensorMachine
unfolding handle_event_message observe repeat_filament_tension_event process_next_event
step env (switch_on_request request) = on_world (handle_event_message request Event.switch_on)
step env (switch_off_request request) = on_world (handle_event_message request Event.switch_off)
step env (pin_event type pin) = on_world (observe env type pin)
step env timer_tick =
    on_world (do f ← get_fields; when f.timer_running repeat_filament_tension_event)
step env event_round = λ m. after (process_next_event (transitions env) [] m)
