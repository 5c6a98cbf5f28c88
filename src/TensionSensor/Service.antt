-- ===== src/TensionSensor/Service.antt =====
-- FilamentTensionSensorService (libs/MachineServiceComponent/src/FilamentTensionSensorService.cpp)
-- and the observers of libs/MachineServiceComponent/src/GpioPinEventObserver.cpp.
use sugo_machine_application.Prelude.{ℕ, Bool, true, false, not, if◌then◌else◌, ◌==◌, []}
use sugo_machine_application.Framework.EventQueue.{empty_queue, default_queue_size}
use sugo_machine_application.Framework.Message.{
  notify_tension_too_low, notify_tension_too_high, notify_tension_overloaded,
}
use sugo_machine_application.Framework.World.{
  Action, Environment, Observer, low_tension_observer, high_tension_observer,
  tension_overload_observer, tension_repeat_timer, start_observer, stop_observer, notify, call,
  ◌>>=◌, ◌>>◌, skip, pure, get_fields, set_fields, when,
}
use sugo_machine_application.Framework.StateMachine.{Machine}
use sugo_machine_application.TensionSensor.Diagram.{State, Event, state_numbers, event_numbers}

-- `FilamentTensionEvent`.
pub data Tension : Type 0 where
  tension_low tension_normal tension_high tension_overload : Tension

-- `IGpioPin::EventType`.
pub data EventType : Type 0 where
  rising_edge falling_edge timeout : EventType

-- The three sensor pins, by the observer that watches them.
pub data SensorPin : Type 0 where
  low_pin high_pin overload_pin : SensorPin

-- Whether the threads of the observers and of the timer run is part of the state.
pub record Fields : Type 0 where
  pub last_tension : Tension
  pub low_running : Bool
  pub high_running : Bool
  pub overload_running : Bool
  pub timer_running : Bool

abbrev pub SensorAction : Type 0 → Type 0
SensorAction A = Action Fields Event A

abbrev pub SensorMachine : Type 0
SensorMachine = Machine State Fields Event

unfoldable pub init : SensorMachine
unfolding empty_queue
init = record {
  state = State.off;
  world = record {
    fields = record {
      last_tension = tension_normal;
      low_running = false;
      high_running = false;
      overload_running = false;
      timer_running = false;
    };
    queue = empty_queue default_queue_size;
    history = [];
  };
}

abbrev pub tension_number : Tension → ℕ
tension_number tension_low = 0
tension_number tension_normal = 1
tension_number tension_high = 2
tension_number tension_overload = 3

abbrev pub is_normal : Tension → Bool
is_normal t = tension_number t == 1

abbrev set_running : Observer → Bool → Fields → Fields
set_running low_tension_observer b f = record f { low_running = b }
set_running high_tension_observer b f = record f { high_running = b }
set_running tension_overload_observer b f = record f { overload_running = b }
set_running tension_repeat_timer b f = record f { timer_running = b }
set_running _ b f = f

abbrev pub runs : Observer → Fields → Bool
runs low_tension_observer f = f.low_running
runs high_tension_observer f = f.high_running
runs tension_overload_observer f = f.overload_running
runs tension_repeat_timer f = f.timer_running
runs _ f = false

-- `FilamentTensionSensor::onFilamentTensionEvent`.
unfoldable pub on_filament_tension_event : Tension → SensorAction (Unit {0})
unfolding notify
on_filament_tension_event tension_low = notify notify_tension_too_low
on_filament_tension_event tension_high = notify notify_tension_too_high
on_filament_tension_event tension_overload = notify notify_tension_overloaded
on_filament_tension_event tension_normal = skip

-- The tension that an edge of a pin stands for, given the last one: the switch of
-- `handleFilamentTensionEvent`.
unfoldable pub current_tension : EventType → SensorPin → Tension → Tension
current_tension rising_edge overload_pin last = tension_overload
current_tension rising_edge low_pin last = tension_low
current_tension rising_edge high_pin last = tension_high
current_tension falling_edge overload_pin last = tension_high
current_tension falling_edge low_pin last = tension_normal
current_tension falling_edge high_pin last = tension_normal
current_tension timeout pin last = last

-- `repeatFilamentTensionEvent`, the handler of the repeat timer.
unfoldable pub repeat_filament_tension_event : SensorAction (Unit {0})
unfolding on_filament_tension_event
repeat_filament_tension_event = do f ← get_fields; repeat f.last_tension
  where
    repeat : Tension → SensorAction (Unit {0})
    repeat tension_low = on_filament_tension_event tension_low
    repeat tension_high = on_filament_tension_event tension_high
    repeat tension_normal = skip
    repeat tension_overload = skip

module _ (env : Environment) where
  -- The thread of an observer is there after its start, whatever the start returns.
  unfoldable pub start_observing : Observer → SensorAction Bool
  unfolding call
  start_observing o = do
    started ← call env (start_observer o)
    f ← get_fields
    set_fields (set_running o true f)
    pure started

  -- A thread that does not run is not stopped.
  unfoldable pub stop_observing : Observer → SensorAction (Unit {0})
  unfolding call
  stop_observing o = do
    f ← get_fields
    when (runs o f) (do _ ← call env (stop_observer o); set_fields (set_running o false f))

  -- FilamentTensionSensorService

  unfoldable pub start_sensor_observation : SensorAction Bool
  unfolding start_observing stop_observing
  start_sensor_observation = do
    f ← get_fields
    set_fields (record f { last_tension = tension_normal })
    low_started ← start_observing low_tension_observer
    if low_started
        then (do
          high_started ← start_observing high_tension_observer
          if high_started
              then (do
                overload_started ← start_observing tension_overload_observer
                if overload_started then pure true else (do
                  stop_observing low_tension_observer
                  stop_observing high_tension_observer
                  pure false))
              else (do stop_observing low_tension_observer; pure false))
        else pure false

  unfoldable pub stop_sensor_observation : SensorAction (Unit {0})
  unfolding stop_observing
  stop_sensor_observation = do
    stop_observing low_tension_observer
    stop_observing high_tension_observer
    stop_observing tension_overload_observer
    stop_observing tension_repeat_timer

  -- The part of `handleFilamentTensionEvent` after the switch.
  unfoldable pub change_tension : Tension → SensorAction (Unit {0})
  unfolding on_filament_tension_event start_observing stop_observing
  change_tension current = do
    f ← get_fields
    when (not (tension_number current == tension_number f.last_tension)) (do
      set_fields (record f { last_tension = current })
      on_filament_tension_event current
      if is_normal current
          then stop_observing tension_repeat_timer
          else when (not f.timer_running) (do _ ← start_observing tension_repeat_timer; skip))

  unfoldable pub handle_filament_tension_event : EventType → SensorPin → SensorAction (Unit {0})
  unfolding current_tension change_tension
  handle_filament_tension_event type pin = do
    f ← get_fields
    change_tension (current_tension type pin f.last_tension)
