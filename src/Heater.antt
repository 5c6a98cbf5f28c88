-- ===== src/Heater.antt =====
-- The heaters: FilamentMergerHeater and FilamentPreHeater
-- (libs/MachineServiceComponent/src/FilamentMergerHeater.cpp and FilamentPreHeater.cpp, whose code
-- is the same up to the pin and the sensor) over HeaterService
-- (libs/MachineServiceComponent/src/HeaterService.cpp), and the transitions of `_BaseHeater` in
-- libs/MachineServiceComponent/conf/MachineServiceComponent.yaml.
pub mod Diagram
pub mod Transitions
pub mod Safety
pub mod Hysteresis
pub mod Stale
pub mod Fault
use sugo_machine_application.Prelude.{
  ℕ, Bool, true, false, if◌then◌else◌, List, [], ◌∷◌, Option, none, some,
}
use sugo_machine_application.Prelude.Int.{ℤ, pos, negsuc, leb_ℤ, eqb_ℤ}
use sugo_machine_application.Framework.EventQueue.{empty_queue, default_queue_size}
use sugo_machine_application.Framework.Message.{
  Message, Response, NotificationTopic, notify_target_temperature_range_left,
  notify_target_temperature_range_reached, notify_error_occurred, temperature,
  create_success_response,
}
use sugo_machine_application.Framework.World.{
  World, when, Action, Environment, Level, low, high, Pin, heater_pin, Observer, temperature_timer,
  set_pin, start_observer, stop_observer, push, notify, call, ◌>>=◌, ◌>>◌, skip, pure, get_fields,
}
use sugo_machine_application.Framework.StateMachine.{
  Transition, Machine, row, process_next_event, after,
}
use sugo_machine_application.Framework.Stated.{handle_event_message, on_world, run}
use Diagram.{State, Event, state_numbers, event_numbers}

pub record Config : Type 0 where
  pub temperature_max : ℤ
  pub temperature_min : ℤ

pub record Fields : Type 0 where
  pub config : Config
  pub current_temperature : ℤ
  pub last_checked_temperature : ℤ

pub data TemperatureLimit : Type 0 where
  max_temperature_reached min_temperature_reached : TemperatureLimit

abbrev pub HeaterAction : Type 0 → Type 0
HeaterAction A = Action Fields Event A

abbrev pub HeaterMachine : Type 0
HeaterMachine = Machine State Fields Event

-- std::numeric_limits<int32_t>::min().
abbrev pub temperature_lowest : ℤ
temperature_lowest = negsuc 2147483647

unfoldable pub init : Config → HeaterMachine
unfolding empty_queue
init config = record {
  state = State.off;
  world = record {
    fields = record {
      config = config;
      current_temperature = pos 0;
      last_checked_temperature = temperature_lowest;
    };
    queue = empty_queue default_queue_size;
    history = [];
  };
}

-- `FilamentMergerHeater::onTemperatureLimitEvent`.
unfoldable pub on_temperature_limit_event : TemperatureLimit → HeaterAction (Unit {0})
unfolding push
on_temperature_limit_event min_temperature_reached = push Event.min_temperature_reached
on_temperature_limit_event max_temperature_reached = push Event.max_temperature_reached

-- The limit that the current temperature has reached, if any.
unfoldable pub reached_limit : Fields → Option TemperatureLimit
reached_limit f =
    if leb_ℤ f.config.temperature_max f.current_temperature
    then some max_temperature_reached
    else (if leb_ℤ f.current_temperature f.config.temperature_min
        then some min_temperature_reached
        else none)

abbrev remember : HeaterAction (Unit {0})
remember w = (
  tt,
  record w {
    fields = record (w.fields) { last_checked_temperature = w.fields.current_temperature };
  },
)

-- What the handler does once it has compared the last checked temperature with the new one.
unfoldable pub check : Bool → Option TemperatureLimit → HeaterAction (Unit {0})
unfolding on_temperature_limit_event
check true limit = skip
check false none = remember
check false (some limit) = on_temperature_limit_event limit >> remember

-- A request that changes nothing.
unfoldable pub on_request_get_temperature : Message → HeaterMachine → Response
unfolding create_success_response
on_request_get_temperature request m =
    create_success_response request (temperature m.world.fields.current_temperature)

abbrev pub is_min_temperature_reached : Event → Bool
is_min_temperature_reached Event.min_temperature_reached = true
is_min_temperature_reached _ = false

abbrev pub is_max_temperature_reached : Event → Bool
is_max_temperature_reached Event.max_temperature_reached = true
is_max_temperature_reached _ = false

-- What can happen to a heater: a request, a tick of the timer, a round of the event thread.
pub data Input : Type 0 where
  switch_on_request : Message → Input
  switch_off_request : Message → Input
  timer_tick : Input
  event_round : Input

module _ (env : Environment) where
  -- HeaterService

  unfoldable pub switch_heater : Bool → HeaterAction Bool
  unfolding call
  switch_heater on = call env (set_pin heater_pin (if on then high else low))

  unfoldable pub update_heater_temperature : HeaterAction (Unit {0})
  update_heater_temperature w =
      (tt, record w { fields = record (w.fields) { current_temperature = env.sensor w.history } })

  -- The handler of the observation timer.
  unfoldable pub update_heater_temperature_and_check : HeaterAction (Unit {0})
  unfolding update_heater_temperature reached_limit check
  update_heater_temperature_and_check = do
    update_heater_temperature
    f ← get_fields
    check (eqb_ℤ f.last_checked_temperature f.current_temperature) (reached_limit f)

  unfoldable pub start_temperature_observation : HeaterAction Bool
  unfolding call
  start_temperature_observation = call env (start_observer temperature_timer)

  unfoldable pub stop_temperature_observation : HeaterAction (Unit {0})
  unfolding call
  stop_temperature_observation = do _ ← call env (stop_observer temperature_timer); skip

  -- Transition actions

  unfoldable pub switch_on : Event → State → HeaterAction (Unit {0})
  unfolding update_heater_temperature start_temperature_observation push
  switch_on _ _ = do
    update_heater_temperature
    started ← start_temperature_observation
    if started then push Event.switch_on_succeeded else push Event.error_occurred

  unfoldable pub start_heating : Event → State → HeaterAction (Unit {0})
  unfolding switch_heater push notify
  start_heating event _ = do
    switched ← switch_heater true
    if switched
        then when (is_min_temperature_reached event) (notify notify_target_temperature_range_left)
        else push Event.error_occurred

  unfoldable pub stop_heating : Event → State → HeaterAction (Unit {0})
  unfolding switch_heater push notify
  stop_heating event _ = do
    switched ← switch_heater false
    if switched
        then when (is_max_temperature_reached event)
            (notify notify_target_temperature_range_reached)
        else push Event.error_occurred

  unfoldable pub switch_off : Event → State → HeaterAction (Unit {0})
  unfolding stop_temperature_observation switch_heater push
  switch_off _ _ = do
    stop_temperature_observation
    switched ← switch_heater false
    if switched then skip else push Event.error_occurred

  unfoldable pub handle_error : Event → State → HeaterAction (Unit {0})
  unfolding switch_heater notify
  handle_error _ _ = do _ ← switch_heater false; notify notify_error_occurred

  -- The generated table; a pattern over the states stands for a row of each state that it matches.
  unfoldable pub transitions : List (Transition State Fields Event)
  unfolding switch_on start_heating stop_heating switch_off handle_error
  transitions =
      row State.off State.initialization Event.switch_on (some switch_on)
      ∷ row State.initialization State.off Event.switch_off (some switch_off)
      ∷ row State.heating_on State.off Event.switch_off (some switch_off)
      ∷ row State.heating_off State.off Event.switch_off (some switch_off)
      ∷ row State.error State.off Event.switch_off (some switch_off)
      ∷ row State.off State.off Event.switch_off none
      ∷ row State.off State.error Event.error_occurred (some handle_error)
      ∷ row State.initialization State.error Event.error_occurred (some handle_error)
      ∷ row State.heating_on State.error Event.error_occurred (some handle_error)
      ∷ row State.heating_off State.error Event.error_occurred (some handle_error)
      ∷ row State.error State.error Event.error_occurred none
      ∷ row State.initialization State.heating_on Event.switch_on_succeeded (some start_heating)
      ∷ row State.heating_on State.heating_off Event.max_temperature_reached (some stop_heating)
      ∷ row State.heating_on State.heating_on Event.min_temperature_reached none
      ∷ row State.heating_off State.heating_off Event.max_temperature_reached none
      ∷ row State.heating_off State.heating_on Event.min_temperature_reached (some start_heating)
      ∷ []

  unfoldable pub step : Input → HeaterMachine → HeaterMachine
  unfolding handle_event_message update_heater_temperature_and_check process_next_event
  step (switch_on_request request) = on_world (handle_event_message request Event.switch_on)
  step (switch_off_request request) = on_world (handle_event_message request Event.switch_off)
  step timer_tick = on_world update_heater_temperature_and_check
  step event_round = λ m. after (process_next_event transitions [] m)
