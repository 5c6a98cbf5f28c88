-- ===== src/Tests/Drives.antt =====
-- Runs of the heaters, of the motors and of the tension sensor.
use sugo_machine_application.Prelude.{
  ◌^◌, ◌-◌, some, ℕ, ◌≡◌, ◌≤◌, refl, true, false, [], ◌∷◌, arith,
}
use sugo_machine_application.Prelude.Int.{pos, negsuc, ◌+ℤ◌, ◌≤ℤ◌, clamp}
use sugo_machine_application.Framework.Message.{given, nothing, create_success_response}
use sugo_machine_application.Framework.World.{World, called, motor_set_speed}
use sugo_machine_application.Framework.Stated.{run}
use sugo_machine_application.Framework.StateMachine.{process_next_event, unknown_event}
use sugo_machine_application.Heater
use sugo_machine_application.Heater.{update_heater_temperature_and_check}
use sugo_machine_application.Heater.Diagram.{
  Event as HeaterEvent, state_numbers as heater_states, event_numbers as heater_events,
}
use sugo_machine_application.Heater.Safety.{IsSafe as HeaterIsSafe, heater_run-IsSafe}
use sugo_machine_application.Heater.Hysteresis.{
  Checked, update_heater_temperature_and_check-Checked,
}
use sugo_machine_application.Heater.Stale.{failed, error_tick_lem}
use sugo_machine_application.Motor
use sugo_machine_application.Motor.{
  WithinMax, resulting_speed, set_motor_speed, add_motor_offset_speed,
}
use sugo_machine_application.Motor.Diagram.{Event as MotorEvent}
use sugo_machine_application.Motor.Safety.{IsSafe as MotorIsSafe, motor_run-IsSafe}
use sugo_machine_application.Motor.Speed.{
  on_request_set_motor_speed_wraps, add_motor_offset_speed_bounds,
}
use sugo_machine_application.TensionSensor
use sugo_machine_application.TensionSensor.{
  handle_filament_tension_event, rising_edge, low_pin, tension_normal,
}
use sugo_machine_application.TensionSensor.Diagram.{
  Event as SensorEvent, state_numbers as sensor_states, event_numbers as sensor_events,
}
use sugo_machine_application.TensionSensor.Observation.{IsConsistent, sensor_run-IsConsistent}
use sugo_machine_application.Tests.{request, obedient_environment}

abbrev heater_config : Heater.Config
heater_config = record { temperature_max = pos 24; temperature_min = pos 20 }

abbrev heater_fields : Heater.Fields
heater_fields = record {
  config = heater_config;
  current_temperature = pos 22;
  last_checked_temperature = pos 22;
}

heater_IsSafe_example : HeaterIsSafe (
    run
      (Heater.step obedient_environment)
      (Heater.switch_on_request request
        ∷ Heater.event_round
        ∷ Heater.event_round
        ∷ Heater.timer_tick
        ∷ Heater.event_round
        ∷ [])
      (Heater.init heater_config))
heater_IsSafe_example = heater_run-IsSafe obedient_environment heater_config (
    Heater.switch_on_request request
    ∷ Heater.event_round
    ∷ Heater.event_round
    ∷ Heater.timer_tick
    ∷ Heater.event_round
    ∷ [])

abbrev heater_world : World Heater.Fields HeaterEvent
heater_world = record {
  fields = heater_fields;
  queue = record { events = []; max_size = 10 };
  history = [];
}

check_example :
    let w' = (update_heater_temperature_and_check obedient_environment heater_world).1 in
    (w'.fields
      ≡ record heater_fields { current_temperature = pos 25; last_checked_temperature = pos 25 })
    × Checked heater_fields (pos 25) (record { events = []; max_size = 10 }) w'.queue
    × (w'.history ≡ [])
check_example = update_heater_temperature_and_check-Checked obedient_environment heater_world

error_tick_example :
    let m =
      Heater.step obedient_environment Heater.timer_tick
        (failed obedient_environment heater_fields [] 10) in
    (m.world.queue.events ≡ HeaterEvent.max_temperature_reached ∷ [])
    × (process_next_event (Heater.transitions obedient_environment) [] m
        ≡ unknown_event HeaterEvent.max_temperature_reached (record m {
          world = record (m.world) { queue = record { events = []; max_size = 10 } };
        }))
error_tick_example = error_tick_lem obedient_environment heater_fields [] 10 (omega arith) refl refl

motor_IsSafe_example : MotorIsSafe (
    run
      (Motor.step obedient_environment)
      (Motor.switch_on_request request
        ∷ Motor.event_round
        ∷ Motor.event_round
        ∷ Motor.set_motor_speed_request request (given 30)
        ∷ Motor.start_motor_request request
        ∷ Motor.event_round
        ∷ [])
      (Motor.init 10 100))
motor_IsSafe_example = motor_run-IsSafe obedient_environment 10 100 (
    Motor.switch_on_request request
    ∷ Motor.event_round
    ∷ Motor.event_round
    ∷ Motor.set_motor_speed_request request (given 30)
    ∷ Motor.start_motor_request request
    ∷ Motor.event_round
    ∷ [])

-- A motor at speed 60 with an offset of 20, of at most 100.
abbrev motor_world : World Motor.Fields MotorEvent
motor_world = record {
  fields = record {
    speed_increment = 10;
    max_motor_speed = 100;
    motor_speed = 60;
    motor_offset_speed = pos 20;
  };
  queue = record { events = []; max_size = 10 };
  history = [];
}

add_motor_offset_speed_example :
    let w' = (add_motor_offset_speed obedient_environment (pos 50) motor_world).1 in
    (resulting_speed w'.fields
      ≡ clamp (resulting_speed motor_world.fields +ℤ pos 50) (pos 0) (pos 100))
    × (pos 0 ≤ℤ resulting_speed w'.fields)
    × WithinMax w'.fields
    × (w'.fields.motor_speed ≡ 60)
    × ((n : ℕ) × (w'.history ≡ called (motor_set_speed n) ∷ []) × (n ≤ 100))
add_motor_offset_speed_example =
    add_motor_offset_speed_bounds obedient_environment (pos 50) motor_world

-- The same motor with an offset of -60.
abbrev braked_world : World Motor.Fields MotorEvent
braked_world = record motor_world {
  fields = record (motor_world.fields) { motor_offset_speed = negsuc 59 };
}

on_request_set_motor_speed_wraps_example :
    let (answer, w') =
      Motor.on_request_set_motor_speed obedient_environment request (given 30) braked_world in
    (answer ≡ some (create_success_response request nothing))
    × (w'.history ≡ called (motor_set_speed (2 ^ 32 - 30)) ∷ [])
on_request_set_motor_speed_wraps_example =
    on_request_set_motor_speed_wraps obedient_environment request 30 59 braked_world refl
      (omega arith) (omega arith) (omega arith)

abbrev slowed_world : World Motor.Fields MotorEvent
slowed_world = record motor_world {
  fields = record (motor_world.fields) { motor_offset_speed = negsuc 9 };
}

sensor_IsConsistent_example : IsConsistent (
    run
      (TensionSensor.step obedient_environment)
      (TensionSensor.switch_on_request request
        ∷ TensionSensor.event_round
        ∷ TensionSensor.pin_event rising_edge low_pin
        ∷ TensionSensor.timer_tick
        ∷ [])
      TensionSensor.init)
sensor_IsConsistent_example = sensor_run-IsConsistent obedient_environment (
    TensionSensor.switch_on_request request
    ∷ TensionSensor.event_round
    ∷ TensionSensor.pin_event rising_edge low_pin
    ∷ TensionSensor.timer_tick
    ∷ [])

abbrev sensor_fields : TensionSensor.Fields
sensor_fields = record {
  last_tension = tension_normal;
  low_running = true;
  high_running = true;
  overload_running = true;
  timer_running = false;
}

abbrev sensor_world : World TensionSensor.Fields SensorEvent
sensor_world = record {
  fields = sensor_fields;
  queue = record { events = []; max_size = 10 };
  history = [];
}
