-- ===== src/Tests/Sensors.antt =====
-- The temperature sensors on concrete buses, and a heater behind one that does not answer.
use sugo_machine_application.Prelude.{◌≡◌, ◌≢◌, refl, true, List, [], ◌∷◌, arith, some}
use sugo_machine_application.Prelude.Int.{ℤ, pos, negsuc}
use sugo_machine_application.Framework.World.{Environment}
use sugo_machine_application.Hal.Bus.{Bus, HalWorld, set_state, get_state}
use sugo_machine_application.Hal.Words.{byte_at, signed16}
use sugo_machine_application.Hal.Max31865.Table.{resistance_to_temperature_look_up_table}
use sugo_machine_application.Hal.Max31865.{
  get_temperature, read_spi_data, read_selected, temperature_of_registers, temperature_of_code,
  adc_code, look_up, resistance_of,
}
use sugo_machine_application.Hal.Max31865.Faults.{not_selected}
use sugo_machine_application.Heater.{Fields, step, timer_tick, event_round}
use sugo_machine_application.Heater.Safety.{is_heating}
use sugo_machine_application.Hal.I2c.{DeviceOperation, initialize, shut}
use sugo_machine_application.Heater.Fault.{cooling, sensor_fault_heats}
use sugo_machine_application.Tests.{accepted}

-- A code of 7630 is a resistance of 100.1 ohm.
code_7630 : temperature_of_code (pos 7630) ≡ pos 1
unfolding temperature_of_code look_up resistance_of resistance_to_temperature_look_up_table
code_7630 = refl

-- The chip-select pin never becomes high.
abbrev unselected_bus : Bus
unselected_bus = record {
  ioctl = λ h c. pos 1;
  received = λ h c i. 0;
  pin_value = λ h pin. 0;
  elapsed = λ h n. n;
}

abbrev sensor_world : HalWorld Unit
sensor_world = record { fields = tt; history = [] }

unselected_temperature : (get_temperature unselected_bus sensor_world).0 ≡ negsuc 49
unfolding get_temperature read_spi_data read_selected set_state get_state byte_at
    temperature_of_registers adc_code signed16 temperature_of_code look_up resistance_of
    resistance_to_temperature_look_up_table
unselected_temperature = refl

abbrev unselected_environment : Environment
unselected_environment = record {
  reply = λ h c t p. some accepted;
  hardware = λ h c. true;
  sensor = λ h. (get_temperature unselected_bus sensor_world).0;
}

abbrev warm_heater : Fields
warm_heater = record {
  config = record { temperature_max = pos 60; temperature_min = pos 50 };
  current_temperature = pos 61;
  last_checked_temperature = pos 61;
}

warm_not_cold : (t : ℤ) → t ≡ negsuc 49 → pos 61 ≢ t
warm_not_cold (pos n) e h = absurd (ground arith)
warm_not_cold (negsuc n) e h = absurd (ground arith)

sensor_fault_example :
    is_heating
      (step unselected_environment event_round
        (step unselected_environment timer_tick (cooling warm_heater [] 10))).world.history
    ≡ true
unfolding set_state get_state
sensor_fault_example =
    sensor_fault_heats unselected_environment warm_heater [] 10 unselected_bus sensor_world
      (not_selected refl) refl (omega arith) (omega arith) refl
      (warm_not_cold (get_temperature unselected_bus sensor_world).0 unselected_temperature)

-- A device that opens the second time it is asked to.
abbrev late_device : Bus
late_device = record {
  ioctl = λ h c. elim h [ [] ↦ negsuc 0 | _ ↦ pos 3 ];
  received = λ h c i. 0;
  pin_value = λ h pin. 0;
  elapsed = λ h n. n;
}

abbrev closed_device : HalWorld ℤ
closed_device = record { fields = negsuc 0; history = [] }

abbrev device_operations : List DeviceOperation
device_operations = initialize ∷ initialize ∷ initialize ∷ shut ∷ initialize ∷ []
