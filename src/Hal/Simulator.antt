-- ===== src/Hal/Simulator.antt =====
-- The simulated heaters of the stub: Simulator
-- (libs/HardwareAbstractionLayerImpl/Stub/src/Simulator.cpp and
-- Stub/include/HardwareAbstractionLayer/Simulator.hpp). Times are those of the clock, in milliseconds;
-- the clock, which the code reads twice for a temperature, is read once. A pin drives the sensor
-- whose identifier belongs to its own; of the maps of pins and sensors this is one such pair.
use sugo_machine_application.Prelude.{
  ℕ, ◌+◌, ◌-◌, ◌*◌, ◌/◌, ◌≤◌, ◌<◌, ◌≡◌, refl, ◌∙◌, ap, Bool, true, false, ltb, if◌then◌else◌, List,
  [], ◌∷◌, arith,
}
use sugo_machine_application.Framework.World.{Level, low, high}

abbrev kelvin_per_second : ℕ
kelvin_per_second = 20

abbrev pub max_temperature : ℕ
max_temperature = 220

abbrev pub default_temperature : ℕ
default_temperature = 25

pub record Sensor : Type 0 where
  pub heating_up : Bool
  pub last_temperature_change : ℕ
  pub current_temperature : ℕ

-- A heater pin and its sensor.
pub record Heater : Type 0 where
  pub pin : Level
  pub sensor : Sensor

unfoldable pub register_temperature_sensor : ℕ → Sensor
register_temperature_sensor now = record {
  heating_up = false;
  last_temperature_change = now;
  current_temperature = default_temperature;
}

-- `registerGpioPin` for a heater's pin, which starts low.
unfoldable pub register_heater : ℕ → Heater
unfolding register_temperature_sensor
register_heater now = record { pin = low; sensor = register_temperature_sensor now }

unfoldable pub switch_heater : ℕ → Level → Sensor → Sensor
switch_heater now high s = record s { heating_up = true; last_temperature_change = now }
switch_heater now low s = record s { heating_up = false; last_temperature_change = now }

-- The action of a heater's pin: nothing happens if the level stays.
unfoldable pub on_pin : ℕ → Level → Level → Sensor → Sensor
unfolding switch_heater
on_pin now low low s = s
on_pin now high high s = s
on_pin now low high s = switch_heater now high s
on_pin now high low s = switch_heater now low s

unfoldable pub set_state : ℕ → Level → Heater → Heater
unfolding on_pin
set_state now level h = record { pin = level; sensor = on_pin now h.pin level h.sensor }

-- std::clamp of a sum and of a difference, of which the latter may be below 0.
unfoldable warmed : ℕ → ℕ → ℕ
warmed t difference =
    if ltb (t + difference) default_temperature
    then default_temperature
    else (if ltb max_temperature (t + difference) then max_temperature else t + difference)

unfoldable cooled : ℕ → ℕ → ℕ
cooled t difference =
    if ltb t (default_temperature + difference)
    then default_temperature
    else (if ltb (max_temperature + difference) t then max_temperature else t - difference)

-- `TemperatureSensor::getTemperature`: whole seconds count, and then the time starts again.
unfoldable pub get_temperature : ℕ → Sensor → Sensor
unfolding warmed cooled
get_temperature now s =
    let difference = (now - s.last_temperature_change) / 1000 * kelvin_per_second in
    record s {
      last_temperature_change = now;
      current_temperature =
          if s.heating_up
          then warmed s.current_temperature difference
          else cooled s.current_temperature difference;
    }

-- What is done to a heater, each at a time.
pub data Use : Type 0 where
  set_pin : ℕ → Level → Use
  read_sensor : ℕ → Use

unfoldable pub use_heater : Use → Heater → Heater
unfolding set_state get_temperature
use_heater (set_pin now level) h = set_state now level h
use_heater (read_sensor now) h = record h { sensor = get_temperature now h.sensor }

unfoldable pub run : List Use → Heater → Heater
unfolding use_heater
run [] h = h
run (u ∷ us) h = run us (use_heater u h)

-- The temperature lies within its bounds, and the sensor heats up exactly if the pin is high.
abbrev is_high : Level → Bool
is_high high = true
is_high low = false

pub record Consistent (h : Heater) : Type 0 where
  pub from_default : default_temperature ≤ h.sensor.current_temperature
  pub to_max : h.sensor.current_temperature ≤ max_temperature
  pub heats_by_pin : h.sensor.heating_up ≡ is_high h.pin

set_state-Consistent :
    (now : ℕ) (level pin : Level) (s : Sensor)
    → Consistent (record { pin = pin; sensor = s })
    → Consistent (set_state now level (record { pin = pin; sensor = s }))
unfolding set_state on_pin switch_heater
set_state-Consistent now low low s c = c
set_state-Consistent now high high s c = c
set_state-Consistent now high low s c = record {
  from_default = c.from_default;
  to_max = c.to_max;
  heats_by_pin = refl;
}
set_state-Consistent now low high s c = record {
  from_default = c.from_default;
  to_max = c.to_max;
  heats_by_pin = refl;
}

warmed_bounds : (t d : ℕ) → (default_temperature ≤ warmed t d) × (warmed t d ≤ max_temperature)
unfolding warmed
warmed_bounds t d = ground arith

cooled_bounds : (t d : ℕ) → (default_temperature ≤ cooled t d) × (cooled t d ≤ max_temperature)
unfolding cooled
cooled_bounds t d = ground arith

read_bounds :
    (heating : Bool) (t d : ℕ)
    → (default_temperature ≤ (if heating then warmed t d else cooled t d))
      × ((if heating then warmed t d else cooled t d) ≤ max_temperature)
read_bounds true t d = warmed_bounds t d
read_bounds false t d = cooled_bounds t d

use_heater-Consistent : (u : Use) (h : Heater) → Consistent h → Consistent (use_heater u h)
unfolding use_heater get_temperature
use_heater-Consistent (set_pin now level) h c = set_state-Consistent now level h.pin h.sensor c
use_heater-Consistent (read_sensor now) h c =
    let difference = (now - h.sensor.last_temperature_change) / 1000 * kelvin_per_second in
    let b = read_bounds h.sensor.heating_up h.sensor.current_temperature difference in
    record { from_default = b.0; to_max = b.1; heats_by_pin = c.heats_by_pin }

run-Consistent : (us : List Use) (h : Heater) → Consistent h → Consistent (run us h)
unfolding run
run-Consistent [] h c = c
run-Consistent (u ∷ us) h c = run-Consistent us (use_heater u h) (use_heater-Consistent u h c)

-- However the pin of a simulated heater is set and its sensor is read, the temperature stays between
-- 25 and 220, and the heater heats up exactly while its pin is high.
pub run-Consistent_from_start :
    (now : ℕ) (us : List Use) → Consistent (run us (register_heater now))
unfolding register_heater
run-Consistent_from_start now us =
    run-Consistent us (register_heater now)
      (record { from_default = omega arith; to_max = omega arith; heats_by_pin = refl })

-- A sequence of readings.
abbrev pub read_all : List ℕ → Sensor → Sensor
read_all [] s = s
read_all (now ∷ nows) s = read_all nows (get_temperature now s)

-- Each reading less than a second after the one before.
abbrev pub Frequent : ℕ → List ℕ → Type 0
Frequent last [] = Unit
Frequent last (now ∷ nows) = (now < last + 1000) × Frequent now nows

kept :
    (heating : Bool) (t : ℕ)
    → default_temperature ≤ t
    → t ≤ max_temperature
    → (if heating then warmed t 0 else cooled t 0) ≡ t
unfolding warmed cooled
kept true t a b = ground arith
kept false t a b = ground arith

get_temperature-soon :
    (now : ℕ) (s : Sensor)
    → now < s.last_temperature_change + 1000
    → default_temperature ≤ s.current_temperature
    → s.current_temperature ≤ max_temperature
    → (get_temperature now s).current_temperature ≡ s.current_temperature
unfolding get_temperature
get_temperature-soon now s soon a b =
    let none_passed : (now - s.last_temperature_change) / 1000 * kelvin_per_second ≡ 0 =
      omega arith in
    ap
      (λ d. if s.heating_up then warmed s.current_temperature d else cooled s.current_temperature d)
      none_passed
    ∙ kept s.heating_up s.current_temperature a b

-- A simulated heater whose temperature is read more often than once a second keeps its temperature,
-- however long it heats.
pub read_all-Frequent :
    (nows : List ℕ) (s : Sensor)
    → Frequent s.last_temperature_change nows
    → default_temperature ≤ s.current_temperature
    → s.current_temperature ≤ max_temperature
    → (read_all nows s).current_temperature ≡ s.current_temperature
unfolding get_temperature
read_all-Frequent [] s often a b = refl
read_all-Frequent (now ∷ nows) s often a b =
    let same = get_temperature-soon now s often.0 a b in
    read_all-Frequent nows (get_temperature now s) often.1 (omega (arith, same))
      (omega (arith, same))
    ∙ same
