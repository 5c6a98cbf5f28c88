-- ===== src/Heater/Fault.antt =====
-- A heater whose sensor fails, as far as the reading goes: HeaterService::updateHeaterTemperatureAndCheck
-- (libs/MachineServiceComponent/src/HeaterService.cpp), the Max31865 driver
-- (libs/HardwareAbstractionLayerImpl/Rpi/src/Max31865.cpp) and the transition that heats.
use sugo_machine_application.Prelude.{
  ℕ, ◌≡◌, ◌≢◌, sym, subst, refl, Bool, true, false, List, [], arith, ◌<◌,
}
use sugo_machine_application.Prelude.Int.{ℤ, negsuc, leb_ℤ, eqb_ℤ, ◌≤ℤ◌, eq_of_parts}
use sugo_machine_application.Framework.World.{Environment, Effect}
use sugo_machine_application.Framework.StateMachine.{process_next_event}
use sugo_machine_application.Hal.Bus.{Bus, HalWorld}
use sugo_machine_application.Hal.Max31865.{get_temperature}
use sugo_machine_application.Hal.Max31865.Faults.{Faulty, get_temperature-Faulty}
use sugo_machine_application.Heater.Diagram.{State, state_numbers, event_numbers}
use sugo_machine_application.Heater.{
  Fields, HeaterMachine, transitions, check, reached_limit, step, timer_tick, event_round,
  update_heater_temperature_and_check,
}
use sugo_machine_application.Heater.Safety.{is_heating}

-- A heater that does not heat, with an empty queue.
abbrev pub cooling : Fields → List Effect → ℕ → HeaterMachine
cooling f h size = record {
  state = State.heating_off;
  world = record { fields = f; queue = record { events = []; max_size = size }; history = h };
}

module _ (env : Environment) (f : Fields) (h : List Effect) (size : ℕ) where
  -- A tick of the timer with a reading at the lower limit, and the round of the event thread.
  cold_tick :
      1 < size
      → eqb_ℤ f.last_checked_temperature (env.sensor h) ≡ false
      → leb_ℤ f.config.temperature_max (env.sensor h) ≡ false
      → leb_ℤ (env.sensor h) f.config.temperature_min ≡ true
      → is_heating (step env event_round (step env timer_tick (cooling f h size))).world.history
        ≡ true
  unfolding step update_heater_temperature_and_check check reached_limit process_next_event
      transitions
  cold_tick room differs warm cold = rw (differs, warm, cold) (ground arith)

  -- A heater that does not heat, with an empty queue that has room, whose sensor gives the reading of
  -- a converter whose chip-select pin was not read back as set, whose fault bit is set or whose
  -- highest bit is set: if its lower limit is at least -50 and below the upper one and the reading
  -- differs from the last checked one, then the next tick of its timer and the round of the event
  -- thread after it switch the heater on.
  pub sensor_fault_heats :
      {D : Type 0} (bus : Bus) (w : HalWorld D)
      → Faulty bus w
      → env.sensor h ≡ (get_temperature bus w).0
      → 1 < size
      → negsuc 49 ≤ℤ f.config.temperature_min
      → leb_ℤ f.config.temperature_max f.config.temperature_min ≡ false
      → f.last_checked_temperature ≢ env.sensor h
      → is_heating (step env event_round (step env timer_tick (cooling f h size))).world.history
        ≡ true
  sensor_fault_heats bus w fault reads room frost ordered differs =
      let low = get_temperature-Faulty bus w fault in
      let cold : env.sensor h ≤ℤ negsuc 49 = subst (λ t. t ≤ℤ negsuc 49) (sym reads) low in
      cold_tick room (differ f.last_checked_temperature (env.sensor h) differs)
        (ground (arith, cold)) (ground (arith, cold))
    where
      differ : (a b : ℤ) → a ≢ b → eqb_ℤ a b ≡ false
      differ a b ne = go (eqb_ℤ a b) refl
        where
          go : (e : Bool) → eqb_ℤ a b ≡ e → e ≡ false
          go false h = refl
          go true h = absurd (ne (eq_of_parts a b (ground arith)))
