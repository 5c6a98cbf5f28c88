-- ===== src/Hal/Stepper/Beginning.antt =====
-- The initialisation of a motor: StepperMotor::init and finalize
-- (libs/HardwareAbstractionLayerImpl/Rpi/src/StepperMotor.cpp) with TicController::init
-- (Rpi/src/TicController.cpp).
use sugo_machine_application.Prelude.{◌≡◌, List, ◌∷◌}
use sugo_machine_application.Framework.World.{low}
use sugo_machine_application.Hal.Bus.{
  Bus, BusCall, HalAction, BusPin, reset_pin, get_value, set_value, level_of_value, pure,
}
use sugo_machine_application.Hal.Bus
use sugo_machine_application.Hal.Tic.Startup
use sugo_machine_application.Hal.Tic.Started.{Started}

-- The reset pin holds the controller off: it was last read as low, or it was last set to low.
pub data TurnedOff (bus : Bus) : List BusCall → Type 0 where
  read_low :
      (h : List BusCall)
      → level_of_value (bus.pin_value h reset_pin) ≡ low
      → TurnedOff bus (get_value reset_pin ∷ h)
  set_low : (h : List BusCall) → TurnedOff bus (get_value reset_pin ∷ set_value reset_pin 0 ∷ h)
