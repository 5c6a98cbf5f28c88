-- ===== src/Hal/I2c.antt =====
-- The device file of the I2C bus: I2cControl::init and I2cControl::finalize
-- (libs/HardwareAbstractionLayerImpl/Rpi/src/I2cControl.cpp).
use sugo_machine_application.Prelude.{ℕ, ◌+◌, ◌≡◌, Bool, true, false, List, [], ◌∷◌}
use sugo_machine_application.Prelude.Int.{ℤ, pos, negsuc, eqb_ℤ}
use sugo_machine_application.Hal.Bus.{
  Bus, BusCall, open_device, close_device, HalWorld, HalAction, ◌>>◌,
}

-- The field is m_fd.
abbrev pub DeviceAction : Type 0 → Type 0
DeviceAction A = HalAction ℤ A

abbrev pub invalid_file_descriptor : ℤ
invalid_file_descriptor = negsuc 0

abbrev close_unless : Bool → DeviceAction (Unit {0})
close_unless true w = (tt, w)
close_unless false w =
    (tt, record { fields = invalid_file_descriptor; history = close_device ∷ w.history })

unfoldable pub finalize : DeviceAction (Unit {0})
finalize w = close_unless (eqb_ℤ w.fields invalid_file_descriptor) w

-- The calls of an object, in their order.
pub data DeviceOperation : Type 0 where
  initialize shut : DeviceOperation

module _ (bus : Bus) where
  unfoldable pub open_result : DeviceAction Bool
  open_result w =
      let fd = bus.ioctl w.history open_device in
      (
        elim fd [ pos n ↦ true | negsuc n ↦ false ],
        record { fields = fd; history = open_device ∷ w.history },
      )

  -- `init`: what is still open is closed first.
  unfoldable pub init : DeviceAction Bool
  unfolding open_result finalize
  init = finalize >> open_result

  unfoldable pub run : List DeviceOperation → HalWorld ℤ → HalWorld ℤ
  unfolding init finalize
  run [] w = w
  run (initialize ∷ os) w = run os (init w).1
  run (shut ∷ os) w = run os (finalize w).1

  abbrev pub given : ℤ → ℕ
  given (pos n) = 1
  given (negsuc n) = 0

  -- How many file descriptors the kernel gave, and how many were closed.
  unfoldable pub opens : List BusCall → ℕ
  opens [] = 0
  opens (open_device ∷ h) = given (bus.ioctl h open_device) + opens h
  opens (_ ∷ h) = opens h

  unfoldable pub closes : List BusCall → ℕ
  closes [] = 0
  closes (close_device ∷ h) = 1 + closes h
  closes (_ ∷ h) = closes h

  -- The descriptors that the kernel gave are those that were closed, and the one in the field if it is
  -- one.
  abbrev pub Balanced : HalWorld ℤ → Type 0
  Balanced w = (opens w.history ≡ closes w.history + given w.fields)

  -- What open returns: a descriptor, or -1.
  abbrev pub IsDescriptor : ℤ → Type 0
  IsDescriptor (pos n) = Unit
  IsDescriptor (negsuc n) = n ≡ 0

  abbrev pub OpenAnswers : Type 0
  OpenAnswers = (h : List BusCall) → IsDescriptor (bus.ioctl h open_device)

  abbrev pub Accounted : HalWorld ℤ → Type 0
  Accounted w = Balanced w × IsDescriptor w.fields

  abbrev Shut : HalWorld ℤ → Type 0
  Shut w = Accounted w × (w.fields ≡ invalid_file_descriptor)
