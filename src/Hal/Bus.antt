-- ===== src/Hal/Bus.antt =====
-- The calls that the drivers make of the kernel and of libgpiod, what those answer, and the actions
-- of the drivers on their fields and the history of the calls.
-- Code: I2cControl::read and I2cControl::write
-- (libs/HardwareAbstractionLayerImpl/Rpi/src/I2cControl.cpp), GpioPin::getState and
-- GpioPin::setState (Rpi/src/GpioPin.cpp), SpiControl::writeByte (Rpi/src/SpiControl.cpp).
use sugo_machine_application.Prelude.{
  ℕ, zero, suc, ◌+◌, ◌%◌, Bool, true, false, ◌==◌, if◌then◌else◌, List, [], ◌∷◌,
}
use sugo_machine_application.Prelude.Int.{ℤ, pos, eqb_ℤ}
use sugo_machine_application.Framework.World.{Level, low, high}

pub data BusPin : Type 0 where
  error_pin reset_pin chip_select_pin : BusPin

-- The messages of a transfer on the I2C bus: the address, and what is written or how many bytes are
-- read.
pub data I2cMessage : Type 0 where
  write_message : ℕ → List ℕ → I2cMessage
  read_message : ℕ → ℕ → I2cMessage

-- The requests of the SPI device driver that write and read its configuration.
pub data SpiRequest : Type 0 where
  write_bits_per_word read_bits_per_word write_max_speed read_max_speed write_mode : SpiRequest

pub data BusCall : Type 0 where
  i2c_transfer : List I2cMessage → BusCall
  spi_transfer : ℕ → BusCall
  open_device : BusCall
  close_device : BusCall
  spi_configure : SpiRequest → ℕ → BusCall
  set_value : BusPin → ℕ → BusCall
  get_value : BusPin → BusCall
  sleep_for : ℕ → BusCall

-- The answers, which may depend on all calls made before: the result of ioctl and of open, the bytes that a
-- transfer leaves in the read buffer, the value of a pin, and for a sleep the milliseconds that
-- have passed.
pub record Bus : Type 0 where
  pub ioctl : List BusCall → BusCall → ℤ
  pub received : List BusCall → BusCall → ℕ → ℕ
  pub pin_value : List BusCall → BusPin → ℕ
  pub elapsed : List BusCall → ℕ → ℕ

pub record HalWorld (D : Type 0) : Type 0 where
  pub fields : D
  pub history : List BusCall

abbrev pub HalAction : Type 0 → Type 0 → Type 0
HalAction D A = HalWorld D → A × HalWorld D

infixl 5 ◌>>=◌ ◌>>◌
abbrev pub ◌>>=◌ : {D A B : Type 0} → HalAction D A → (A → HalAction D B) → HalAction D B
◌>>=◌ m f w = let (a, w') = m w in f a w'

abbrev pub ◌>>◌ : {D A B : Type 0} → HalAction D A → HalAction D B → HalAction D B
m >> k = m >>= λ _. k

-- The byte buffer that a transfer has filled.
unfoldable pub buffer : (ℕ → ℕ) → ℕ → ℕ → List ℕ
buffer byte start zero = []
buffer byte start (suc n) = byte start % 256 ∷ buffer byte (start + 1) n

abbrev pub level_of_value : ℕ → Level
level_of_value value = if value == 0 then low else high

abbrev pub value_of_level : Level → ℕ
value_of_level low = 0
value_of_level high = 1

abbrev pub same_level : Level → Level → Bool
same_level low low = true
same_level high high = true
same_level low high = false
same_level high low = false

abbrev pub write_call : ℕ → List ℕ → BusCall
write_call address command = i2c_transfer (write_message address command ∷ [])

abbrev pub read_call : ℕ → List ℕ → ℕ → BusCall
read_call address command size =
    i2c_transfer (write_message address command ∷ read_message address size ∷ [])

module _ {D : Type 0} where
  abbrev pub pure : {A : Type 0} → A → HalAction D A
  pure a w = (a, w)

  -- The return of false after a failed step.
  abbrev pub unless_failed : Bool → HalAction D Bool → HalAction D Bool
  unless_failed true next = next
  unless_failed false next = pure false

  abbrev pub get_fields : HalAction D D
  get_fields w = (w.fields, w)

  abbrev pub set_fields : D → HalAction D (Unit {0})
  set_fields d w = (tt, record w { fields = d })

  abbrev pub record_call : BusCall → HalAction D (Unit {0})
  record_call c w = (tt, record w { history = c ∷ w.history })

  module _ (bus : Bus) where
    -- `I2cControl::write`: whether the one message went through.
    unfoldable pub i2c_write : ℕ → List ℕ → HalAction D Bool
    i2c_write address command w =
        let c = write_call address command in
        (eqb_ℤ (bus.ioctl w.history c) (pos 1), record w { history = c ∷ w.history })

    -- `I2cControl::read`: whether both messages went through, and the read buffer.
    unfoldable pub i2c_read : ℕ → List ℕ → ℕ → HalAction D (Bool × List ℕ)
    unfolding buffer
    i2c_read address command size w =
        let c = read_call address command size in
        (
          (eqb_ℤ (bus.ioctl w.history c) (pos 2), buffer (bus.received w.history c) 0 size),
          record w { history = c ∷ w.history },
        )

    -- `SpiControl::writeByte`: a failure is only logged; the byte is what stands in the buffer.
    unfoldable pub spi_write_byte : ℕ → HalAction D ℕ
    spi_write_byte byte w =
        let c = spi_transfer byte in
        (bus.received w.history c 0 % 256, record w { history = c ∷ w.history })

    -- `GpioPin::getState`.
    unfoldable pub get_state : BusPin → HalAction D Level
    get_state pin w = (
      level_of_value (bus.pin_value w.history pin),
      record w { history = get_value pin ∷ w.history },
    )

    -- `GpioPin::setState`: the value is read back.
    unfoldable pub set_state : BusPin → Level → HalAction D Bool
    unfolding get_state
    set_state pin level =
        record_call (set_value pin (value_of_level level)) >> get_state pin >>= λ now.
        pure (same_level level now)

    -- A sleep, and the milliseconds it took.
    unfoldable pub sleep : ℕ → HalAction D ℕ
    sleep milliseconds w = (
      bus.elapsed w.history milliseconds,
      record w { history = sleep_for milliseconds ∷ w.history },
    )
