-- ===== src/Hal/Max31865.antt =====
-- The converter of the temperature sensors' resistances, on the SPI bus: Max31865
-- (libs/HardwareAbstractionLayerImpl/Rpi/src/Max31865.cpp), and TemperatureSensor::getTemperature
-- (Rpi/src/TemperatureSensor.cpp), which passes its value on.
pub mod Table
pub mod Lookup
pub mod Faults
use sugo_machine_application.Prelude.{
  ℕ, zero, suc, ◌+◌, ◌-◌, ◌*◌, ◌/◌, ◌%◌, ◌^◌, Bool, true, false, not, ◌&&◌, ◌||◌, ltb, ◌==◌,
  if◌then◌else◌, List, [], ◌∷◌, Option, none, some, length,
}
use sugo_machine_application.Prelude.Int.{ℤ, pos, negsuc, leb_ℤ, sub_ℕ}
use sugo_machine_application.Framework.World.{low, high}
use sugo_machine_application.Hal.Words.{byte_at, signed16}
use sugo_machine_application.Hal.Bus.{
  Bus, HalAction, ◌>>=◌, ◌>>◌, pure, spi_write_byte, set_state, chip_select_pin,
}
use Table.{ResistanceTemperature, resistance_to_temperature_look_up_table}

abbrev pub ref_resistance_ohm : ℕ
ref_resistance_ohm = 43000

abbrev pub factor : ℕ
factor = 32768

abbrev config_register : ℕ
config_register = 0

abbrev rtd_msb_register : ℕ
rtd_msb_register = 1

abbrev fault_status_register : ℕ
fault_status_register = 7

-- ConfigRegisterBias | ConfigRegisterConversionModeAuto, and with ConfigRegisterFaultStatusClear.
abbrev pub bias_and_auto : ℕ
bias_and_auto = 0xC0

abbrev pub bias_auto_and_clear : ℕ
bias_auto_and_clear = 0xC2

-- The first entry whose resistance is not below the measured one: std::find_if.
unfoldable pub look_up : List ResistanceTemperature → ℤ → Option ℤ
look_up [] resistance = none
look_up (entry ∷ table) resistance =
    let rest = look_up table resistance in
    if leb_ℤ resistance (pos entry.resistance) then some entry.temperature else rest

-- The two registers as an int16_t, shifted right by 1, which keeps the sign.
unfoldable pub adc_code : ℕ → ℕ → ℤ
unfolding signed16
adc_code msb lsb = elim (signed16 (lsb + 256 * msb)) [
  | pos n ↦ pos (n / 2)
  | negsuc n ↦ negsuc (n / 2)
]

-- The resistance of a code: the quotient rounds towards 0.
unfoldable pub resistance_of : ℤ → ℤ
resistance_of (pos code) = pos ((code * ref_resistance_ohm + factor / 2) / factor)
resistance_of (negsuc n) = sub_ℕ 0 (((n + 1) * ref_resistance_ohm - factor / 2) / factor)

-- std::numeric_limits<int16_t>::max() and min().
abbrev pub temperature_highest : ℤ
temperature_highest = pos 32767

abbrev pub temperature_lowest : ℤ
temperature_lowest = negsuc 32767

abbrev pub or_highest : Option ℤ → ℤ
or_highest none = temperature_highest
or_highest (some t) = t

unfoldable pub temperature_of_code : ℤ → ℤ
unfolding look_up resistance_of resistance_to_temperature_look_up_table
temperature_of_code code =
    or_highest (look_up resistance_to_temperature_look_up_table (resistance_of code))

-- What `getTemperature` makes of the two registers: the lowest bit is the fault bit.
unfoldable pub temperature_of_registers : ℕ → ℕ → ℤ
unfolding adc_code temperature_of_code
temperature_of_registers msb lsb =
    if not (lsb % 2 == 0) then temperature_lowest else temperature_of_code (adc_code msb lsb)

-- The test of the registers in `init`.
unfoldable pub is_configured : List ℕ → Bool
unfolding byte_at
is_configured registers =
    if not (byte_at registers config_register == bias_and_auto)
    then false
    else byte_at registers fault_status_register == 0

module _ {D : Type 0} (bus : Bus) where
  -- `m_spi.readByte()`, as often as the buffer is long.
  unfoldable pub read_bytes : ℕ → HalAction D (List ℕ)
  unfolding spi_write_byte
  read_bytes zero = pure []
  read_bytes (suc n) =
      spi_write_byte bus 0 >>= λ byte. read_bytes n >>= λ bytes. pure (byte ∷ bytes)

  unfoldable pub write_bytes : List ℕ → HalAction D (Unit {0})
  unfolding spi_write_byte
  write_bytes [] = pure tt
  write_bytes (byte ∷ bytes) = spi_write_byte bus byte >> write_bytes bytes

  -- `readSpiData`, after the chip was selected or not; the buffer that is passed in stays as it is
  -- if it was not.
  unfoldable pub read_selected : ℕ → List ℕ → Bool → HalAction D (Bool × List ℕ)
  unfolding spi_write_byte read_bytes set_state
  read_selected start_register read_data false = pure (false, read_data)
  read_selected start_register read_data true =
      spi_write_byte bus start_register >> read_bytes (length read_data) >>= λ bytes.
      set_state bus chip_select_pin low >>= λ released. pure (released, bytes)

  unfoldable pub read_spi_data : ℕ → List ℕ → HalAction D (Bool × List ℕ)
  unfolding set_state read_selected
  read_spi_data start_register read_data =
      set_state bus chip_select_pin high >>= read_selected start_register read_data

  -- `writeSpiRegister`; the write mask is the highest bit, which no register has.
  unfoldable pub write_selected : ℕ → List ℕ → Bool → HalAction D Bool
  unfolding spi_write_byte write_bytes set_state
  write_selected start_register write_data false = pure false
  write_selected start_register write_data true =
      spi_write_byte bus (start_register + 0x80)
      >> write_bytes write_data
      >> set_state bus chip_select_pin low

  unfoldable pub write_spi_register : ℕ → List ℕ → HalAction D Bool
  unfolding set_state write_selected
  write_spi_register start_register write_data =
      set_state bus chip_select_pin high >>= write_selected start_register write_data

  unfoldable pub init : HalAction D Bool
  unfolding write_spi_register read_spi_data is_configured
  init = write_spi_register config_register (bias_auto_and_clear ∷ []) >>= λ written.
      if not written
      then pure false
      else read_spi_data config_register (0 ∷ 0 ∷ 0 ∷ 0 ∷ 0 ∷ 0 ∷ 0 ∷ 0 ∷ []) >>= λ answer.
          pure (if not answer.0 then false else is_configured answer.1)

  -- `reset()` of the class is its `init`.
  unfoldable pub reset : HalAction D Bool
  unfolding init
  reset = init

  -- `getTemperature`: whether the registers could be read is not looked at.
  unfoldable pub get_temperature : HalAction D ℤ
  unfolding read_spi_data byte_at temperature_of_registers
  get_temperature = read_spi_data rtd_msb_register (0 ∷ 0 ∷ []) >>= λ answer.
      pure (temperature_of_registers (byte_at answer.1 0) (byte_at answer.1 1))
