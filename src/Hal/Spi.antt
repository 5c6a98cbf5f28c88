-- ===== src/Hal/Spi.antt =====
-- The SPI device: SpiControl (libs/HardwareAbstractionLayerImpl/Rpi/src/SpiControl.cpp and
-- Rpi/include/HardwareAbstractionLayer/SpiControl.hpp). The bits of the mode are those of the
-- driver: 0 and 1 for the clock, 2 for a chip select that is active high, 3 for the lowest bit first,
-- 4 for three wires, 6 for no chip select.
pub mod Opening
use sugo_machine_application.Prelude.{
  ℕ, ◌+◌, ◌-◌, ◌/◌, ◌%◌, ◌^◌, ◌≡◌, ◌⊎◌, inl, inr, refl, Bool, true, false, not, ◌==◌, if◌then◌else◌,
  List, ◌∷◌, arith,
}
use sugo_machine_application.Prelude.Int.{ℤ, pos, negsuc, eqb_ℤ, leb_ℤ, ◌≤ℤ◌}
use sugo_machine_application.Hal.Bus.{
  Bus, BusCall, SpiRequest, write_bits_per_word, read_bits_per_word, write_max_speed,
  read_max_speed, write_mode, open_device, close_device, spi_configure, HalWorld, HalAction, ◌>>=◌,
  ◌>>◌, pure, get_fields, set_fields, record_call, unless_failed,
}

pub record Fields : Type 0 where
  pub fd : ℤ
  pub mode : ℕ
  pub bits_per_word : ℕ
  pub speed_hz : ℕ

abbrev pub invalid_file_descriptor : ℤ
invalid_file_descriptor = negsuc 0

abbrev pub SpiAction : Type 0 → Type 0
SpiAction A = HalAction Fields A

pub data SpiMode : Type 0 where
  mode0 mode1 mode2 mode3 : SpiMode

pub data SpiChipSelect : Type 0 where
  no_select select_low select_high : SpiChipSelect

pub data SpiBitOrder : Type 0 where
  lsb_first msb_first : SpiBitOrder

pub data BusMode : Type 0 where
  mode_3_wire mode_4_wire : BusMode

abbrev has_bit : ℕ → ℕ → Bool
has_bit k m = m / 2 ^ k % 2 == 1

abbrev set_bit : ℕ → ℕ → ℕ
set_bit k m = if has_bit k m then m else m + 2 ^ k

abbrev clear_bit : ℕ → ℕ → ℕ
clear_bit k m = if has_bit k m then m - 2 ^ k else m

abbrev clock_bits : SpiMode → ℕ
clock_bits mode0 = 0
clock_bits mode1 = 1
clock_bits mode2 = 2
clock_bits mode3 = 3

-- The mode with its lowest two bits replaced: `(m_mode & 0xfC) | SPI_MODE_...`, which also clears the
-- bits from 8 on.
unfoldable pub with_clock : SpiMode → ℕ → ℕ
with_clock clock m = m % 256 - m % 4 + clock_bits clock

unfoldable pub with_chip_select : SpiChipSelect → ℕ → ℕ
with_chip_select no_select m = set_bit 6 m
with_chip_select select_low m = clear_bit 6 (clear_bit 2 m)
with_chip_select select_high m = clear_bit 6 (set_bit 2 m)

unfoldable pub with_bit_order : SpiBitOrder → ℕ → ℕ
with_bit_order lsb_first m = set_bit 3 m
with_bit_order msb_first m = clear_bit 3 m

unfoldable pub with_wires : BusMode → ℕ → ℕ
with_wires mode_3_wire m = set_bit 4 m
with_wires mode_4_wire m = clear_bit 4 m

module _ (bus : Bus) where
  -- An ioctl: whether its result is not -1, and the value that it leaves in its argument.
  unfoldable pub configure : SpiRequest → ℕ → SpiAction (Bool × ℕ)
  configure request value w =
      let c = spi_configure request value in
      (
        (not (eqb_ℤ (bus.ioctl w.history c) (negsuc 0)), bus.received w.history c 0),
        record w { history = c ∷ w.history },
      )

  unfoldable pub finalize : SpiAction (Unit {0})
  finalize w =
      if eqb_ℤ w.fields.fd invalid_file_descriptor
      then (tt, record w { fields = record (w.fields) { mode = 0 } })
      else (
        tt,
        record {
          fields = record (w.fields) { mode = 0; fd = invalid_file_descriptor };
          history = close_device ∷ w.history;
        },
      )

  -- The rest of the four methods that change the mode.
  unfoldable pub change_mode : (ℕ → ℕ) → SpiAction Bool
  unfolding configure
  change_mode change = get_fields >>= λ f.
      set_fields (record f { mode = change f.mode })
      >> configure write_mode (change f.mode)
      >>= λ answer. pure answer.0

  unfoldable pub set_mode : SpiMode → SpiAction Bool
  unfolding change_mode with_clock
  set_mode clock = change_mode (with_clock clock)

  unfoldable pub set_chip_select : SpiChipSelect → SpiAction Bool
  unfolding change_mode with_chip_select
  set_chip_select select = change_mode (with_chip_select select)

  unfoldable pub set_bit_order : SpiBitOrder → SpiAction Bool
  unfolding change_mode with_bit_order
  set_bit_order order = change_mode (with_bit_order order)

  unfoldable pub set_bus_mode : BusMode → SpiAction Bool
  unfolding change_mode with_wires
  set_bus_mode wires = change_mode (with_wires wires)

  unfoldable pub set_speed : ℕ → SpiAction Bool
  unfolding configure
  set_speed speed = configure write_max_speed speed >>= λ written. unless_failed written.0 (
      configure read_max_speed speed >>= λ answer.
      unless_failed answer.0
        (get_fields >>= λ f. set_fields (record f { speed_hz = answer.1 }) >> pure true))

  -- `init` from the opened device on: a failed step closes the device.
  unfoldable pub or_close : Bool → SpiAction Bool → SpiAction Bool
  unfolding finalize
  or_close true next = next
  or_close false next = finalize >> pure false

  unfoldable pub set_up : SpiAction Bool
  unfolding set_mode set_chip_select set_bit_order set_speed or_close
  set_up = set_mode mode1 >>= λ clocked. or_close clocked (
      set_chip_select select_low >>= λ selected. or_close selected (
        set_bit_order msb_first >>= λ ordered.
        or_close ordered (set_speed 1000000 >>= λ timed. or_close timed (pure true))))

  unfoldable pub configure_words : SpiAction Bool
  unfolding configure or_close set_up
  configure_words = configure write_bits_per_word 8 >>= λ written. or_close written.0 (
      configure read_bits_per_word 8 >>= λ answer.
      or_close answer.0
        (get_fields >>= λ f. set_fields (record f { bits_per_word = answer.1 % 256 }) >> set_up))

  unfoldable pub after_open : ℤ → SpiAction Bool
  unfolding configure_words
  after_open (negsuc n) = pure false
  after_open (pos fd) = get_fields >>= λ f.
      set_fields (record f { mode = 0; bits_per_word = 0; speed_hz = 0 }) >> configure_words

  unfoldable pub open_result : SpiAction ℤ
  open_result w =
      let fd = bus.ioctl w.history open_device in
      (fd, record { fields = record (w.fields) { fd = fd }; history = open_device ∷ w.history })

  unfoldable pub init : SpiAction Bool
  unfolding open_result after_open
  init = open_result >>= after_open
