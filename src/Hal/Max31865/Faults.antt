-- ===== src/Hal/Max31865/Faults.antt =====
-- The readings of a sensor that cannot be selected or reports a fault: Max31865::getTemperature and
-- readSpiData (libs/HardwareAbstractionLayerImpl/Rpi/src/Max31865.cpp).
use sugo_machine_application.Prelude.{
  ℕ, ◌%◌, ◌≤◌, ◌≡◌, ◌≢◌, refl, sym, subst, ap, false, ◌==◌, [], ◌∷◌, arith, Bool-cases, inl, inr,
}
use sugo_machine_application.Prelude.Int.{pos, negsuc, ◌≤ℤ◌}
use sugo_machine_application.Framework.World.{high}
use sugo_machine_application.Hal.Words.{byte_at, signed16}
use sugo_machine_application.Hal.Bus.{Bus, HalWorld, set_state, chip_select_pin}
use sugo_machine_application.Hal.Max31865.Table.{resistance_to_temperature_look_up_table}
use sugo_machine_application.Hal.Max31865.{
  adc_code, look_up, resistance_of, temperature_of_code, temperature_of_registers,
  temperature_lowest, read_selected, read_spi_data, get_temperature,
}
use sugo_machine_application.Hal.Max31865.Lookup.{temperature_of_code_mono}

-- The temperature of two registers that are 0.
registers_0 : temperature_of_registers 0 0 ≡ negsuc 49
unfolding temperature_of_registers adc_code signed16 temperature_of_code look_up resistance_of
    resistance_to_temperature_look_up_table
registers_0 = refl

adc_code-negative : (msb lsb : ℕ) → 128 ≤ msb → adc_code msb lsb ≤ℤ pos 0
unfolding adc_code signed16
adc_code-negative msb lsb h = ground arith

over_range : (msb lsb : ℕ) → 128 ≤ msb → temperature_of_registers msb lsb ≤ℤ negsuc 49
unfolding temperature_of_registers
over_range msb lsb h =
    let below = temperature_of_code_mono (adc_code msb lsb) (pos 0) (adc_code-negative msb lsb h) in
    elim (Bool-cases (lsb % 2 == 0)) [
      | inl even ↦ rw even (omega (arith, below))
      | inr odd ↦ rw odd (omega arith)
    ]

fault_bit : (msb lsb : ℕ) → lsb % 2 ≢ 0 → temperature_of_registers msb lsb ≡ temperature_lowest
unfolding temperature_of_registers
fault_bit msb lsb h = let odd : (lsb % 2 == 0) ≡ false = ground arith in rw odd refl

-- How a reading fails, apart from a failed transfer: the chip could not be selected, the device reports a fault, or its code is
-- over the range, as that of an open sensor is.
pub data Faulty {D : Type 0} (bus : Bus) (w : HalWorld D) : Type 0 where
  not_selected : (set_state bus chip_select_pin high w).0 ≡ false → Faulty bus w
  fault_reported : byte_at (read_spi_data bus 1 (0 ∷ 0 ∷ []) w).0.1 1 % 2 ≢ 0 → Faulty bus w
  out_of_range : 128 ≤ byte_at (read_spi_data bus 1 (0 ∷ 0 ∷ []) w).0.1 0 → Faulty bus w

not_selected_registers :
    {D : Type 0} (bus : Bus) (w : HalWorld D)
    → (set_state bus chip_select_pin high w).0 ≡ false
    → (read_spi_data bus 1 (0 ∷ 0 ∷ []) w).0.1 ≡ 0 ∷ 0 ∷ []
unfolding read_spi_data read_selected
not_selected_registers bus w h =
    let (selected, w1) = set_state bus chip_select_pin high w in
    ap (λ b. (read_selected bus 1 (0 ∷ 0 ∷ []) b w1).0.1) h

zero_registers :
    temperature_of_registers (byte_at (0 ∷ 0 ∷ []) 0) (byte_at (0 ∷ 0 ∷ []) 1) ≤ℤ negsuc 49
unfolding byte_at
zero_registers = subst (λ t. t ≤ℤ negsuc 49) (sym registers_0) (omega arith)

-- A reading that fails gives a temperature of at most -50.
pub get_temperature-Faulty :
    {D : Type 0} (bus : Bus) (w : HalWorld D)
    → Faulty bus w
    → (get_temperature bus w).0 ≤ℤ negsuc 49
unfolding get_temperature
get_temperature-Faulty bus w (fault_reported odd) =
    let registers = (read_spi_data bus 1 (0 ∷ 0 ∷ []) w).0.1 in
    subst (λ t. t ≤ℤ negsuc 49) (sym (fault_bit (byte_at registers 0) (byte_at registers 1) odd))
      (omega arith)
get_temperature-Faulty bus w (out_of_range h) =
    let registers = (read_spi_data bus 1 (0 ∷ 0 ∷ []) w).0.1 in
    over_range (byte_at registers 0) (byte_at registers 1) h
get_temperature-Faulty bus w (not_selected h) =
    subst
      (λ registers.
        temperature_of_registers (byte_at registers 0) (byte_at registers 1) ≤ℤ negsuc 49)
      (sym (not_selected_registers bus w h)) zero_registers
