-- ===== src/Hal/Max31865/Lookup.antt =====
-- The conversion of a resistance code to a temperature: the table and the search in it, in
-- Max31865::getTemperature (libs/HardwareAbstractionLayerImpl/Rpi/src/Max31865.cpp).
use sugo_machine_application.Prelude.{
  ℕ, ◌<◌, ◌≡◌, refl, ◌⊎◌, inl, inr, Bool, true, false, ◌&&◌, ltb, List, [], ◌∷◌, Option, none, some,
  arith, All, Bool-cases,
}
use sugo_machine_application.Prelude.Int.{ℤ, pos, negsuc, leb_ℤ, ◌≤ℤ◌}
use sugo_machine_application.Hal.Max31865.Table.{
  ResistanceTemperature, resistance_to_temperature_look_up_table,
}
use sugo_machine_application.Hal.Max31865.{
  look_up, resistance_of, temperature_of_code, temperature_highest, or_highest,
}

-- Both columns grow from the lower bounds on, and the temperatures end at 250.
abbrev ascending : ℕ → ℤ → List ResistanceTemperature → Bool
ascending r t [] = true
ascending r t (entry ∷ table) =
    let rest = ascending entry.resistance entry.temperature table in
    ltb r entry.resistance && leb_ℤ t entry.temperature && leb_ℤ entry.temperature (pos 250) && rest

table_ascending : ascending 0 (negsuc 49) resistance_to_temperature_look_up_table ≡ true
unfolding resistance_to_temperature_look_up_table
table_ascending = refl

record Grows (r : ℕ) (t : ℤ) (entry : ResistanceTemperature) (table : List ResistanceTemperature)
    : Type 0 where
  resistance_grows : r < entry.resistance
  temperature_grows : t ≤ℤ entry.temperature
  temperature_bounded : entry.temperature ≤ℤ pos 250
  rest_ascending : ascending entry.resistance entry.temperature table ≡ true

grows :
    (r : ℕ) (t : ℤ) (entry : ResistanceTemperature) (table : List ResistanceTemperature)
    → ascending r t (entry ∷ table) ≡ true
    → Grows r t entry table
grows r t entry table h = ground arith

-- A result of the search lies in the range of the temperatures.
look_up_bounds :
    (r : ℕ) (t : ℤ) (table : List ResistanceTemperature)
    → ascending r t table ≡ true
    → (resistance temperature : ℤ) → look_up table resistance ≡ some temperature
    → (t ≤ℤ temperature) × (temperature ≤ℤ pos 250)
unfolding look_up
look_up_bounds r t [] h resistance temperature found = ground arith
look_up_bounds r t (entry ∷ table) h resistance temperature found =
    let g = grows r t entry table h in
    ground (
      arith,
      g.temperature_grows,
      g.temperature_bounded,
      look_up_bounds entry.resistance entry.temperature table g.rest_ascending resistance
          temperature,
    )

or_highest-≤ :
    (t : ℤ) (found : Option ℤ)
    → t ≤ℤ pos 250
    → ((x : ℤ) → found ≡ some x → t ≤ℤ x)
    → t ≤ℤ or_highest found
or_highest-≤ t none bounded at_least = omega (arith, bounded)
or_highest-≤ t (some x) bounded at_least = at_least x refl

-- A higher resistance is not found before a lower one.
look_up_mono :
    (r : ℕ) (t : ℤ) (table : List ResistanceTemperature)
    → ascending r t table ≡ true
    → (a b : ℤ) → a ≤ℤ b
    → or_highest (look_up table a) ≤ℤ or_highest (look_up table b)
unfolding look_up
look_up_mono r t [] h a b le = omega arith
look_up_mono r t (entry ∷ table) h a b le =
    let g = grows r t entry table h in
    elim (Bool-cases (leb_ℤ a (pos entry.resistance))) [
      | inl hit ↦ elim (Bool-cases (leb_ℤ b (pos entry.resistance))) [
        | inl hit' ↦ rw (hit, hit') (omega arith)
        | inr miss' ↦
            rw (hit, miss')
              (or_highest-≤ entry.temperature (look_up table b) g.temperature_bounded (λ x found.
                (look_up_bounds entry.resistance entry.temperature table g.rest_ascending b x
                  found).0))
      ]
      | inr miss ↦ elim (Bool-cases (leb_ℤ b (pos entry.resistance))) [
        | inl hit' ↦ absurd (ground arith)
        | inr miss' ↦
            rw (miss, miss')
              (look_up_mono entry.resistance entry.temperature table g.rest_ascending a b le)
      ]
    ]

resistance_of_mono : (a b : ℤ) → a ≤ℤ b → resistance_of a ≤ℤ resistance_of b
unfolding resistance_of
resistance_of_mono (pos a) (pos b) h = omega arith
resistance_of_mono (negsuc a) (pos b) h = ground arith
resistance_of_mono (pos a) (negsuc b) h = absurd (omega arith)
resistance_of_mono (negsuc a) (negsuc b) h = ground arith

-- A higher code never gives a lower temperature.
pub temperature_of_code_mono : (a b : ℤ) → a ≤ℤ b → temperature_of_code a ≤ℤ temperature_of_code b
unfolding temperature_of_code
temperature_of_code_mono a b h =
    look_up_mono 0 (negsuc 49) resistance_to_temperature_look_up_table table_ascending
      (resistance_of a) (resistance_of b) (resistance_of_mono a b h)

in_range :
    (found : Option ℤ)
    → ((x : ℤ) → found ≡ some x → (negsuc 49 ≤ℤ x) × (x ≤ℤ pos 250))
    → ((negsuc 49 ≤ℤ or_highest found) × (or_highest found ≤ℤ pos 250))
      ⊎ (or_highest found ≡ temperature_highest)
in_range none bounds = inr refl
in_range (some x) bounds = inl (bounds x refl)

-- The temperature of a code lies between -50 and 250, or it is the highest int16_t.
pub temperature_of_code_bounds :
    (code : ℤ)
    → ((negsuc 49 ≤ℤ temperature_of_code code) × (temperature_of_code code ≤ℤ pos 250))
      ⊎ (temperature_of_code code ≡ temperature_highest)
unfolding temperature_of_code
temperature_of_code_bounds code =
    in_range (look_up resistance_to_temperature_look_up_table (resistance_of code)) (
      look_up_bounds 0 (negsuc 49) resistance_to_temperature_look_up_table table_ascending
        (resistance_of code))

above :
    (r : ℕ) (t : ℤ) (table : List ResistanceTemperature)
    → ascending r t table ≡ true
    → All (λ e. r < e.resistance) table
above r t [] h = tt
above r t (entry ∷ table) h =
    let g = grows r t entry table h in
    (
      g.resistance_grows,
      weaken table (above entry.resistance entry.temperature table g.rest_ascending),
    )
  where
    weaken :
        (es : List ResistanceTemperature)
        → All (λ e. entry.resistance < e.resistance) es
        → All (λ e. r < e.resistance) es
    weaken [] a = tt
    weaken (e ∷ es) a =
        (omega (arith, (grows r t entry table h).resistance_grows, a.0), weaken es a.1)

-- In an ascending table each entry is found by its own resistance.
rows_found :
    (r : ℕ) (t : ℤ) (table : List ResistanceTemperature)
    → ascending r t table ≡ true
    → All (λ e. look_up table (pos e.resistance) ≡ some e.temperature) table
unfolding look_up
rows_found r t [] h = tt
rows_found r t (entry ∷ table) h =
    let g = grows r t entry table h in
    let self : leb_ℤ (pos entry.resistance) (pos entry.resistance) ≡ true = ground arith in
    (
      rw self refl,
      skip table (above entry.resistance entry.temperature table g.rest_ascending)
          (rows_found entry.resistance entry.temperature table g.rest_ascending),
    )
  where
    skip :
        (es : List ResistanceTemperature)
        → All (λ e. entry.resistance < e.resistance) es
        → All (λ e. look_up table (pos e.resistance) ≡ some e.temperature) es
        → All (λ e. look_up (entry ∷ table) (pos e.resistance) ≡ some e.temperature) es
    skip [] a found = tt
    skip (e ∷ es) a found =
        let passed : leb_ℤ (pos e.resistance) (pos entry.resistance) ≡ false =
          ground (arith, a.0) in
        (rw passed found.0, skip es a.1 found.1)

-- Each entry of the table is found by its own resistance.
pub table_found :
    All
      (λ e. look_up resistance_to_temperature_look_up_table (pos e.resistance) ≡ some e.temperature)
      resistance_to_temperature_look_up_table
table_found = rows_found 0 (negsuc 49) resistance_to_temperature_look_up_table table_ascending
