-- ===== src/Heater/Hysteresis.antt =====
-- The temperature check of the heaters and the events that it causes.
use sugo_machine_application.Prelude.{
  ◌≡◌, ◌≢◌, sym, refl, Bool, true, false, arith, Option, none, some, ◌+◌, if◌then◌else◌,
}
use sugo_machine_application.Prelude.Int.{ℤ, pos_part, neg_part, ◌≤ℤ◌, leb_ℤ, eqb_ℤ, eq_of_parts}
use sugo_machine_application.Framework.EventQueue
use sugo_machine_application.Framework.EventQueue.{EventQueue}
use sugo_machine_application.Framework.World.{World, Environment}
use sugo_machine_application.Heater.Diagram.{Event, state_numbers, event_numbers}
use sugo_machine_application.Heater.{
  Fields, TemperatureLimit, max_temperature_reached, min_temperature_reached, check,
  update_heater_temperature_and_check,
}

infix 50 ◌<ℤ◌
abbrev ◌<ℤ◌ : ℤ → ℤ → Type 0
a <ℤ b = ¬ (b ≤ℤ a)

leb_ℤ-≤ : (a b : ℤ) → leb_ℤ a b ≡ true → a ≤ℤ b
leb_ℤ-≤ a b h = ground arith

leb_ℤ-> : (a b : ℤ) → leb_ℤ a b ≡ false → b <ℤ a
leb_ℤ-> a b h = ground arith

eqb_ℤ-≡ : (a b : ℤ) → eqb_ℤ a b ≡ true → a ≡ b
eqb_ℤ-≡ a b h = eq_of_parts a b (ground arith)

eqb_ℤ-≢ : (a b : ℤ) → eqb_ℤ a b ≡ false → b ≢ a
eqb_ℤ-≢ a b h e =
    let parts : pos_part b + neg_part a ≡ pos_part a + neg_part b = rw e refl in ground arith

-- The events of the queue after a check of the temperature `t`.
pub data Checked (f : Fields) (t : ℤ) (q : EventQueue Event) : EventQueue Event → Type 0 where
  unchanged : t ≡ f.last_checked_temperature → Checked f t q q
  between :
      t ≢ f.last_checked_temperature
      → f.config.temperature_min <ℤ t
      → t <ℤ f.config.temperature_max
      → Checked f t q q
  too_hot :
      t ≢ f.last_checked_temperature
      → f.config.temperature_max ≤ℤ t
      → Checked f t q (EventQueue.push Event.max_temperature_reached q).0
  too_cold :
      t ≢ f.last_checked_temperature
      → t <ℤ f.config.temperature_max
      → t ≤ℤ f.config.temperature_min
      → Checked f t q (EventQueue.push Event.min_temperature_reached q).0

-- The limit that is reached, from the two comparisons.
abbrev limit_of : Bool → Bool → Option TemperatureLimit
limit_of upper lower =
    if upper
    then some max_temperature_reached
    else (if lower then some min_temperature_reached else none)

abbrev CheckedWorld : Fields → ℤ → World Fields Event → World Fields Event → Type 0
CheckedWorld f t w w' =
    (w'.fields ≡ record f { current_temperature = t; last_checked_temperature = t })
    × Checked f t w.queue w'.queue
    × (w'.history ≡ w.history)

-- The check once the current temperature is `t`, by its three comparisons.
check-CheckedWorld :
    (f : Fields) (t : ℤ) (w : World Fields Event) (same upper lower : Bool)
    → eqb_ℤ f.last_checked_temperature t ≡ same
    → leb_ℤ f.config.temperature_max t ≡ upper
    → leb_ℤ t f.config.temperature_min ≡ lower
    → CheckedWorld f t w
        (check same
          (limit_of upper lower)
          (record w { fields = record f { current_temperature = t } })).1
unfolding check
check-CheckedWorld f t w true _ _ same up low =
    let h : f.last_checked_temperature ≡ t = eqb_ℤ-≡ f.last_checked_temperature t same in
    (rw h refl, unchanged (sym h), refl)
check-CheckedWorld f t w false true _ same up low = (
  refl,
  too_hot (eqb_ℤ-≢ f.last_checked_temperature t same) (leb_ℤ-≤ f.config.temperature_max t up),
  refl,
)
check-CheckedWorld f t w false false true same up low = (
  refl,
  too_cold (eqb_ℤ-≢ f.last_checked_temperature t same) (leb_ℤ-> f.config.temperature_max t up)
      (leb_ℤ-≤ t f.config.temperature_min low),
  refl,
)
check-CheckedWorld f t w false false false same up low = (
  refl,
  between (eqb_ℤ-≢ f.last_checked_temperature t same) (leb_ℤ-> t f.config.temperature_min low)
      (leb_ℤ-> f.config.temperature_max t up),
  refl,
)

module _ (env : Environment) where
  -- The timer's check reads the sensor once, remembers the reading as the current and as the last
  -- checked temperature, makes no call, and pushes at most one event: none if the reading is the
  -- last checked one or lies strictly between the limits, MaxTemperatureReached from the upper
  -- limit on, and else MinTemperatureReached up to the lower limit.
  pub update_heater_temperature_and_check-Checked :
      (w : World Fields Event)
      → let t = env.sensor w.history in
        let w' = (update_heater_temperature_and_check env w).1 in
        (w'.fields ≡ record (w.fields) { current_temperature = t; last_checked_temperature = t })
        × Checked w.fields t w.queue w'.queue
        × (w'.history ≡ w.history)
  unfolding update_heater_temperature_and_check
  update_heater_temperature_and_check-Checked w =
      check-CheckedWorld w.fields (env.sensor w.history) w _ _ _ refl refl refl
