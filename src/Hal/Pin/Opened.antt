-- ===== src/Hal/Pin/Opened.antt =====
-- What a pin is like that was opened: GpioPin::init
-- (libs/HardwareAbstractionLayerImpl/Rpi/src/GpioPin.cpp).
use sugo_machine_application.Prelude.{
  ℕ, ◌≡◌, refl, Bool, true, false, if◌then◌else◌, List, ◌∷◌, some, arith,
}
use sugo_machine_application.Framework.World.{Level, low, high}
use sugo_machine_application.Hal.Bus.{level_of_value, same_level}
use sugo_machine_application.Hal.Pin.{
  Direction, input, output, LineCall, Gpiod, ask_requested, get_value, DefaultState, no_state,
  high_state, other_state, PinOptions, Pin, finalize, call, set_state, get_state, set_default,
  after_request, after_line, init,
}

-- A property of the pins of both branches, where they succeed.
if_succeeds :
    (P : Pin → Type 0) (b : Bool) (x y : Bool × Pin)
    → (x.0 ≡ true → P x.1)
    → (y.0 ≡ true → P y.1)
    → (if b then x else y).0 ≡ true
    → P (if b then x else y).1
if_succeeds P true x y f g t = f t
if_succeeds P false x y f g t = g t

failed : {A : Type 0} → false ≡ true → A
failed e = absurd (differ e)
  where
    differ : false ≡ true → ⊥
    differ e = ground arith

same_level-true : (a b : Level) → same_level a b ≡ true → b ≡ a
same_level-true low low e = refl
same_level-true high high e = refl
same_level-true low high e = ground arith
same_level-true high low e = ground arith

module _ (gpiod : Gpiod) where
  -- The last call has read this level off the line.
  unfoldable pub ReadAs : ℕ → Level → List LineCall → Type 0
  ReadAs l level (get_value k ∷ h) = (k ≡ l) × (level_of_value (gpiod.value h k) ≡ level)
  ReadAs l level _ = ⊥

  -- An output with a default state has it.
  unfoldable pub AtDefault : ℕ → Direction → DefaultState → List LineCall → Type 0
  unfolding ReadAs
  AtDefault l output high_state h = ReadAs l high h
  AtDefault l output other_state h = ReadAs l low h
  AtDefault l output no_state h = Unit
  AtDefault l input state h = Unit

  abbrev pub Opened : ℕ → Direction → DefaultState → Pin → Type 0
  Opened l direction state p =
      (p.line ≡ some l) × ((p.direction ≡ direction) × AtDefault l direction state p.history)

  set_state-ReadAs :
      (l : ℕ) (level : Level) (p : Pin)
      → (set_state gpiod l level p).0 ≡ true
      → ReadAs l level (set_state gpiod l level p).1.history
  unfolding set_state get_state ReadAs
  set_state-ReadAs l level p e = (refl, same_level-true level _ e)

  set_default-Opened :
      (l : ℕ) (direction : Direction) (state : DefaultState) (p : Pin)
      → p.line ≡ some l
      → p.direction ≡ direction
      → (set_default gpiod l direction state p).0 ≡ true
      → Opened l direction state (set_default gpiod l direction state p).1
  unfolding set_default AtDefault set_state get_state
  set_default-Opened l input state p a d t = (a, (d, tt))
  set_default-Opened l output no_state p a d t = (a, (d, tt))
  set_default-Opened l output high_state p a d t = (a, (d, set_state-ReadAs l high p t))
  set_default-Opened l output other_state p a d t = (a, (d, set_state-ReadAs l low p t))

  after_request-Opened :
      (l : ℕ) (options : PinOptions) (p : Pin)
      → p.line ≡ some l
      → p.direction ≡ options.direction
      → (after_request gpiod l options p).0 ≡ true
      → Opened l options.direction options.state (after_request gpiod l options p).1
  unfolding after_request
  after_request-Opened l options p a d t =
      if_succeeds (Opened l options.direction options.state) (gpiod.requested p.history l) _ _
        (set_default-Opened l options.direction options.state (call (ask_requested l) p) a d) failed
        t

  after_line-Opened :
      (options : PinOptions) (p : Pin)
      → p.line ≡ some options.pin
      → (after_line gpiod options p).0 ≡ true
      → Opened options.pin options.direction options.state (after_line gpiod options p).1
  unfolding after_line
  after_line-Opened options p a t =
      let l = options.pin in
      if_succeeds (Opened l options.direction options.state) (gpiod.used p.history l) _ _ failed
        (after_request-Opened l options _ a refl) t

  -- A pin whose opening succeeds holds the line of its options, in their direction; an output with a
  -- default state was last read at the level of that state.
  pub init-Opened :
      (options : PinOptions) (p : Pin)
      → (init gpiod options p).0 ≡ true
      → Opened options.pin options.direction options.state (init gpiod options p).1
  unfolding init
  init-Opened options p t =
      let closed = finalize p in
      if_succeeds (Opened options.pin options.direction options.state)
        (gpiod.has_line closed.history options.pin) _ _ (after_line-Opened options _ refl) failed t
