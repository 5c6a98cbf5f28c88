-- ===== src/Hal/Pin.antt =====
-- The opening of a pin: GpioPin::init and GpioPin::finalize
-- (libs/HardwareAbstractionLayerImpl/Rpi/src/GpioPin.cpp). The line and the chip are those of libgpiod.
pub mod Opened
use sugo_machine_application.Prelude.{
  ℕ, ◌≡◌, refl, ◌⊎◌, inl, inr, Bool, true, false, ◌||◌, not, ◌==◌, if◌then◌else◌, List, [], ◌∷◌,
  Option, none, some, arith,
}
use sugo_machine_application.Framework.World.{Level, low, high}
use sugo_machine_application.Hal.Bus.{level_of_value, value_of_level, same_level}

pub data Direction : Type 0 where
  input output : Direction

pub data LineRequest : Type 0 where
  both_edges as_output : LineRequest

pub data LineCall : Type 0 where
  get_line : ℕ → LineCall
  ask_used : ℕ → LineCall
  request : ℕ → LineRequest → Bool → LineCall
  ask_requested : ℕ → LineCall
  set_value : ℕ → ℕ → LineCall
  get_value : ℕ → LineCall
  release : ℕ → LineCall

-- The answers of libgpiod, which may depend on the calls before: whether the chip has the line, the
-- answers to the questions about it, and its value.
pub record Gpiod : Type 0 where
  pub has_line : List LineCall → ℕ → Bool
  pub used : List LineCall → ℕ → Bool
  pub requested : List LineCall → ℕ → Bool
  pub value : List LineCall → ℕ → ℕ

-- The text of the option for the state: empty, "high", or another one.
pub data DefaultState : Type 0 where
  no_state high_state other_state : DefaultState

pub record PinOptions : Type 0 where
  pub pin : ℕ
  pub active_high : Bool
  pub direction : Direction
  pub state : DefaultState

-- The fields m_line and m_direction, and the calls.
pub record Pin : Type 0 where
  pub line : Option ℕ
  pub direction : Direction
  pub history : List LineCall

unfoldable pub release_line : Option ℕ → Pin → Pin
release_line none p = p
release_line (some l) p = record p { line = none; history = release l ∷ p.history }

unfoldable pub finalize : Pin → Pin
unfolding release_line
finalize p = release_line p.line p

abbrev pub request_of : Direction → LineRequest
request_of input = both_edges
request_of output = as_output

abbrev pub call : LineCall → Pin → Pin
call c p = record p { history = c ∷ p.history }

module _ (gpiod : Gpiod) where
  unfoldable pub get_state : ℕ → Pin → Level × Pin
  get_state l p = (level_of_value (gpiod.value p.history l), call (get_value l) p)

  unfoldable pub set_state : ℕ → Level → Pin → Bool × Pin
  unfolding get_state
  set_state l level p =
      let (now, p') = get_state l (call (set_value l (value_of_level level)) p) in
      (same_level level now, p')

  -- The default state of an output; the state of an input is only read.
  unfoldable pub set_default : ℕ → Direction → DefaultState → Pin → Bool × Pin
  unfolding set_state get_state
  set_default l input state p = (true, (get_state l p).1)
  set_default l output no_state p = (true, p)
  set_default l output high_state p = set_state l high p
  set_default l output other_state p = set_state l low p

  unfoldable pub after_request : ℕ → PinOptions → Pin → Bool × Pin
  unfolding finalize set_default
  after_request l options p =
      let asked = call (ask_requested l) p in
      if gpiod.requested p.history l
      then set_default l options.direction options.state asked
      else (false, finalize asked)

  -- The line is found; one that is in use is not requested, but stays in the field.
  unfoldable pub after_line : PinOptions → Pin → Bool × Pin
  unfolding after_request
  after_line options p =
      let l = options.pin in
      let asked = call (ask_used l) p in
      if gpiod.used p.history l
      then (false, asked)
      else after_request l options (record asked {
        direction = options.direction;
        history =
            request l (request_of options.direction) (not options.active_high) ∷ asked.history;
      })

  unfoldable pub init : PinOptions → Pin → Bool × Pin
  unfolding finalize after_line
  init options p =
      let closed = finalize p in
      let found = call (get_line options.pin) closed in
      if gpiod.has_line closed.history options.pin
      then after_line options (record found { line = some options.pin })
      else (false, found)
