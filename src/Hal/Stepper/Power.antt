-- ===== src/Hal/Stepper/Power.antt =====
-- Whether the motor is energized: StepperMotor::stop, waitAndShutdown, prepareForMotion and rotate
-- (libs/HardwareAbstractionLayerImpl/Rpi/src/StepperMotor.cpp).
use sugo_machine_application.Prelude.{
  ℕ, zero, suc, ◌%◌, ◌≤◌, ◌≡◌, refl, ◌∙◌, Bool, true, false, not, ◌==◌, if◌then◌else◌, List, [],
  ◌∷◌, Option, none, some, none-ne-some, arith, length, Bool-cases, ◌⊎◌, inl, inr,
}
use sugo_machine_application.Prelude.Int.{pos, eqb_ℤ}
use sugo_machine_application.Hal.Bus.{
  Bus, BusCall, HalWorld, i2c_transfer, write_message, write_call, i2c_read, i2c_write, sleep,
}
use sugo_machine_application.Hal.Tic.{
  initial_state, next_bytes, read_blocks, get_variable, get_state, de_energize, enter_safe_start,
  run_simple_command, halt_and_hold,
}
use sugo_machine_application.Hal.Stepper.{
  Fields, StepperAction, poll, after_verdict, poll_round, shutdown, after_poll, wait_and_shutdown,
  stop_at, stop_now,
}

-- What a call does to the power of the motor, if it does anything: the commands `energize` and
-- `deEnergize`.
abbrev power_command : BusCall → Option Bool
power_command (i2c_transfer (write_message address (command ∷ []) ∷ [])) =
    if command == 0x85 then some true else (if command == 0x86 then some false else none)
power_command _ = none

-- The controller takes a command that is acknowledged: the one message of the transfer went through.
abbrev pub acknowledged : Bus → List BusCall → BusCall → Bool
acknowledged bus h c = eqb_ℤ (bus.ioctl h c) (pos 1)

-- Whether the last of the two power commands that the controller took was `energize`.
abbrev pub energized : Bus → List BusCall → Bool
energized bus [] = false
energized bus (c ∷ h) =
    let before = energized bus h in
    elim (power_command c) [ none ↦ before | some on ↦ if acknowledged bus h c then on else before ]

-- The last two calls were to take the power off and to enter the safe start, and the first of them
-- was not acknowledged.
pub record Refused (bus : Bus) (address : ℕ) (h : List BusCall) : Type 0 where
  pub before : List BusCall
  pub sent_off : h ≡ write_call address (0x8F ∷ []) ∷ write_call address (0x86 ∷ []) ∷ before
  pub not_taken : acknowledged bus before (write_call address (0x86 ∷ [])) ≡ false

-- No power, as far as the bus takes the command.
abbrev pub NoPower : Bus → ℕ → HalWorld Fields → Type 0
NoPower bus address w = (energized bus w.history ≡ false) ⊎ Refused bus address w.history

-- How a shutdown ends: there is no power, or it has failed because its command was refused.
abbrev pub Ended : Bus → ℕ → Bool → HalWorld Fields → Type 0
Ended bus address success w =
    (energized bus w.history ≡ false) ⊎ ((success ≡ false) × Refused bus address w.history)

pub NoPower-Ended :
    (bus : Bus) (address : ℕ) (success : Bool) (w : HalWorld Fields)
    → Ended bus address success w
    → NoPower bus address w
NoPower-Ended bus address success w (inl off) = inl off
NoPower-Ended bus address success w (inr (failed, refused)) = inr refused

-- The world after calls that leave the fields and the power as they are.
pub record Unpowered (bus : Bus) (w w' : HalWorld Fields) : Type 0 where
  pub same_fields : w'.fields ≡ w.fields
  pub same_power : energized bus w'.history ≡ energized bus w.history
  pub grown : length w.history ≤ length w'.history

module _ (bus : Bus) (address : ℕ) where
  read_blocks-Unpowered :
      (fuel remaining offset : ℕ) (memory : List ℕ) (w : HalWorld Fields)
      → Unpowered bus w (read_blocks bus address fuel remaining offset memory w).1
  unfolding read_blocks get_variable i2c_read
  read_blocks-Unpowered zero remaining offset memory w = record {
    same_fields = refl;
    same_power = refl;
    grown = omega arith;
  }
  read_blocks-Unpowered (suc fuel) remaining offset memory w = elim (Bool-cases (remaining == 0)) [
    | inl none_left ↦
        rw none_left (record { same_fields = refl; same_power = refl; grown = omega arith })
    | inr some_left ↦
        elim (Bool-cases (get_variable bus address (offset % 256) (next_bytes remaining) w).0.0) [
          | inl hit ↦
              let rest = read_blocks-Unpowered fuel _ _ _ _ in
              rw (some_left, hit)
                (record {
                  same_fields = rest.same_fields;
                  same_power = rest.same_power;
                  grown = omega (arith, rest.grown);
                })
          | inr miss ↦
              rw (some_left, miss)
                (record { same_fields = refl; same_power = refl; grown = omega arith })
        ]
  ]

  pub get_state-Unpowered :
      (memory : List ℕ) (w : HalWorld Fields) → Unpowered bus w (get_state bus address memory w).1
  unfolding get_state
  get_state-Unpowered memory w = read_blocks-Unpowered 43 42 0 memory w

  pub trans_Unpowered :
      (a b c : HalWorld Fields) → Unpowered bus a b → Unpowered bus b c → Unpowered bus a c
  trans_Unpowered a b c p q = record {
    same_fields = q.same_fields ∙ p.same_fields;
    same_power = q.same_power ∙ p.same_power;
    grown = omega (arith, p.grown, q.grown);
  }

  after_verdict-Unpowered :
      (v : Bool × Bool) (remaining : ℕ) (stop_immediately : Bool)
      (again : ℕ → StepperAction (Option Bool))
      → ((r : ℕ) (w : HalWorld Fields) → Unpowered bus w (again r w).1)
      → (w : HalWorld Fields)
      → Unpowered bus w (after_verdict bus v remaining stop_immediately again w).1
  unfolding after_verdict sleep
  after_verdict-Unpowered (true, error) remaining stop_immediately again keep w = record {
    same_fields = refl;
    same_power = refl;
    grown = omega arith;
  }
  after_verdict-Unpowered (false, error) remaining true again keep w = record {
    same_fields = refl;
    same_power = refl;
    grown = omega arith;
  }
  after_verdict-Unpowered (false, error) remaining false again keep w =
      let rest = keep _ _ in
      record {
        same_fields = rest.same_fields;
        same_power = rest.same_power;
        grown = omega (arith, rest.grown);
      }

  poll-Unpowered :
      (polls remaining : ℕ) (stop_immediately : Bool) (memory : List ℕ) (w : HalWorld Fields)
      → Unpowered bus w (poll bus polls address remaining stop_immediately memory w).1
  unfolding poll poll_round
  poll-Unpowered zero remaining stop_immediately memory w =
      trans_Unpowered _ _ _ (get_state-Unpowered memory w) (
        after_verdict-Unpowered _ _ _ _
          (λ r v. record { same_fields = refl; same_power = refl; grown = omega arith }) _)
  poll-Unpowered (suc polls) remaining stop_immediately memory w =
      trans_Unpowered _ _ _ (get_state-Unpowered memory w)
        (after_verdict-Unpowered _ _ _ _ (λ r. poll-Unpowered polls r stop_immediately _) _)

  -- The loop ends at once where the motor is to be stopped immediately.
  poll_immediately :
      (remaining : ℕ) (memory : List ℕ) (w : HalWorld Fields)
      → (error : Bool) × ((poll bus 0 address remaining true memory w).0 ≡ some error)
  unfolding poll poll_round after_verdict
  poll_immediately remaining memory w = round _ _ _ _
    where
      round :
          (v : Bool × Bool) (remaining : ℕ) (again : ℕ → StepperAction (Option Bool))
          (w : HalWorld Fields)
          → (error : Bool) × ((after_verdict bus v remaining true again w).0 ≡ some error)
      round (true, error) remaining again w = (error, refl)
      round (false, error) remaining again w = (error, refl)

  shutdown_Ended :
      (error success : Bool) (w : HalWorld Fields)
      → (after_poll bus address (some error) w).0 ≡ some success
      → Ended bus address success (after_poll bus address (some error) w).1
  unfolding after_poll shutdown de_energize enter_safe_start run_simple_command i2c_write
  shutdown_Ended error success w h =
      elim (Bool-cases (acknowledged bus w.history (write_call address (0x86 ∷ [])))) [
        | inl taken ↦ inl (rw taken refl)
        | inr refused ↦
            inr (ground arith, record { before = w.history; sent_off = refl; not_taken = refused })
      ]

  after_poll_off :
      (result : Option Bool) (w : HalWorld Fields) (success : Bool)
      → (after_poll bus address result w).0 ≡ some success
      → let w' = (after_poll bus address result w).1 in
        Ended bus address success w' × (w'.fields ≡ w.fields)
  unfolding after_poll shutdown de_energize enter_safe_start run_simple_command i2c_write
  after_poll_off none w success h = absurd (none-ne-some success h)
  after_poll_off (some error) w success h = (shutdown_Ended error success w h, refl)

  pub wait_and_shutdown_off :
      (polls remaining : ℕ) (stop_immediately : Bool) (w : HalWorld Fields) (success : Bool)
      → (wait_and_shutdown bus polls address remaining stop_immediately w).0 ≡ some success
      → let w' = (wait_and_shutdown bus polls address remaining stop_immediately w).1 in
        Ended bus address success w' × (w'.fields ≡ w.fields)
  unfolding wait_and_shutdown
  wait_and_shutdown_off polls remaining stop_immediately w success h =
      let (answer, w1) = get_state bus address initial_state w in
      let read = get_state-Unpowered initial_state w in
      let polled = poll-Unpowered polls remaining stop_immediately answer.1 w1 in
      let (result, w2) = poll bus polls address remaining stop_immediately answer.1 w1 in
      let off = after_poll_off result w2 success h in
      (off.0, off.1 ∙ polled.same_fields ∙ read.same_fields)

  wait_and_shutdown_now :
      (remaining : ℕ) (w : HalWorld Fields)
      → (success : Bool) × ((wait_and_shutdown bus 0 address remaining true w).0 ≡ some success)
  unfolding wait_and_shutdown after_poll
  wait_and_shutdown_now remaining w =
      let (answer, w1) = get_state bus address initial_state w in
      let (result, w2) = poll bus 0 address remaining true answer.1 w1 in
      let (error, e) = poll_immediately remaining answer.1 w1 in ends result w2 error e
    where
      ends :
          (result : Option Bool) (w2 : HalWorld Fields) (error : Bool)
          → result ≡ some error
          → (success : Bool) × ((after_poll bus address result w2).0 ≡ some success)
      ends none w2 error e = absurd (none-ne-some error e)
      ends (some error) w2 _ e = (_, refl)

  pub stop_now_off :
      (w : HalWorld Fields)
      → let w' = (stop_now bus address w).1 in NoPower bus address w' × (w'.fields ≡ w.fields)
  unfolding stop_now stop_at halt_and_hold run_simple_command i2c_write
  stop_now_off w = at_once _ _
    where
      shut_off :
          (success : Bool) (v : HalWorld Fields)
          → (wait_and_shutdown bus 0 address 0 true v).0 ≡ some success
          → let w' = (wait_and_shutdown bus 0 address 0 true v).1 in
            NoPower bus address w' × (w'.fields ≡ v.fields)
      shut_off success v e =
          let (ended, same) = wait_and_shutdown_off 0 0 true v success e in
          (
            NoPower-Ended bus address success (wait_and_shutdown bus 0 address 0 true v).1 ended,
            same,
          )

      at_once :
          (success : Bool) (v : HalWorld Fields)
          → let w' = (wait_and_shutdown bus 0 address 0 (if not success then true else true) v).1 in
            NoPower bus address w' × (w'.fields ≡ v.fields)
      at_once true v = let (success, e) = wait_and_shutdown_now 0 v in shut_off success v e
      at_once false v = let (success, e) = wait_and_shutdown_now 0 v in shut_off success v e
