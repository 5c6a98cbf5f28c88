-- ===== src/MachineControl/Requests.antt =====
-- What the machine control asks of the two units, and how it reports their answers.
use sugo_machine_application.Prelude.{
  ℕ, ◌≡◌, ◌⊎◌, refl, Bool, true, false, List, ◌∷◌, arith, Option, none, some, not,
}
use sugo_machine_application.Framework.EventQueue
use sugo_machine_application.Framework.Message.{
  Message, Response, success, is_success, nothing, speed, tension_control, filament_coil_control,
  filament_merger_control, request_set_motor_speed, request_start_feeding, request_start_coil,
  request_switch_off, notify_starting, notify_error_occurred, notify_switched_off,
}
use sugo_machine_application.Framework.World.{World, Environment, Effect, sent, notified}
use sugo_machine_application.Framework.StateMachine.{process_event}
use sugo_machine_application.MachineControl.Diagram.{State, Event, state_numbers, event_numbers}
use sugo_machine_application.MachineControl.{
  Fields, broadcast_speed, start_machine, starting_speed, is_start_heatless, transitions,
  handle_error, switch_off,
}

-- An answer came back, and it is a success.
abbrev pub accepted : Option Response → Bool
accepted none = false
accepted (some r) = is_success r.result

-- The history of a start of the machine once one, two, three or all of its requests are made.
abbrev pub merger_asked_speed : ℕ → List Effect → List Effect
merger_asked_speed n h = sent filament_merger_control request_set_motor_speed (speed n) ∷ h

abbrev pub merger_asked_feeding : ℕ → List Effect → List Effect
merger_asked_feeding n h =
    sent filament_merger_control request_start_feeding nothing ∷ merger_asked_speed n h

abbrev pub coil_asked_speed : ℕ → List Effect → List Effect
coil_asked_speed n h =
    sent filament_coil_control request_set_motor_speed (speed n) ∷ merger_asked_feeding n h

abbrev pub coil_asked_start : Bool → ℕ → List Effect → List Effect
coil_asked_start tension n h =
    sent filament_coil_control request_start_coil (tension_control tension) ∷ coil_asked_speed n h

module _ (env : Environment) where
  -- If both units answer: the speed goes to the coil control first. If that refuses it with a result, the requester gets
  -- this result and the merger control is not asked; if the coil control accepts and the merger
  -- control refuses, the requester gets the latter's result; if both accept, it gets success.
  pub broadcast_speed_answered :
      (request : Message) (n : ℕ) (w : World Fields Event) (r r' : Response)
      → let h = sent filament_coil_control request_set_motor_speed (speed n) ∷ w.history in
        env.reply w.history filament_coil_control request_set_motor_speed (speed n) ≡ some r
        → env.reply h filament_merger_control request_set_motor_speed (speed n) ≡ some r'
        → let (answer, w') = broadcast_speed env request n w in
          ((is_success r.result ≡ false) → (answer.result ≡ r.result) × (w'.history ≡ h))
          × ((is_success r.result ≡ true)
              → (answer.result ≡ r'.result)
                × (w'.history ≡ sent filament_merger_control request_set_motor_speed (speed n) ∷ h))
  unfolding broadcast_speed
  broadcast_speed_answered request n w r r' e e' = ground arith

  -- If no response to the request to the coil control comes through, the merger control is not asked
  -- for the new speed, and the requester is told success all the same.
  pub broadcast_speed_lost :
      (request : Message) (n : ℕ) (w : World Fields Event)
      → env.reply w.history filament_coil_control request_set_motor_speed (speed n) ≡ none
      → let (answer, w') = broadcast_speed env request n w in
        (answer.result ≡ success)
        × (w'.history ≡ sent filament_coil_control request_set_motor_speed (speed n) ∷ w.history)
  unfolding broadcast_speed
  broadcast_speed_lost request n w e = ground arith

  -- Whether the four requests of a start are accepted, each after the ones before it.
  abbrev pub speed_accepted_by_merger : ℕ → List Effect → Bool
  speed_accepted_by_merger n h =
      accepted (env.reply h filament_merger_control request_set_motor_speed (speed n))

  abbrev pub feeding_accepted : ℕ → List Effect → Bool
  feeding_accepted n h =
      accepted
        (env.reply (merger_asked_speed n h) filament_merger_control request_start_feeding nothing)

  abbrev pub speed_accepted_by_coil : ℕ → List Effect → Bool
  speed_accepted_by_coil n h =
      accepted (
        env.reply (merger_asked_feeding n h) filament_coil_control request_set_motor_speed
          (speed n))

  abbrev pub coil_start_accepted : Bool → ℕ → List Effect → Bool
  coil_start_accepted tension n h = accepted (
      env.reply (coil_asked_speed n h) filament_coil_control request_start_coil
        (tension_control tension))

  -- ErrorOccurred is pushed, and these calls were made.
  abbrev pub FailsAfter : List Effect → World Fields Event → World Fields Event → Type 0
  FailsAfter calls w w' =
      (w'.queue ≡ (EventQueue.push Event.error_occurred w.queue).0) × (w'.history ≡ calls)

  -- How a start of the machine ends, by the answers of the two units.
  abbrev pub StartEnds : Event → World Fields Event → World Fields Event → Type 0
  StartEnds event w w' =
      let n = starting_speed event w.fields.config in
      let tension = not (is_start_heatless event) in
      let h = w.history in
      (w'.fields
        ≡ record (w.fields) { merger_running = false; coil_running = false; motor_speed = n })
      × (((speed_accepted_by_merger n h ≡ false) × FailsAfter (merger_asked_speed n h) w w')
          ⊎ ((speed_accepted_by_merger n h ≡ true)
              × (((feeding_accepted n h ≡ false) × FailsAfter (merger_asked_feeding n h) w w')
                  ⊎ ((feeding_accepted n h ≡ true)
                      × (((speed_accepted_by_coil n h ≡ false)
                            × FailsAfter (coil_asked_speed n h) w w')
                          ⊎ ((speed_accepted_by_coil n h ≡ true)
                              × (((coil_start_accepted tension n h ≡ false)
                                    × FailsAfter (coil_asked_start tension n h) w w')
                                  ⊎ ((coil_start_accepted tension n h ≡ true)
                                      × (w'.queue ≡ w.queue)
                                      × (w'.history
                                          ≡ notified notify_starting nothing
                                            ∷ coil_asked_start tension n h)))))))))

  -- Starting the machine clears both running flags and sets the speed: zero for a heatless start,
  -- the configured default otherwise. The merger control is asked for the speed and to start feeding,
  -- then the coil control for the speed and to start, with tension control except for a heatless start.
  -- The first of the four requests that is not answered with success is the last call, and
  -- ErrorOccurred is pushed; if all four are answered with success, Starting is notified after them
  -- and no event is pushed.
  pub start_machine_outcome :
      (event : Event) (s : State) (w : World Fields Event)
      → StartEnds event w (start_machine env event s w).1
  unfolding start_machine
  start_machine_outcome event s w = ground arith

-- What ErrorOccurred leaves: the state Error, and unless it was the state before, both units are
-- asked to switch off, the merger first, and the error is notified.
abbrev pub error_history : State → List Effect → List Effect
error_history State.error h = h
error_history _ h =
    notified notify_error_occurred nothing
    ∷ sent filament_coil_control request_switch_off nothing
    ∷ sent filament_merger_control request_switch_off nothing
    ∷ h

abbrev pub off_history : State → List Effect → List Effect
off_history State.off h = h
off_history _ h =
    notified notify_switched_off nothing
    ∷ sent filament_coil_control request_switch_off nothing
    ∷ sent filament_merger_control request_switch_off nothing
    ∷ h

module _ (env : Environment) where
  -- In every state, whatever the units answer: ErrorOccurred leads to Error and SwitchOff to Off.
  -- Unless the machine was there already, both units are asked to switch off, the merger first,
  -- and ErrorOccurred or SwitchedOff is notified; no event is pushed and no field changes.
  pub error_and_switch_off_lem :
      (s : State) (w : World Fields Event)
      → (process_event (transitions env) Event.error_occurred (record { state = s; world = w })
          ≡ some (record {
            state = State.error;
            world = record w { history = error_history s w.history };
          }))
        × (process_event (transitions env) Event.switch_off (record { state = s; world = w })
            ≡ some (record {
              state = State.off;
              world = record w { history = off_history s w.history };
            }))
  unfolding process_event transitions handle_error switch_off
  error_and_switch_off_lem State.off w = (refl, refl)
  error_and_switch_off_lem _ w = (refl, refl)
