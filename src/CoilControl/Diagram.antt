-- ===== src/CoilControl/Diagram.antt =====
-- The states and events of `FilamentCoilControl` in
-- libs/MachineServiceComponent/conf/MachineServiceComponent.yaml.
use sugo_machine_application.Prelude.{ℕ, ◌≡◌, refl, List, [], ◌∷◌, Option, none, some, get_elem?}
use sugo_machine_application.Framework.StateMachine.{Enumerated}

pub data State : Type 0 where
  off initialization motor_stopped starting_motor stopping_motor running pausing paused : State
  error : State

abbrev all_states : List State
all_states =
    off ∷ initialization ∷ motor_stopped ∷ starting_motor ∷ stopping_motor ∷ running ∷ pausing
    ∷ paused ∷ error ∷ []

abbrev state_number : State → ℕ
state_number off = 0
state_number initialization = 1
state_number motor_stopped = 2
state_number starting_motor = 3
state_number stopping_motor = 4
state_number running = 5
state_number pausing = 6
state_number paused = 7
state_number error = 8

pub state_round_trip : (s : State) → get_elem? all_states (state_number s) ≡ some s
state_round_trip off = refl
state_round_trip _ = refl

instance abbrev pub state_numbers : Enumerated State
state_numbers = record {
  number = state_number;
  from_number = get_elem? all_states;
  round_trip = state_round_trip;
}

pub data Event : Type 0 where
  switch_on switch_on_succeeded switch_off start_motor start_motor_succeeded stop_motor : Event
  stop_motor_succeeded tension_too_low tension_too_high tension_overloaded error_occurred : Event

abbrev all_events : List Event
all_events =
    switch_on ∷ switch_on_succeeded ∷ switch_off ∷ start_motor ∷ start_motor_succeeded ∷ stop_motor
    ∷ stop_motor_succeeded ∷ tension_too_low ∷ tension_too_high ∷ tension_overloaded
    ∷ error_occurred ∷ []

abbrev event_number : Event → ℕ
event_number switch_on = 0
event_number switch_on_succeeded = 1
event_number switch_off = 2
event_number start_motor = 3
event_number start_motor_succeeded = 4
event_number stop_motor = 5
event_number stop_motor_succeeded = 6
event_number tension_too_low = 7
event_number tension_too_high = 8
event_number tension_overloaded = 9
event_number error_occurred = 10

pub event_round_trip : (e : Event) → get_elem? all_events (event_number e) ≡ some e
event_round_trip switch_on = refl
event_round_trip _ = refl

instance abbrev pub event_numbers : Enumerated Event
event_numbers = record {
  number = event_number;
  from_number = get_elem? all_events;
  round_trip = event_round_trip;
}

-- The transition diagram: the next state, or none where the event is not known.
unfoldable pub next_state : State → Event → Option State
next_state off switch_on = some initialization
next_state initialization switch_off = some off
next_state motor_stopped switch_off = some off
next_state starting_motor switch_off = some off
next_state stopping_motor switch_off = some off
next_state running switch_off = some off
next_state pausing switch_off = some off
next_state paused switch_off = some off
next_state error switch_off = some off
next_state off switch_off = some off
next_state off error_occurred = some error
next_state initialization error_occurred = some error
next_state motor_stopped error_occurred = some error
next_state starting_motor error_occurred = some error
next_state stopping_motor error_occurred = some error
next_state running error_occurred = some error
next_state pausing error_occurred = some error
next_state paused error_occurred = some error
next_state error error_occurred = some error
next_state initialization switch_on_succeeded = some motor_stopped
next_state motor_stopped start_motor = some starting_motor
next_state motor_stopped stop_motor = some motor_stopped
next_state starting_motor stop_motor = some motor_stopped
next_state starting_motor start_motor_succeeded = some running
next_state running stop_motor = some stopping_motor
next_state stopping_motor stop_motor = some stopping_motor
next_state stopping_motor stop_motor_succeeded = some motor_stopped
next_state running tension_too_high = some running
next_state running tension_too_low = some running
next_state running tension_overloaded = some pausing
next_state pausing tension_overloaded = some pausing
next_state pausing stop_motor_succeeded = some paused
next_state paused tension_overloaded = some paused
next_state paused tension_too_high = some starting_motor
next_state paused stop_motor = some motor_stopped
next_state _ _ = none
