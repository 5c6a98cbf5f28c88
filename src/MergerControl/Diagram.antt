-- ===== src/MergerControl/Diagram.antt =====
-- The states and events of `FilamentMergerControl` in
-- libs/MachineServiceComponent/conf/MachineServiceComponent.yaml.
use sugo_machine_application.Prelude.{ℕ, ◌≡◌, refl, List, [], ◌∷◌, Option, none, some, get_elem?}
use sugo_machine_application.Framework.StateMachine.{Enumerated}

pub data State : Type 0 where
  off initialization heating_up heated_up merger_stopped starting_motor running error : State

abbrev all_states : List State
all_states =
    off ∷ initialization ∷ heating_up ∷ heated_up ∷ merger_stopped ∷ starting_motor ∷ running
    ∷ error ∷ []

abbrev state_number : State → ℕ
state_number off = 0
state_number initialization = 1
state_number heating_up = 2
state_number heated_up = 3
state_number merger_stopped = 4
state_number starting_motor = 5
state_number running = 6
state_number error = 7

pub state_round_trip : (s : State) → get_elem? all_states (state_number s) ≡ some s
state_round_trip off = refl
state_round_trip _ = refl

instance abbrev pub state_numbers : Enumerated State
state_numbers = record {
  number = state_number;
  from_number = get_elem? all_states;
  round_trip = state_round_trip;
}

pub data Event : Type 0 where
  switch_off switch_on switch_on_succeeded start_heating heating_up_succeeded start_motor : Event
  start_motor_succeeded stop_motor_succeeded stop error_occurred : Event

abbrev all_events : List Event
all_events =
    switch_off ∷ switch_on ∷ switch_on_succeeded ∷ start_heating ∷ heating_up_succeeded
    ∷ start_motor ∷ start_motor_succeeded ∷ stop_motor_succeeded ∷ stop ∷ error_occurred ∷ []

abbrev event_number : Event → ℕ
event_number switch_off = 0
event_number switch_on = 1
event_number switch_on_succeeded = 2
event_number start_heating = 3
event_number heating_up_succeeded = 4
event_number start_motor = 5
event_number start_motor_succeeded = 6
event_number stop_motor_succeeded = 7
event_number stop = 8
event_number error_occurred = 9

pub event_round_trip : (e : Event) → get_elem? all_events (event_number e) ≡ some e
event_round_trip switch_off = refl
event_round_trip _ = refl

instance abbrev pub event_numbers : Enumerated Event
event_numbers = record {
  number = event_number;
  from_number = get_elem? all_events;
  round_trip = event_round_trip;
}

-- The transition diagram: the next state, or none where the event is not known.
unfoldable pub next_state : State → Event → Option State
next_state off switch_on = some initialization
next_state initialization switch_off = some off
next_state heating_up switch_off = some off
next_state heated_up switch_off = some off
next_state merger_stopped switch_off = some off
next_state starting_motor switch_off = some off
next_state running switch_off = some off
next_state error switch_off = some off
next_state off switch_off = some off
next_state off error_occurred = some error
next_state initialization error_occurred = some error
next_state heating_up error_occurred = some error
next_state heated_up error_occurred = some error
next_state merger_stopped error_occurred = some error
next_state starting_motor error_occurred = some error
next_state running error_occurred = some error
next_state error error_occurred = some error
next_state initialization switch_on_succeeded = some merger_stopped
next_state merger_stopped start_heating = some heating_up
next_state heating_up heating_up_succeeded = some heated_up
next_state heating_up stop = some merger_stopped
next_state starting_motor stop = some merger_stopped
next_state running stop = some merger_stopped
next_state heated_up start_motor = some starting_motor
next_state merger_stopped start_motor = some starting_motor
next_state merger_stopped stop = some merger_stopped
next_state starting_motor start_motor_succeeded = some running
next_state _ _ = none
