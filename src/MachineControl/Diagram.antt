-- ===== src/MachineControl/Diagram.antt =====
-- The states and events of `MachineControl` in
-- libs/MachineServiceComponent/conf/MachineServiceComponent.yaml.
use sugo_machine_application.Prelude.{ℕ, ◌≡◌, refl, List, [], ◌∷◌, Option, none, some, get_elem?}
use sugo_machine_application.Framework.StateMachine.{Enumerated}

pub data State : Type 0 where
  off initialization stopped heating_up starting running stopping error : State

abbrev all_states : List State
all_states =
    off ∷ initialization ∷ stopped ∷ heating_up ∷ starting ∷ running ∷ stopping ∷ error ∷ []

abbrev state_number : State → ℕ
state_number off = 0
state_number initialization = 1
state_number stopped = 2
state_number heating_up = 3
state_number starting = 4
state_number running = 5
state_number stopping = 6
state_number error = 7

pub state_round_trip : (s : State) → get_elem? all_states (state_number s) ≡ some s
state_round_trip off = refl
state_round_trip _ = refl

instance abbrev pub state_numbers : Enumerated State
state_numbers = record {
  number = state_number;
  from_number = get_elem? all_states;
  round_trip = state_round_trip;
}

pub data Event : Type 0 where
  switch_off switch_on switch_on_succeeded start start_heatless merger_heated_up : Event
  starting_succeeded stop stopping_succeeded check_starting_state check_stopping_state : Event
  error_occurred : Event

abbrev all_events : List Event
all_events =
    switch_off ∷ switch_on ∷ switch_on_succeeded ∷ start ∷ start_heatless ∷ merger_heated_up
    ∷ starting_succeeded ∷ stop ∷ stopping_succeeded ∷ check_starting_state ∷ check_stopping_state
    ∷ error_occurred ∷ []

abbrev event_number : Event → ℕ
event_number switch_off = 0
event_number switch_on = 1
event_number switch_on_succeeded = 2
event_number start = 3
event_number start_heatless = 4
event_number merger_heated_up = 5
event_number starting_succeeded = 6
event_number stop = 7
event_number stopping_succeeded = 8
event_number check_starting_state = 9
event_number check_stopping_state = 10
event_number error_occurred = 11

pub event_round_trip : (e : Event) → get_elem? all_events (event_number e) ≡ some e
event_round_trip switch_off = refl
event_round_trip _ = refl

instance abbrev pub event_numbers : Enumerated Event
event_numbers = record {
  number = event_number;
  from_number = get_elem? all_events;
  round_trip = event_round_trip;
}

-- The transition diagram: the next state, or none where the event is not known.
unfoldable pub next_state : State → Event → Option State
next_state off switch_on = some initialization
next_state initialization switch_off = some off
next_state stopped switch_off = some off
next_state heating_up switch_off = some off
next_state starting switch_off = some off
next_state running switch_off = some off
next_state stopping switch_off = some off
next_state error switch_off = some off
next_state off switch_off = some off
next_state off error_occurred = some error
next_state initialization error_occurred = some error
next_state stopped error_occurred = some error
next_state heating_up error_occurred = some error
next_state starting error_occurred = some error
next_state running error_occurred = some error
next_state stopping error_occurred = some error
next_state error error_occurred = some error
next_state initialization switch_on_succeeded = some stopped
next_state stopped start = some heating_up
next_state stopped start_heatless = some starting
next_state heating_up merger_heated_up = some starting
next_state heating_up stop = some stopping
next_state starting check_starting_state = some starting
next_state starting starting_succeeded = some running
next_state running starting_succeeded = some running
next_state starting stop = some stopping
next_state running stop = some stopping
next_state stopping check_stopping_state = some stopping
next_state stopping stopping_succeeded = some stopped
next_state stopped check_stopping_state = some stopped
next_state _ _ = none
