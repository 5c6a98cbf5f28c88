-- ===== src/TensionSensor/Diagram.antt =====
-- The states and events of `FilamentTensionSensor` in
-- libs/MachineServiceComponent/conf/MachineServiceComponent.yaml.
use sugo_machine_application.Prelude.{ℕ, ◌≡◌, refl, List, [], ◌∷◌, Option, none, some, get_elem?}
use sugo_machine_application.Framework.StateMachine.{Enumerated}

pub data State : Type 0 where
  off initialization running error : State

abbrev all_states : List State
all_states = off ∷ initialization ∷ running ∷ error ∷ []

abbrev state_number : State → ℕ
state_number off = 0
state_number initialization = 1
state_number running = 2
state_number error = 3

pub state_round_trip : (s : State) → get_elem? all_states (state_number s) ≡ some s
state_round_trip off = refl
state_round_trip _ = refl

instance abbrev pub state_numbers : Enumerated State
state_numbers = record {
  number = state_number;
  from_number = get_elem? all_states;
  round_trip = state_round_trip;
}

pub data Event : Type 0 where
  switch_on switch_on_succeeded switch_on_failed switch_off error_occurred : Event

abbrev all_events : List Event
all_events = switch_on ∷ switch_on_succeeded ∷ switch_on_failed ∷ switch_off ∷ error_occurred ∷ []

abbrev event_number : Event → ℕ
event_number switch_on = 0
event_number switch_on_succeeded = 1
event_number switch_on_failed = 2
event_number switch_off = 3
event_number error_occurred = 4

pub event_round_trip : (e : Event) → get_elem? all_events (event_number e) ≡ some e
event_round_trip switch_on = refl
event_round_trip _ = refl

instance abbrev pub event_numbers : Enumerated Event
event_numbers = record {
  number = event_number;
  from_number = get_elem? all_events;
  round_trip = event_round_trip;
}

-- The transition diagram: the next state, or none where the event is not known.
unfoldable pub next_state : State → Event → Option State
next_state off switch_on = some initialization
next_state initialization switch_off = some off
next_state running switch_off = some off
next_state error switch_off = some off
next_state off switch_off = some off
next_state off error_occurred = some error
next_state initialization error_occurred = some error
next_state running error_occurred = some error
next_state error error_occurred = some error
next_state initialization switch_on_succeeded = some running
next_state _ _ = none
