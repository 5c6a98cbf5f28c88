-- ===== src/UserInterface/Diagram.antt =====
-- The states and events of `UserInterfaceControl` in
-- libs/MachineServiceComponent/conf/MachineServiceComponent.yaml.
use sugo_machine_application.Prelude.{ℕ, ◌≡◌, refl, List, [], ◌∷◌, Option, some, get_elem?}
use sugo_machine_application.Framework.StateMachine.{Enumerated}

pub data State : Type 0 where
  active : State

abbrev all_states : List State
all_states = active ∷ []

abbrev state_number : State → ℕ
state_number active = 0

pub state_round_trip : (s : State) → get_elem? all_states (state_number s) ≡ some s
state_round_trip active = refl

instance abbrev pub state_numbers : Enumerated State
state_numbers = record {
  number = state_number;
  from_number = get_elem? all_states;
  round_trip = state_round_trip;
}

pub data Event : Type 0 where
  machine_stopped machine_heating_up machine_starting machine_running machine_switched_off : Event
  machine_error : Event

abbrev all_events : List Event
all_events =
    machine_stopped ∷ machine_heating_up ∷ machine_starting ∷ machine_running ∷ machine_switched_off
    ∷ machine_error ∷ []

abbrev event_number : Event → ℕ
event_number machine_stopped = 0
event_number machine_heating_up = 1
event_number machine_starting = 2
event_number machine_running = 3
event_number machine_switched_off = 4
event_number machine_error = 5

pub event_round_trip : (e : Event) → get_elem? all_events (event_number e) ≡ some e
event_round_trip machine_stopped = refl
event_round_trip _ = refl

instance abbrev pub event_numbers : Enumerated Event
event_numbers = record {
  number = event_number;
  from_number = get_elem? all_events;
  round_trip = event_round_trip;
}

-- The transition diagram: the next state, or none where the event is not known.
unfoldable pub next_state : State → Event → Option State
next_state active machine_stopped = some active
next_state active machine_heating_up = some active
next_state active machine_starting = some active
next_state active machine_running = some active
next_state active machine_switched_off = some active
next_state active machine_error = some active
