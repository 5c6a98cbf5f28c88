-- ===== src/MachineControl/Transitions.antt =====
-- The generated transition table of the machine control against the transition diagram.
use sugo_machine_application.Prelude.{◌≡◌, refl}
use sugo_machine_application.Framework.World.{World, Environment}
use sugo_machine_application.Framework.StateMachine.{process_event, state_of}
use sugo_machine_application.MachineControl.Diagram.{
  State, Event, next_state, state_numbers, event_numbers,
}
use sugo_machine_application.MachineControl.{Fields, transitions}

module _ (env : Environment) (w : World Fields Event) where
  -- In every world, the generated transition table takes each event in each state to the next state
  -- of the diagram, and knows exactly the events that the diagram knows there.
  pub machine_transitions-next_state :
      (s : State) (e : Event)
      → state_of (process_event (transitions env) e (record { state = s; world = w }))
        ≡ next_state s e
  unfolding process_event transitions next_state
  machine_transitions-next_state State.off Event.switch_off = refl
  machine_transitions-next_state State.initialization Event.switch_off = refl
  machine_transitions-next_state State.stopped Event.switch_off = refl
  machine_transitions-next_state State.heating_up Event.switch_off = refl
  machine_transitions-next_state State.starting Event.switch_off = refl
  machine_transitions-next_state State.running Event.switch_off = refl
  machine_transitions-next_state State.stopping Event.switch_off = refl
  machine_transitions-next_state State.error Event.switch_off = refl
  machine_transitions-next_state _ _ = refl
