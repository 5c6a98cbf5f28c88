-- ===== src/TensionSensor/Transitions.antt =====
-- The generated transition table of the tension sensor against the transition diagram.
use sugo_machine_application.Prelude.{◌≡◌, refl}
use sugo_machine_application.Framework.World.{World, Environment}
use sugo_machine_application.Framework.StateMachine.{process_event, state_of}
use sugo_machine_application.TensionSensor.Diagram.{
  State, Event, next_state, state_numbers, event_numbers,
}
use sugo_machine_application.TensionSensor.{Fields, transitions}

module _ (env : Environment) (w : World Fields Event) where
  -- In every world, the generated transition table takes each event in each state to the next state
  -- of the diagram, and knows exactly the events that the diagram knows there.
  pub sensor_transitions-next_state :
      (s : State) (e : Event)
      → state_of (process_event (transitions env) e (record { state = s; world = w }))
        ≡ next_state s e
  unfolding process_event transitions next_state
  sensor_transitions-next_state State.off Event.switch_on = refl
  sensor_transitions-next_state State.initialization Event.switch_on = refl
  sensor_transitions-next_state State.running Event.switch_on = refl
  sensor_transitions-next_state State.error Event.switch_on = refl
  sensor_transitions-next_state _ _ = refl
