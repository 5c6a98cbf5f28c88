-- ===== src/Framework/Stated.antt =====
-- libs/ServiceComponent/include/ServiceComponent/StatedServiceComponent.hpp: how messages
-- reach the state machine of a component.
pub mod Preserve
pub mod Requests
use sugo_machine_application.Prelude.{
  ℕ, ◌≡◌, refl, Bool, true, false, if◌then◌else◌, List, [], ◌∷◌, ◌++◌, Option, none, some,
}
use sugo_machine_application.Framework.Message.{
  Message, Response, Payload, unsupported_request, state, nothing, create_success_response,
  create_error_response,
}
use sugo_machine_application.Framework.World.{World, Action, push_event, ◌>>=◌, ◌>>◌, pure}
use sugo_machine_application.Framework.StateMachine.{
  Enumerated, Transition, Machine, Processed, process_next_event, after,
}

module _ {D E : Type 0} where
  -- `handleEventMessage`: a response tells whether the event went into the queue.
  unfoldable pub handle_event_message : Message → E → Action D E Response
  unfolding push_event create_success_response create_error_response
  handle_event_message message e = do
    pushed ← push_event e
    pure (
        if pushed
        then create_success_response message nothing
        else create_error_response message unsupported_request)

-- `handleStateRequest`: the number of the current state.
unfoldable pub handle_state_request :
    {S D E : Type 0} ⦃states : Enumerated S⦄ → Message → Machine S D E → Response
unfolding create_success_response
handle_state_request ⦃states⦄ message m =
    create_success_response message (state (states.number m.state))

module _ {S D E : Type 0} where
  -- Code that runs on the world of a machine and leaves its state alone.
  abbrev pub on_world : {A : Type 0} → Action D E A → Machine S D E → Machine S D E
  on_world action m = record m { world = (action m.world).1 }

  -- The life of a component is a sequence of inputs, each one step under the queue's mutex.
  unfoldable pub run :
      {I : Type 0} → (I → Machine S D E → Machine S D E) → List I → Machine S D E → Machine S D E
  run step [] m = m
  run step (i ∷ is) m = run step is (step i m)

  pub run_inv :
      {I : Type 0} (step : I → Machine S D E → Machine S D E) (P : Machine S D E → Type 0)
      → ((i : I) (m : Machine S D E) → P m → P (step i m))
      → (is : List I) (m : Machine S D E) → P m
      → P (run step is m)
  unfolding run
  run_inv step P keep [] m h = h
  run_inv step P keep (i ∷ is) m h = run_inv step P keep is (step i m) (keep i m h)

  pub run-append :
      {I : Type 0} (step : I → Machine S D E → Machine S D E) (is js : List I) (m : Machine S D E)
      → run step (is ++ js) m ≡ run step js (run step is m)
  unfolding run
  run-append step [] js m = refl
  run-append step (i ∷ is) js m = run-append step is js (step i m)
