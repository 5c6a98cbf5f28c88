-- ===== src/Tests/Queues.antt =====
-- Runs of the queues, of the table search and of the message handlers.
use sugo_machine_application.Prelude.{
  Bool, ltb, ℕ, ◌≡◌, ◌+◌, ◌<◌, ◌⊎◌, ◌++◌, ◌↔◌, false, List, Option, [], ◌∷◌, some, none, arith,
}
use sugo_machine_application.Framework.EventQueue.{EventQueue, empty_queue}
use sugo_machine_application.Framework.EventQueue.Fifo.{pull_all, push_all, pull_all-push_all}
use sugo_machine_application.Framework.Message.{
  Response, machine_control, RequestTopic, success, unsupported_request, nothing, error_reason,
}
use sugo_machine_application.Framework.World.{forward, sent}
use sugo_machine_application.Framework.StateMachine.{Machine, Transition, process_event, fire}
use sugo_machine_application.Framework.StateMachine.FirstMatch.{Selects, process_event-Selects}
use sugo_machine_application.Framework.Stated.{handle_event_message}
use sugo_machine_application.Framework.Stated.Requests.{handle_event_message_lem, forward_lem}
use sugo_machine_application.UserInterface.{Fields, transitions}
use sugo_machine_application.UserInterface.Diagram.{State, Event, state_numbers, event_numbers}
use sugo_machine_application.Tests.{request, obedient_environment, dead_environment}

abbrev full_queue : EventQueue Event
full_queue = record { events = Event.machine_running ∷ Event.machine_error ∷ []; max_size = 3 }

abbrev three : List ℕ
three = 1 ∷ 2 ∷ 3 ∷ []

pull_all_example : pull_all three (push_all three (empty_queue 10)) ≡ three
pull_all_example = pull_all-push_all three 10 (omega arith)

abbrev machine : Machine State Fields Event
machine = record {
  state = State.active;
  world = record {
    fields = record { last_machine_event = Event.machine_stopped; has_callback = false };
    queue = full_queue;
    history = [];
  };
}

process_event_example :
    (process_event (transitions obedient_environment) Event.machine_running machine ≡ some machine)
    ↔ ((t : Transition State Fields Event) × Selects machine Event.machine_running
          (transitions obedient_environment)
          t
        × (machine ≡ fire Event.machine_running t machine))
process_event_example =
    process_event-Selects (transitions obedient_environment) Event.machine_running machine machine

handle_event_message_example :
    let (response, w') = handle_event_message request Event.machine_stopped machine.world in
    (response.header.id ≡ 7)
    × (w'.fields ≡ machine.world.fields)
    × (w'.history ≡ [])
    × (((2 + 1 < 3)
          × (w'.queue.events ≡ full_queue.events ++ Event.machine_stopped ∷ [])
          × (response.result ≡ success)
          × (response.payload ≡ nothing))
        ⊎ ((2 + 1 ≡ 3)
            × (w'.queue ≡ full_queue)
            × (response.result ≡ unsupported_request)
            × (response.payload ≡ error_reason unsupported_request)))
handle_event_message_example =
    handle_event_message_lem request Event.machine_stopped machine.world (omega arith)

abbrev no_answer : Option Response
no_answer = none

forward_example :
    let (response, w') =
      forward dead_environment request machine_control RequestTopic.request_start machine.world in
    (w' ≡ record (machine.world) {
      history = sent machine_control RequestTopic.request_start nothing ∷ [];
    })
    × ((r : Response) → no_answer ≡ some r → response ≡ r)
    × (no_answer ≡ none → response.result ≡ success)
forward_example =
    forward_lem dead_environment request machine_control RequestTopic.request_start machine.world

-- The third component of a group of four does not start.
abbrev starts : ℕ → Bool
starts n = ltb n 3

abbrev bundles : List ℕ
bundles = 1 ∷ 2 ∷ 3 ∷ 4 ∷ []
