-- ===== src/MachineControl/Lifecycle/Phases.antt =====
-- The inputs of each phase of the machine control, and what it expects of its environment.
use sugo_machine_application.Prelude.{◌≡◌, Bool, true, false, List, [], ◌∷◌, ◌++◌, some}
use sugo_machine_application.Framework.Message.{
  Message, Component, RequestTopic, Payload, Response, success,
}
use sugo_machine_application.Framework.World.{Environment, Effect}
use sugo_machine_application.MachineControl.Diagram.{State, Event, state_numbers, event_numbers}
use sugo_machine_application.MachineControl.{
  Config, ControlMachine, Input, event_message, merger_running_notification,
  merger_stopped_notification, coil_running_notification, coil_stopped_notification, event_round,
}

-- Every request succeeds.
abbrev pub Obedient : Environment → Type 0
Obedient env =
    (h : List Effect) (c : Component) (t : RequestTopic) (p : Payload)
    → (r : Response) × (env.reply h c t p ≡ some r) × (r.result ≡ success)

-- The messages and the rounds of the event thread in each phase.
abbrev pub power_on_inputs : Message → List Input
power_on_inputs m = event_message m Event.switch_on ∷ event_round ∷ event_round ∷ []

abbrev pub warm_up_inputs : Message → List Input
warm_up_inputs m = event_message m Event.start ∷ event_round ∷ []

abbrev pub start_up_inputs : Message → List Input
start_up_inputs m = event_message m Event.merger_heated_up ∷ event_round ∷ []

-- The two units report in either order.
abbrev pub come_up_inputs : Message → Bool → List Input
come_up_inputs m true =
    coil_running_notification m
    ∷ event_round
    ∷ merger_running_notification m
    ∷ event_round
    ∷ event_round
    ∷ []
come_up_inputs m false =
    merger_running_notification m
    ∷ event_round
    ∷ coil_running_notification m
    ∷ event_round
    ∷ event_round
    ∷ []

abbrev pub wind_down_inputs : Message → Bool → List Input
wind_down_inputs m true =
    event_message m Event.stop
    ∷ event_round
    ∷ coil_stopped_notification m
    ∷ event_round
    ∷ merger_stopped_notification m
    ∷ event_round
    ∷ event_round
    ∷ []
wind_down_inputs m false =
    event_message m Event.stop
    ∷ event_round
    ∷ merger_stopped_notification m
    ∷ event_round
    ∷ coil_stopped_notification m
    ∷ event_round
    ∷ event_round
    ∷ []

-- From off to running, and from running to stopped.
abbrev pub start_inputs : Message → Bool → List Input
start_inputs m coil_first =
    power_on_inputs m ++ (warm_up_inputs m ++ (start_up_inputs m ++ come_up_inputs m coil_first))

-- A machine that was off without an error runs at the default speed.
abbrev pub running_at : Config → List Effect → ControlMachine
running_at config h = record {
  state = State.running;
  world = record {
    fields = record {
      config = config;
      merger_running = true;
      coil_running = true;
      motor_speed = config.speed_default;
    };
    queue = record { events = []; max_size = 10 };
    history = h;
  };
}
