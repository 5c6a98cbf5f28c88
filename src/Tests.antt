-- ===== src/Tests.antt =====
-- Concrete environments and messages, and the runs of the code on them.
mod Machine
mod Units
mod Drives
mod Queues
mod Broker
mod Motors
mod Sensors
mod Gateway
use sugo_machine_application.Prelude.{true, false, some, none, ◌∷◌, []}
use sugo_machine_application.Prelude.Int.{pos}
use sugo_machine_application.Framework.Message.{Message, Response, success, nothing}
use sugo_machine_application.Framework.World.{Environment}

abbrev pub request : Message
request = record { header = record { id = 7; sequence = 1 }; payload = nothing }

abbrev pub accepted : Response
accepted = record {
  header = record { id = 7; sequence = 1 };
  result = success;
  error = none;
  payload = nothing;
}

-- Every request and every call succeeds, and it is 25 degrees warm.
abbrev pub obedient_environment : Environment
obedient_environment = record {
  reply = λ h c t p. some accepted;
  hardware = λ h c. true;
  sensor = λ h. pos 25;
}

-- Nothing comes through and no call succeeds.
abbrev pub dead_environment : Environment
dead_environment = record { reply = λ h c t p. none; hardware = λ h c. false; sensor = λ h. pos 25 }
