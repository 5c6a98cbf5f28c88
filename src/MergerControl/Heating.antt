-- ===== src/MergerControl/Heating.antt =====
-- The two notifications of the heaters that make the merger control heated up, and the notification
-- of the feeder motor that it does not expect.
use sugo_machine_application.Prelude.{
  ℕ, ◌≡◌, refl, Bool, true, false, not, ◌||◌, ◌&&◌, List, [], ◌∷◌, arith, if◌then◌else◌, ◌<◌,
}
use sugo_machine_application.Framework.EventQueue
use sugo_machine_application.Framework.Message.{Message}
use sugo_machine_application.Framework.World.{World, Environment, Effect}
use sugo_machine_application.Framework.StateMachine.{unknown_event, process_next_event}
use sugo_machine_application.Framework.Stated.{handle_event_message, on_world}
use sugo_machine_application.MergerControl.Diagram.{State, Event, state_numbers, event_numbers}
use sugo_machine_application.MergerControl.{
  Fields, MergerMachine, transitions, cold, on_pre_heater_temperature_range_reached,
  on_merger_heater_temperature_range_reached,
}

-- Which heater reports that its temperature range is reached, true for the pre-heater.
abbrev pub report : Message → Bool → World Fields Event → World Fields Event
report m true w = (on_pre_heater_temperature_range_reached m w).1
report m false w = (on_merger_heater_temperature_range_reached m w).1

pub report_all : Message → List Bool → World Fields Event → World Fields Event
report_all m [] w = w
report_all m (r ∷ rs) w = report_all m rs (report m r w)

abbrev pub any_pre : List Bool → Bool
any_pre [] = false
any_pre (r ∷ rs) = r || any_pre rs

abbrev pub any_merger : List Bool → Bool
any_merger [] = false
any_merger (r ∷ rs) = not r || any_merger rs

-- Whether the reports complete what the fields still miss.
abbrev completes : Fields → List Bool → Bool
completes f rs =
    not (f.pre_heater_reached && f.merger_heater_reached)
    && ((f.pre_heater_reached || any_pre rs) && (f.merger_heater_reached || any_merger rs))

abbrev queue_after : Bool → World Fields Event → EventQueue.EventQueue Event
queue_after completed w =
    if completed then (EventQueue.push Event.heating_up_succeeded w.queue).0 else w.queue

completes_nothing : (f : Fields) → completes f [] ≡ false
completes_nothing f = ground arith

report_all-queue :
    (m : Message) (rs : List Bool) (w : World Fields Event)
    → (report_all m rs w).queue ≡ queue_after (completes w.fields rs) w
unfolding report_all on_pre_heater_temperature_range_reached
    on_merger_heater_temperature_range_reached handle_event_message
report_all-queue m [] w = rw (completes_nothing w.fields) refl
report_all-queue m (true ∷ rs) w = ground (arith, report_all-queue m rs (report m true w))
report_all-queue m (false ∷ rs) w = ground (arith, report_all-queue m rs (report m false w))

-- From the start of heating, when no heater has reached its range, and whatever the order and the
-- number of the heaters' reports: the event HeatingUpSucceeded is pushed once if both heaters
-- reported, and not at all if one of them did not.
pub report_all-queue_from_cold :
    (m : Message) (rs : List Bool) (w : World Fields Event)
    → w.fields ≡ cold
    → (report_all m rs w).queue ≡ (
        if any_pre rs && any_merger rs
        then (EventQueue.push Event.heating_up_succeeded w.queue).0
        else w.queue)
report_all-queue_from_cold m rs w h = rw (report_all-queue m rs w, h) refl

-- In every state of the merger control, the notification that the feeder motor has stopped is
-- accepted by an empty queue that has room for it, and the next event round then finds no
-- transition for it: it reports an unknown event.
pub motor_stopped_notification_unknown :
    (env : Environment) (message : Message) (s : State) (f : Fields) (h : List Effect) (size : ℕ)
    → 1 < size
    → let m : MergerMachine = record {
      state = s;
      world = record { fields = f; queue = record { events = []; max_size = size }; history = h };
    } in
      process_next_event
        (transitions env)
        []
        (on_world (handle_event_message message Event.stop_motor_succeeded) m)
      ≡ unknown_event Event.stop_motor_succeeded m
unfolding process_next_event handle_event_message transitions
motor_stopped_notification_unknown env message s f h size room = ground arith
