-- ===== src/Framework/StateMachine.antt =====
-- libs/ServiceComponent/include/ServiceComponent/StateMachine.hpp: the table-driven machine.
-- States and events are enumerations, compared by their numbers.
pub mod FirstMatch
use sugo_machine_application.Prelude.{
  ℕ, ◌≡◌, refl, ap, Bool, true, false, ◌&&◌, ◌==◌, if◌then◌else◌, List, [], ◌∷◌, Option, none, some,
}
use sugo_machine_application.Framework.EventQueue
use sugo_machine_application.Framework.EventQueue.{EventQueue}
use sugo_machine_application.Framework.World.{World, Action}

pub record Enumerated (A : Type 0) : Type 0 where
  pub number : A → ℕ
  pub from_number : ℕ → Option A
  pub round_trip : (a : A) → from_number (number a) ≡ some a

-- An absent action or guard is a null function.
pub record Transition (S D E : Type 0) : Type 0 where
  pub state : S
  pub next : S
  pub event : E
  pub action : Option (E → S → Action D E (Unit {0}))
  pub guard : Option (World D E → Bool)

pub record Machine (S D E : Type 0) : Type 0 where
  pub state : S
  pub world : World D E

pub data Processed (S D E : Type 0) : Type 0 where
  no_event : Machine S D E → Processed S D E
  -- The code reports a fatal error and asserts.
  unknown_event : E → Machine S D E → Processed S D E
  processed : Machine S D E → Processed S D E

abbrev pub passes : {D E : Type 0} → Option (World D E → Bool) → World D E → Bool
passes none w = true
passes (some g) w = g w

module _ {S D E : Type 0} where
  abbrev pub with_queue : Machine S D E → EventQueue E → Machine S D E
  with_queue m q = record m { world = record (m.world) { queue = q } }

  abbrev pub state_of : Option (Machine S D E) → Option S
  state_of none = none
  state_of (some m) = some m.state

  -- A row of a table with no guard, as the generated tables have them.
  abbrev pub row : S → S → E → Option (E → S → Action D E (Unit {0})) → Transition S D E
  row state next event action = record {
    state = state;
    next = next;
    event = event;
    action = action;
    guard = none;
  }

  abbrev pub act : Option (E → S → Action D E (Unit {0})) → E → S → World D E → World D E
  act none e s w = w
  act (some a) e s w = (a e s w).1

module _ {S D E : Type 0} ⦃states : Enumerated S⦄ ⦃events : Enumerated E⦄ where
  unfoldable pub matches : Machine S D E → E → Transition S D E → Bool
  matches m e t =
      states.number m.state == states.number t.state
      && events.number e == events.number t.event
      && passes t.guard m.world

  unfoldable pub find_transition :
      Machine S D E → E → List (Transition S D E) → Option (Transition S D E)
  unfolding matches
  find_transition m e [] = none
  find_transition m e (t ∷ ts) = if matches m e t then some t else find_transition m e ts

  -- The state changes first; the action is given the event and the new state.
  unfoldable pub fire : E → Transition S D E → Machine S D E → Machine S D E
  fire e t m = record { state = t.next; world = act t.action e t.next m.world }

  unfoldable pub process_event :
      List (Transition S D E) → E → Machine S D E → Option (Machine S D E)
  unfolding find_transition fire
  process_event table e m = elim (find_transition m e table) [
    | none ↦ none
    | some t ↦ some (fire e t m)
  ]

  abbrev pub outcome : E → Machine S D E → Option (Machine S D E) → Processed S D E
  outcome e m none = unknown_event e m
  outcome e m (some m') = processed m'

  -- The part of `processNextEvent` after the pull.
  unfoldable pub process_front :
      List (Transition S D E) → Machine S D E → Option E → Processed S D E
  unfolding process_event
  process_front table m none = no_event m
  process_front table m (some e) = outcome e m (process_event table e m)

  unfoldable pub process_next_event :
      List (Transition S D E) → List E → Machine S D E → Processed S D E
  unfolding EventQueue.pull process_front
  process_next_event table arrivals m =
      let (q, front) = EventQueue.pull arrivals m.world.queue in
      process_front table (with_queue m q) front

  -- The machine after `processNextEvent`, of which an unknown event changes only the queue.
  abbrev pub after : Processed S D E → Machine S D E
  after (no_event m) = m
  after (unknown_event e m) = m
  after (processed m) = m
