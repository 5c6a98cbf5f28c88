-- ===== src/Framework/Stated/Preserve.antt =====
-- How an invariant of the single transitions becomes one of `processNextEvent`.
use sugo_machine_application.Prelude.{List, Option, none, some}
use sugo_machine_application.Framework.EventQueue.{EventQueue, pull}
use sugo_machine_application.Framework.StateMachine.{
  Enumerated, Transition, Machine, process_event, process_front, process_next_event, with_queue,
  outcome, after,
}

-- What holds of the machine after an event, if the event is known.
abbrev pub Holds {ℓ} : {S D E : Type 0} → (Machine S D E → Type ℓ) → Option (Machine S D E) → Type ℓ
Holds P none = Unit
Holds P (some m) = P m

module _ {ℓ} {S D E : Type 0} ⦃states : Enumerated S⦄ ⦃events : Enumerated E⦄
    (table : List (Transition S D E)) (P : Machine S D E → Type ℓ)
    (any_queue : (m : Machine S D E) (q : EventQueue E) → P m → P (with_queue m q))
    (each : (e : E) (m : Machine S D E) → P m → Holds P (process_event table e m)) where
  outcome-keeps :
      (e : E) (m : Machine S D E) (r : Option (Machine S D E))
      → P m
      → Holds P r
      → P (after (outcome e m r))
  outcome-keeps e m none h k = h
  outcome-keeps e m (some m') h k = k

  front-keeps :
      (front : Option E) (m : Machine S D E) → P m → P (after (process_front table m front))
  unfolding process_front
  front-keeps none m h = h
  front-keeps (some e) m h = outcome-keeps e m (process_event table e m) h (each e m h)

  -- An invariant that does not look at the queue and that every transition keeps.
  pub process_next_event-keeps :
      (arrivals : List E) (m : Machine S D E)
      → P m
      → P (after (process_next_event table arrivals m))
  unfolding process_next_event
  process_next_event-keeps arrivals m h =
      front-keeps (pull arrivals m.world.queue).1 _ (any_queue m (pull arrivals m.world.queue).0 h)
