-- ===== src/Framework/EventQueue.antt =====
-- libs/ServiceComponent/include/ServiceComponent/EventQueue.hpp: the bounded event queue.
-- The mutex makes each operation one step. `pull` on an empty queue first waits for a
-- notification, after which the queue may be filled or still empty: what others put in while
-- it waits is an argument.
pub mod Fifo
use sugo_machine_application.Prelude.{
  ℕ, ◌+◌, ◌<◌, ◌≤◌, ◌≡◌, refl, Bool, true, false, ◌==◌, if◌then◌else◌, List, [], ◌∷◌, ◌++◌, length,
  Option, none, some,
}

pub record EventQueue (E : Type 0) : Type 0 where
  pub events : List E
  pub max_size : ℕ

abbrev pub default_queue_size : ℕ
default_queue_size = 10

module _ {E : Type 0} where
  unfoldable pub empty_queue : ℕ → EventQueue E
  empty_queue max_size = record { events = []; max_size = max_size }

  -- The size test compares with the size after the push.
  unfoldable pub push : E → EventQueue E → EventQueue E × Bool
  push event q =
      if q.max_size == length q.events + 1
      then (q, false)
      else (record q { events = q.events ++ event ∷ [] }, true)

  unfoldable pub is_empty : EventQueue E → Bool
  is_empty q = elim q.events [ [] ↦ true | e ∷ es ↦ false ]

  abbrev take_front : List E → EventQueue E → EventQueue E × Option E
  take_front [] q = (q, none)
  take_front (e ∷ es) q = (record q { events = es }, some e)

  -- `arrivals` is what the queue holds when a wait on an empty queue ends.
  unfoldable pub pull : List E → EventQueue E → EventQueue E × Option E
  unfolding is_empty
  pull arrivals q =
      if is_empty q
      then take_front arrivals (record q { events = arrivals })
      else take_front q.events q

  unfoldable pub reset : EventQueue E → EventQueue E
  reset q = record q { events = [] }
