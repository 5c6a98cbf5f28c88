-- ===== src/Framework/EventQueue/Fifo.antt =====
-- The queue against its abstract view, a first-in first-out list with one slot less than its size.
use sugo_machine_application.Prelude.{
  ℕ, ◌+◌, ◌<◌, ◌≡◌, ◌⊎◌, refl, true, false, List, [], ◌∷◌, ◌++◌, length, length-append, none, some,
  arith, append-nil, append_assoc,
}
use sugo_machine_application.Framework.EventQueue.{EventQueue, empty_queue, push, pull}

-- Below its size: the size is never reached, one slot stays free.
abbrev pub IsBounded : {E : Type 0} → EventQueue E → Type 0
IsBounded q = length q.events < q.max_size

module _ {E : Type 0} where
  -- A push to a bounded queue is refused and changes nothing if the queue holds one event less than
  -- its size; if it holds fewer, the push puts the event at the end.
  pub push_cases :
      (e : E) (q : EventQueue E)
      → IsBounded q
      → ((length q.events + 1 ≡ q.max_size) × (push e q ≡ (q, false)))
        ⊎ ((length q.events + 1 < q.max_size)
            × (push e q ≡ (record q { events = q.events ++ e ∷ [] }, true)))
  unfolding push
  push_cases e q h = ground arith

  pub push-IsBounded : (e : E) (q : EventQueue E) → IsBounded q → IsBounded (push e q).0
  unfolding push
  push-IsBounded e q h = ground (arith, length-append q.events (e ∷ []))

  -- Accepted pushes.
  pub push_all : List E → EventQueue E → EventQueue E
  push_all [] q = q
  push_all (e ∷ es) q = push_all es (push e q).0

  -- As many pulls as the list is long, when nothing else comes in.
  pub pull_all : List E → EventQueue E → List E
  pull_all [] q = []
  pull_all (_ ∷ n) q = elim (pull [] q).1 [ none ↦ [] | some e ↦ e ∷ pull_all n (pull [] q).0 ]

  push_all-events :
      (es : List E) (q : EventQueue E)
      → length q.events + length es < q.max_size
      → push_all es q ≡ record q { events = q.events ++ es }
  unfolding push_all push
  push_all-events [] q h = ground (arith, append-nil q.events)
  push_all-events (e ∷ es) q h = ground (
    arith,
    length-append q.events (e ∷ []),
    push_all-events es (record q { events = q.events ++ e ∷ [] }),
    append_assoc q.events (e ∷ []) es,
  )

  pull_all-events : (es : List E) (m : ℕ) → pull_all es (record { events = es; max_size = m }) ≡ es
  unfolding pull_all pull
  pull_all-events [] m = refl
  pull_all-events (e ∷ es) m = ground (arith, pull_all-events es m)

  -- Events that fit into an empty queue of any size come out in the order in which they went in,
  -- and none is lost.
  pub pull_all-push_all :
      (es : List E) (m : ℕ) → length es < m → pull_all es (push_all es (empty_queue m)) ≡ es
  unfolding empty_queue
  pull_all-push_all es m h =
      ground
        (arith, push_all-events es (record { events = []; max_size = m }), pull_all-events es m)

  -- `pull` takes the oldest event; it fails exactly when the queue is empty and still empty when
  -- the wait ends.
  pub pull-none :
      (arrivals : List E) (q : EventQueue E)
      → (pull arrivals q).1 ≡ none
      → (q.events ≡ []) × (arrivals ≡ [])
  unfolding pull
  pull-none arrivals q h = ground arith
