-- ===== src/MessageBroker/Startup.antt =====
-- The start of a service component: ServiceComponent::start
-- (libs/ServiceComponent/src/ServiceComponent.cpp) over the broker, and of a group of components:
-- ExecutionGroup::start and stop (libs/ServiceComponent/include/ServiceComponent/ExecutionGroup.hpp).
use sugo_machine_application.Prelude.{
  ℕ, ◌≡◌, refl, Bool, true, false, ◌&&◌, if◌then◌else◌, List, [], ◌∷◌, Option, none, some, arith,
  All, Bool-cases, inl, inr,
}
use sugo_machine_application.MessageBroker.{
  find, is_found, create_full_qualified_address, publisher,
}
use sugo_machine_application.MessageBroker.Identifier.{Bytes, create_identifier}
use sugo_machine_application.MessageBroker.Subscriber.{
  SubscriberState, Sockets, broker_subscribe, subscribe, add_topic, connect_socket, choose_socket,
  call, place_at, find_socket, connect,
}

-- The loop over the notifications; one that fails does not end it.
unfoldable pub subscribe_all :
    Sockets → List (Bytes × Bytes) → Bool → SubscriberState → Bool × SubscriberState
unfolding broker_subscribe
subscribe_all sockets [] success s = (success, s)
subscribe_all sockets ((address, topic) ∷ ids) success s =
    let (subscribed, s') = broker_subscribe sockets address topic s in
    subscribe_all sockets ids (success && subscribed) s'

-- `ServiceComponent::start`, when its broker starts or not.
unfoldable pub start_component :
    Bool → Sockets → List (Bytes × Bytes) → SubscriberState → Bool × SubscriberState
unfolding subscribe_all
start_component broker_starts sockets ids s =
    if broker_starts then subscribe_all sockets ids true s else (false, s)

-- Whether there is a subscription to a notification.
abbrev pub is_subscribed : SubscriberState → Bytes × Bytes → Bool
is_subscribed s (address, topic) = is_found (
    find (create_identifier (create_full_qualified_address address publisher) topic)
      s.subscriptions)

abbrev Keeps : ℕ → SubscriberState → SubscriberState → Type 0
Keeps id s s' =
    is_found (find id s.subscriptions) ≡ true → is_found (find id s'.subscriptions) ≡ true

module _ (sockets : Sockets) (address topic : Bytes) where
  -- A successful step subscribes, and no step loses a subscription.
  abbrev Subscribes : Bool × SubscriberState → SubscriberState → Type 0
  Subscribes (subscribed, s') s =
      (subscribed ≡ true
        → is_found (find (create_identifier address topic) s'.subscriptions) ≡ true)
      × ((id : ℕ) → Keeps id s s')

  if-Subscribes :
      (b : Bool) (x y : Bool × SubscriberState) (s : SubscriberState)
      → Subscribes x s
      → Subscribes y s
      → Subscribes (if b then x else y) s
  if-Subscribes true x y s h k = h
  if-Subscribes false x y s h k = k

  add_topic-Subscribes :
      (i : ℕ) (is_new : Bool) (s : SubscriberState)
      → Subscribes (add_topic sockets address topic i is_new s) s
  unfolding add_topic find
  add_topic-Subscribes i is_new s = (λ h. ground arith, λ id h. ground arith)

  connect_socket-Subscribes :
      (free : Option ℕ) (s : SubscriberState)
      → Subscribes (connect_socket sockets address topic free s) s
  connect_socket-Subscribes none s = (λ h. cc, λ id h. h)
  connect_socket-Subscribes (some j) s =
      if-Subscribes (sockets s.calls (connect j address)) _ _ s
        (add_topic-Subscribes j true (place_at j address (call (connect j address) s)))
        (λ h. cc, λ id h. h)

  choose_socket-Subscribes :
      (place : Option ℕ) (s : SubscriberState)
      → Subscribes (choose_socket sockets address topic place s) s
  choose_socket-Subscribes (some i) s = add_topic-Subscribes i false s
  choose_socket-Subscribes none s = connect_socket-Subscribes (find_socket [] s.addresses) s

  subscribe-Subscribes : (s : SubscriberState) → Subscribes (subscribe sockets address topic s) s
  unfolding subscribe
  subscribe-Subscribes s =
      if-Subscribes (is_found (find (create_identifier address topic) s.subscriptions)) (false, s) _
        s (λ h. cc, λ id h. h) (choose_socket-Subscribes (find_socket address s.addresses) s)

module _ (sockets : Sockets) where
  subscribe_all-Keeps :
      (ids : List (Bytes × Bytes)) (success : Bool) (s : SubscriberState) (id : ℕ)
      → Keeps id s (subscribe_all sockets ids success s).1
  unfolding subscribe_all
  subscribe_all-Keeps [] success s id h = h
  subscribe_all-Keeps ((address, topic) ∷ ids) success s id h = subscribe_all-Keeps ids _ _ id (
      (subscribe-Subscribes sockets (create_full_qualified_address address publisher) topic s).1 id
        h)

  subscribe_all-success :
      (ids : List (Bytes × Bytes)) (s : SubscriberState)
      → (subscribe_all sockets ids false s).0 ≡ false
  unfolding subscribe_all
  subscribe_all-success [] s = refl
  subscribe_all-success ((address, topic) ∷ ids) s = subscribe_all-success ids _

  subscribe_all-All :
      (ids : List (Bytes × Bytes)) (success : Bool) (s : SubscriberState)
      → let (succeeded, s') = subscribe_all sockets ids success s in
        succeeded ≡ true → All (λ id. is_subscribed s' id ≡ true) ids
  unfolding subscribe_all
  subscribe_all-All [] success s h = tt
  subscribe_all-All ((address, topic) ∷ ids) success s h =
      let r = broker_subscribe sockets address topic s in
      elim (Bool-cases (success && r.0)) [
        | inl hit ↦ (
          subscribe_all-Keeps ids (success && r.0) r.1 _ (
              (subscribe-Subscribes sockets (create_full_qualified_address address publisher) topic
                  s).0
                (ground arith)),
          subscribe_all-All ids (success && r.0) r.1 h,
        )
        | inr miss ↦ ground (arith, subscribe_all-success ids r.1)
      ]

  -- If a component starts, then its broker has started and its subscriber has a subscription to each
  -- of the notifications that the component wants, the repeated ones included.
  pub start_component_lem :
      (broker_starts : Bool) (ids : List (Bytes × Bytes)) (s : SubscriberState)
      → let (started, s') = start_component broker_starts sockets ids s in
        started ≡ true → (broker_starts ≡ true) × All (λ id. is_subscribed s' id ≡ true) ids
  unfolding start_component
  start_component_lem true ids s h = (refl, subscribe_all-All ids true s h)
  start_component_lem false ids s h = cc
