-- ===== src/MessageBroker/Subscriptions/Publishers.antt =====
-- No two sockets of a subscriber (libs/MessageBroker/src/Subscriber.cpp) are connected to one publisher.
use sugo_machine_application.Prelude.{
  ℕ, ◌≡◌, refl, Bool, true, false, if◌then◌else◌, List, [], ◌∷◌, Option, none, some, arith,
}
use sugo_machine_application.MessageBroker.{create_full_qualified_address, publisher}
use sugo_machine_application.MessageBroker.Identifier.{Bytes}
use sugo_machine_application.MessageBroker.Subscriber.{
  SubscriberState, connect, Sockets, Erased, call, place_at, Request, subscription, unsubscription,
  serve, find_socket, add_topic, connect_socket, choose_socket, subscribe, close_unused, drop_topic,
  unsubscribe,
}
use sugo_machine_application.MessageBroker.Subscriptions.SocketArray.{
  Unique, set_address_back, set_address-Unique,
}

if-Unique :
    (b : Bool) (x y : Bool × SubscriberState)
    → Unique x.1.addresses
    → Unique y.1.addresses
    → Unique (if b then x else y).1.addresses
if-Unique true x y h k = h
if-Unique false x y h k = k

module _ (sockets : Sockets) where
  add_topic_known-Unique :
      (address topic : Bytes) (i : ℕ) (s : SubscriberState)
      → Unique s.addresses
      → Unique (add_topic sockets address topic i false s).1.addresses
  unfolding add_topic
  add_topic_known-Unique address topic i s h = ground arith

  add_topic_new-Unique :
      (address topic : Bytes) (j : ℕ) (s : SubscriberState)
      → find_socket address s.addresses ≡ none
      → find_socket [] s.addresses ≡ some j
      → Unique s.addresses
      → Unique (add_topic sockets address topic j true (place_at j address s)).1.addresses
  unfolding add_topic
  add_topic_new-Unique address topic j s new free h = ground (
    arith,
    set_address-Unique address j s.addresses (λ k. new) h,
    set_address_back address s.addresses j free,
  )

  connect_socket-Unique :
      (address topic : Bytes) (free : Option ℕ) (s : SubscriberState)
      → find_socket address s.addresses ≡ none
      → find_socket [] s.addresses ≡ free
      → Unique s.addresses
      → Unique (connect_socket sockets address topic free s).1.addresses
  connect_socket-Unique address topic none s new p h = h
  connect_socket-Unique address topic (some j) s new p h =
      let s' = call (connect j address) s in
      if-Unique (sockets s.calls (connect j address))
        (add_topic sockets address topic j true (place_at j address s')) (false, s')
        (add_topic_new-Unique address topic j s' new p h) h

  choose_socket-Unique :
      (address topic : Bytes) (place : Option ℕ) (s : SubscriberState)
      → find_socket address s.addresses ≡ place
      → Unique s.addresses
      → Unique (choose_socket sockets address topic place s).1.addresses
  choose_socket-Unique address topic (some i) s p h = add_topic_known-Unique address topic i s h
  choose_socket-Unique address topic none s p h =
      connect_socket-Unique address topic (find_socket [] s.addresses) s p refl h

  subscribe-Unique :
      (address topic : Bytes) (s : SubscriberState)
      → Unique s.addresses
      → Unique (subscribe sockets address topic s).1.addresses
  unfolding subscribe
  subscribe-Unique address topic s h =
      if-Unique _ (false, s)
        (choose_socket sockets address topic (find_socket address s.addresses) s) h
        (choose_socket-Unique address topic (find_socket address s.addresses) s refl h)

  close_unused-Unique :
      (i read : ℕ) (s : SubscriberState)
      → Unique s.addresses
      → Unique (close_unused sockets i read s).1.addresses
  unfolding close_unused
  close_unused-Unique i read s h = ground (arith, set_address-Unique [] i s.addresses (λ k. cc) h)

  drop_topic-Unique :
      (erased : Erased) (id : ℕ) (topic : Bytes) (place : Option ℕ) (s : SubscriberState)
      → Unique s.addresses
      → Unique (drop_topic sockets erased id topic place s).1.addresses
  drop_topic-Unique erased id topic none s h = h
  drop_topic-Unique erased id topic (some i) s h = close_unused-Unique i _ _ h

  unsubscribe-Unique :
      (erased : Erased) (address topic : Bytes) (s : SubscriberState)
      → Unique s.addresses
      → Unique (unsubscribe sockets erased address topic s).1.addresses
  unfolding unsubscribe
  unsubscribe-Unique erased address topic s h = drop_topic-Unique erased _ topic _ s h

  -- Requests in any order leave the addresses of the connected sockets different.
  pub serve-Unique :
      (erased : Erased) (rs : List Request) (s : SubscriberState)
      → Unique s.addresses
      → Unique (serve sockets erased rs s).addresses
  unfolding serve
  serve-Unique erased [] s h = h
  serve-Unique erased (subscription address topic ∷ rs) s h =
      serve-Unique erased rs _
        (subscribe-Unique (create_full_qualified_address address publisher) topic s h)
  serve-Unique erased (unsubscription address topic ∷ rs) s h =
      serve-Unique erased rs _
        (unsubscribe-Unique erased (create_full_qualified_address address publisher) topic s h)
