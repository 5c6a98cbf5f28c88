-- ===== src/MessageBroker/Subscriber.antt =====
-- The subscriber of a message broker: libs/MessageBroker/src/Subscriber.cpp and
-- libs/MessageBroker/include/MessageBroker/Subscriber.hpp, over the sockets of azmq, which is a
-- library: whether a call of a socket succeeds is an argument. An option call that throws, and the
-- receiving of notifications, are not modelled.
use sugo_machine_application.Prelude.{
  ℕ, zero, suc, Bool, true, false, ◌==◌, if◌then◌else◌, List, [], ◌∷◌, Option, none, some,
}
use sugo_machine_application.MessageBroker.{
  find, erase, is_found, create_full_qualified_address, publisher,
}
use sugo_machine_application.MessageBroker.Identifier.{Bytes, create_identifier}
use sugo_machine_application.MessageBroker.Client.{eqb_bytes}

-- The calls of the sockets, by their places in the array.
pub data SocketCall : Type 0 where
  connect disconnect : ℕ → Bytes → SocketCall
  set_subscribe set_unsubscribe : ℕ → Bytes → SocketCall
  receive : ℕ → SocketCall

-- Whether a call succeeds, given the calls before it.
abbrev pub Sockets : Type 0
Sockets = List SocketCall → SocketCall → Bool

-- The addresses of the sockets, empty for a socket that is not connected, the places of the sockets
-- by the identifiers of the subscriptions, and the calls made, newest first.
pub record SubscriberState : Type 0 where
  pub addresses : List Bytes
  pub subscriptions : List (ℕ × ℕ)
  pub calls : List SocketCall

abbrev pub max_subscription_sockets : ℕ
max_subscription_sockets = 8

abbrev pub empty_addresses : ℕ → List Bytes
empty_addresses zero = []
empty_addresses (suc n) = [] ∷ empty_addresses n

unfoldable pub init : SubscriberState
init = record {
  addresses = empty_addresses max_subscription_sockets;
  subscriptions = [];
  calls = [];
}

-- `findSocket`: the place of the first socket with an address, none for the end.
unfoldable pub find_socket : Bytes → List Bytes → Option ℕ
find_socket address [] = none
find_socket address (a ∷ addresses) =
    let rest = find_socket address addresses in if eqb_bytes a address then some 0 else next rest
  where
    next : Option ℕ → Option ℕ
    next none = none
    next (some i) = some (suc i)

-- `getSubscriptionCount`.
unfoldable pub get_subscription_count : ℕ → List (ℕ × ℕ) → ℕ
get_subscription_count place [] = 0
get_subscription_count place ((id, i) ∷ rest) =
    let others = get_subscription_count place rest in if i == place then suc others else others

unfoldable pub set_address : ℕ → Bytes → List Bytes → List Bytes
set_address i address [] = []
set_address zero address (a ∷ addresses) = address ∷ addresses
set_address (suc i) address (a ∷ addresses) = a ∷ set_address i address addresses

unfoldable pub address_at : ℕ → List Bytes → Bytes
address_at i [] = []
address_at zero (a ∷ addresses) = a
address_at (suc i) (a ∷ addresses) = address_at i addresses

abbrev pub call : SocketCall → SubscriberState → SubscriberState
call c s = record s { calls = c ∷ s.calls }

abbrev pub place_at : ℕ → Bytes → SubscriberState → SubscriberState
place_at i address s = record s { addresses = set_address i address s.addresses }

-- What the place of a subscription reads as once the entry of the map that held it is erased, given
-- the calls so far and that place. The language leaves this read undefined.
abbrev pub Erased : Type 0
Erased = List SocketCall → ℕ → ℕ

module _ (sockets : Sockets) where
  -- The part of `subscribe` after the socket is found.
  unfoldable pub add_topic : Bytes → Bytes → ℕ → Bool → SubscriberState → Bool × SubscriberState
  unfolding set_address create_identifier
  add_topic address topic i is_new s =
      let s' = call (set_subscribe i topic) s in
      if sockets s.calls (set_subscribe i topic)
      then (
        true,
        (let added = record s' {
          subscriptions = (create_identifier address topic, i) ∷ s.subscriptions;
        } in
            if is_new then call (receive i) added else added),
      )
      else (false, if is_new then place_at i [] (call (disconnect i address) s') else s')

  -- The part of `subscribe` for an address that no socket has.
  abbrev pub connect_socket : Bytes → Bytes → Option ℕ → SubscriberState → Bool × SubscriberState
  connect_socket address topic none s = (false, s)
  connect_socket address topic (some j) s =
      let s' = call (connect j address) s in
      if sockets s.calls (connect j address)
      then add_topic address topic j true (place_at j address s')
      else (false, s')

  abbrev pub choose_socket : Bytes → Bytes → Option ℕ → SubscriberState → Bool × SubscriberState
  choose_socket address topic (some i) s = add_topic address topic i false s
  choose_socket address topic none s = connect_socket address topic (find_socket [] s.addresses) s

  unfoldable pub subscribe : Bytes → Bytes → SubscriberState → Bool × SubscriberState
  unfolding find create_identifier find_socket add_topic
  subscribe address topic s =
      if is_found (find (create_identifier address topic) s.subscriptions)
      then (false, s)
      else choose_socket address topic (find_socket address s.addresses) s

  -- The part of `unsubscribe` after the subscription is erased: the socket of the subscription is
  -- closed if no subscription is left at the place that is then read.
  unfoldable pub close_unused : ℕ → ℕ → SubscriberState → Bool × SubscriberState
  unfolding get_subscription_count set_address address_at
  close_unused i read s =
      let c = disconnect i (address_at i s.addresses) in
      if get_subscription_count read s.subscriptions == 0
      then (if sockets s.calls c then (true, place_at i [] (call c s)) else (false, call c s))
      else (true, s)

  -- `iter->second` is read again after the erasure of `iter`'s entry.
  abbrev pub drop_topic : Erased → ℕ → Bytes → Option ℕ → SubscriberState → Bool × SubscriberState
  drop_topic erased id topic none s = (false, s)
  drop_topic erased id topic (some i) s =
      let s' = call (set_unsubscribe i topic) s in
      close_unused i (erased s'.calls i) (record s' { subscriptions = erase id s.subscriptions })

  unfoldable pub unsubscribe : Erased → Bytes → Bytes → SubscriberState → Bool × SubscriberState
  unfolding find erase create_identifier close_unused
  unsubscribe erased address topic s =
      drop_topic erased (create_identifier address topic) topic
        (find (create_identifier address topic) s.subscriptions) s

  -- `MessageBroker::subscribe` and `MessageBroker::unsubscribe`.
  unfoldable pub broker_subscribe : Bytes → Bytes → SubscriberState → Bool × SubscriberState
  unfolding create_full_qualified_address subscribe
  broker_subscribe address topic = subscribe (create_full_qualified_address address publisher) topic

  unfoldable pub broker_unsubscribe :
      Erased → Bytes → Bytes → SubscriberState → Bool × SubscriberState
  unfolding create_full_qualified_address unsubscribe
  broker_unsubscribe erased address topic =
      unsubscribe erased (create_full_qualified_address address publisher) topic

-- What a component asks of its broker.
pub data Request : Type 0 where
  subscription unsubscription : Bytes → Bytes → Request

unfoldable pub serve : Sockets → Erased → List Request → SubscriberState → SubscriberState
unfolding broker_subscribe broker_unsubscribe
serve sockets erased [] s = s
serve sockets erased (subscription address topic ∷ rs) s =
    serve sockets erased rs (broker_subscribe sockets address topic s).1
serve sockets erased (unsubscription address topic ∷ rs) s =
    serve sockets erased rs (broker_unsubscribe sockets erased address topic s).1
