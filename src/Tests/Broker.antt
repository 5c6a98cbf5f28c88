-- ===== src/Tests/Broker.antt =====
-- Runs of the message broker.
use sugo_machine_application.Prelude.{ℕ, ◌≡◌, ◌+◌, refl, true, false, List, [], ◌∷◌, some, none}
use sugo_machine_application.Framework.Message.{Message, Response, default_response}
use sugo_machine_application.MessageBroker.{
  erase, Broker, create_full_qualified_address, responder, send,
}
use sugo_machine_application.MessageBroker.Identifier.{hash, default_offset_basis}
use sugo_machine_application.MessageBroker.Client.{ClientState, Transport}
use sugo_machine_application.MessageBroker.Connections.{send_timeout_lem}
use sugo_machine_application.MessageBroker.Subscriber
use sugo_machine_application.MessageBroker.Subscriber.{
  Sockets, Erased, SubscriberState, subscription, unsubscription, drop_topic, close_unused,
  get_subscription_count, set_address,
}
use sugo_machine_application.Tests.{request, accepted}

-- The published hash of "a".
hash_a : hash (97 ∷ []) default_offset_basis ≡ 3826002220
unfolding hash
hash_a = refl

-- A handler that counts its messages.
abbrev counting : Message → ℕ → Response × ℕ
counting message n = (default_response, n + 1)

abbrev broker : Broker ℕ
broker = record {
  request_handlers = (7, counting) ∷ [];
  notification_handlers = [];
  sequence_number = 41;
}

abbrev client : ClientState
client = record { endpoints = []; address = [] }

abbrev good_transport : Transport
good_transport = record {
  connects = true;
  sent_size = some 12;
  received = some (true, accepted);
  disconnects = true;
}

abbrev slow_transport : Transport
slow_transport = record good_transport { received = none }

send_timeout_example :
    let (result, (_, c')) =
      send slow_transport (λ m. true) (109 ∷ []) request default_response (broker, client) in
    (result ≡ (false, default_response))
    × (c'.endpoints ≡ create_full_qualified_address (109 ∷ []) responder ∷ [])
send_timeout_example =
    send_timeout_lem slow_transport (λ m. true) (109 ∷ []) request default_response broker client
      refl (λ m. refl) refl

-- The first two socket calls succeed.
abbrev shaky_sockets : Sockets
shaky_sockets calls call = elim calls [
  | [] ↦ true
  | c ∷ rest ↦ elim rest [ [] ↦ true | d ∷ more ↦ false ]
]

abbrev three_requests : List Subscriber.Request
three_requests =
    subscription (109 ∷ []) (115 ∷ [])
    ∷ subscription (102 ∷ []) (115 ∷ [])
    ∷ unsubscription (109 ∷ []) (115 ∷ [])
    ∷ []

abbrev same_place : Erased
same_place calls i = i

-- If the erased entry reads as another place, a socket that a subscription needs is closed.
abbrev two_topics : SubscriberState
two_topics = record {
  addresses = (109 ∷ []) ∷ [];
  subscriptions = (1, 0) ∷ (2, 0) ∷ [];
  calls = [];
}

stale_place_closes :
    let s = (drop_topic (λ calls call. true) (λ calls i. 7) 1 (115 ∷ []) (some 0) two_topics).1 in
    (s.subscriptions ≡ (2, 0) ∷ []) × (s.addresses ≡ [] ∷ [])
unfolding close_unused get_subscription_count set_address erase
stale_place_closes = (refl, refl)
