-- ===== src/MessageBroker.antt =====
-- The message broker of a component: libs/MessageBroker/src/MessageBroker.cpp and
-- libs/MessageBroker/include/MessageBroker/MessageBroker.hpp, over the client of
-- libs/MessageBroker/src/Client.cpp.
-- Protobuf is a library: a received buffer is the message that it parses to, or none, and a sent
-- buffer is the message; whether it can be serialized is an argument. What a handler works on is a
-- type `W` that the broker only passes on.
pub mod Identifier
pub mod Client
pub mod Dispatch
pub mod Connections
pub mod Subscriber
pub mod Subscriptions
pub mod Server
pub mod Startup
use sugo_machine_application.Prelude.{
  ℕ, ◌+◌, ◌*◌, ◌%◌, ◌^◌, Bool, true, false, not, ◌&&◌, ◌||◌, ◌==◌, if◌then◌else◌, List, [], ◌∷◌,
  ◌++◌, Option, none, some,
}
use sugo_machine_application.Framework.Message.{
  Message, Response, unsupported_request, refer_to, create_error_response,
}
use sugo_machine_application.MessageBroker.Identifier.{Bytes}
use sugo_machine_application.MessageBroker.Client.{
  ClientState, Transport, connect, disconnect, exchange, is_connected,
}

-- The handlers by the identifiers of their messages, as a std::map.
abbrev pub HandlerMap : Type 0 → Type 0 → Type 0
HandlerMap W A = List (ℕ × (Message → W → A × W))

pub record Broker (W : Type 0) : Type 0 where
  pub request_handlers : HandlerMap W Response
  pub notification_handlers : HandlerMap W Bool
  pub sequence_number : ℕ

module _ {A : Type 0} where
  unfoldable pub find : ℕ → List (ℕ × A) → Option A
  find id [] = none
  find id ((key, value) ∷ rest) = if key == id then some value else find id rest

  -- `map::erase`.
  unfoldable pub erase : ℕ → List (ℕ × A) → List (ℕ × A)
  erase id [] = []
  erase id ((key, value) ∷ rest) =
      let others = erase id rest in if key == id then others else (key, value) ∷ others

  -- `map[id] = value`.
  unfoldable pub assign : ℕ → A → List (ℕ × A) → List (ℕ × A)
  unfolding erase
  assign id value map = (id, value) ∷ erase id map

  abbrev pub is_found : Option A → Bool
  is_found none = false
  is_found (some a) = true

module _ {W : Type 0} where
  unfoldable pub init : Broker W
  init = record { request_handlers = []; notification_handlers = []; sequence_number = 0 }

  unfoldable pub register_request_message_handler :
      ℕ → (Message → W → Response × W) → Broker W → Broker W
  unfolding assign
  register_request_message_handler id handler b = record b {
    request_handlers = assign id handler b.request_handlers;
  }

  unfoldable pub register_notification_message_handler :
      ℕ → (Message → W → Bool × W) → Broker W → Broker W
  unfolding assign
  register_notification_message_handler id handler b = record b {
    notification_handlers = assign id handler b.notification_handlers;
  }

  unfoldable pub unregister_message_handler : ℕ → Broker W → Broker W
  unfolding erase
  unregister_message_handler id b = record b {
    request_handlers = erase id b.request_handlers;
    notification_handlers = erase id b.notification_handlers;
  }

  unfoldable pub has_registered_message_handler : ℕ → Broker W → Bool
  unfolding find
  has_registered_message_handler id b =
      is_found (find id b.request_handlers) || is_found (find id b.notification_handlers)

  -- A 32-bit counter: the number of this message, and the broker with the next one.
  unfoldable pub get_next_sequence_number : Broker W → ℕ × Broker W
  get_next_sequence_number b =
      (b.sequence_number, record b { sequence_number = (b.sequence_number + 1) % 2 ^ 32 })

  abbrev answer : Option (Message → W → Response × W) → Message → W → Response × W
  answer (some handler) message w =
      let (response, w') = handler message w in (refer_to message response, w')
  answer none message w = (create_error_response message unsupported_request, w)

  -- The response that is written, if it can be serialized.
  unfoldable pub process_received_request_message :
      (Response → Bool) → Broker W → Option Message → W → Option Response × W
  unfolding find refer_to create_error_response
  process_received_request_message serializes b none w = (none, w)
  process_received_request_message serializes b (some message) w =
      let (response, w') = answer (find message.header.id b.request_handlers) message w in
      (if serializes response then some response else none, w')

  abbrev deliver : Option (Message → W → Bool × W) → Message → W → Bool × W
  deliver (some handler) message w = let (_, w') = handler message w in (true, w')
  deliver none message w = (false, w)

  unfoldable pub process_received_notification_message : Broker W → Option Message → W → Bool × W
  unfolding find
  process_received_notification_message b none w = (false, w)
  process_received_notification_message b (some message) w =
      deliver (find message.header.id b.notification_handlers) message w

-- `MessageBroker::Service`, of which only the publisher has a suffix.
pub data Service : Type 0 where
  responder publisher subscriber : Service

-- "inproc://" and "Pub".
abbrev pub address_prefix : Bytes
address_prefix = 105 ∷ 110 ∷ 112 ∷ 114 ∷ 111 ∷ 99 ∷ 58 ∷ 47 ∷ 47 ∷ []

abbrev pub publisher_suffix : Bytes
publisher_suffix = 80 ∷ 117 ∷ 98 ∷ []

unfoldable pub create_full_qualified_address : Bytes → Service → Bytes
create_full_qualified_address address publisher = address_prefix ++ address ++ publisher_suffix
create_full_qualified_address address responder = address_prefix ++ address ++ []
create_full_qualified_address address subscriber = address_prefix ++ address ++ []

module _ {W : Type 0} where
  abbrev pub close_client :
      Broker W → Response → Bool × ClientState → (Bool × Response) × (Broker W × ClientState)
  close_client b r (closed, c) = ((closed, r), (b, c))

  -- What `send` does with what comes back, if anything does.
  abbrev pub finish :
      Transport
      → Broker W
      → Response
      → ClientState
      → Option (Bool × Response)
      → (Bool × Response) × (Broker W × ClientState)
  finish transport b response c none = ((false, response), (b, c))
  finish transport b response c (some (false, r)) = ((false, r), (b, c))
  finish transport b response c (some (true, r)) =
      if is_connected c then close_client b r (disconnect transport c) else ((true, r), (b, c))

  -- `send`: whether it succeeded, and the response object, which was `response` before.
  unfoldable pub send :
      Transport
      → (Message → Bool)
      → Bytes
      → Message
      → Response
      → Broker W × ClientState
      → (Bool × Response) × (Broker W × ClientState)
  unfolding create_full_qualified_address get_next_sequence_number connect disconnect exchange
  send transport serializes receiver message response (b, c) =
      let (connected, c') =
        connect transport (create_full_qualified_address receiver responder) c in
      let (sequence, b') = get_next_sequence_number b in
      let numbered : Message = record message {
        header = record (message.header) { sequence = sequence };
      } in
      if connected
      then (if serializes numbered
          then finish transport b' response c' (exchange transport)
          else ((false, response), (b', c')))
      else ((false, response), (b, c'))

-- `start`: the context must not run yet. Every service is started, whether the others could be.
unfoldable pub start : Bool → Bool → Bool → Bool
start context_starts publisher_starts server_starts =
    if context_starts then server_starts && publisher_starts else false
