-- ===== src/MessageBroker/Server.antt =====
-- The server and the publisher of a message broker: libs/MessageBroker/src/Server.cpp and
-- libs/MessageBroker/src/Publisher.cpp, over sockets of azmq, which is a library: what a call of a
-- socket answers is an argument.
use sugo_machine_application.Prelude.{
  ℕ, Bool, true, false, not, ◌&&◌, ◌==◌, if◌then◌else◌, List, [], ◌∷◌, Option, none, some,
}
use sugo_machine_application.Framework.Message.{Message}
use sugo_machine_application.MessageBroker.{Broker, get_next_sequence_number}
use sugo_machine_application.MessageBroker.Identifier.{Bytes}

-- Whether the service runs, and the buffers that its socket sent, newest first.
pub record Service : Type 0 where
  pub is_running : Bool
  pub sent : List Bytes

unfoldable pub init : Service
init = record { is_running = false; sent = [] }

-- The number of bytes that a socket sends, none for an error.
abbrev pub Sending : Type 0
Sending = Bytes → Option ℕ

abbrev pub has_sent : Option ℕ → Bool
has_sent none = false
has_sent (some n) = not (n == 0)

abbrev pub is_empty : Bytes → Bool
is_empty [] = true
is_empty (c ∷ cs) = false

-- One send of a socket; a send without an error and with some bytes has put the buffer out.
abbrev pub send_buffer : Sending → Bytes → Service → Bool × Service
send_buffer sending buffer s =
    if has_sent (sending buffer) then (true, record s { sent = buffer ∷ s.sent }) else (false, s)

-- `Server::start` and `Publisher::start`, when the socket can be bound or not.
unfoldable pub start : Bool → Service → Bool × Service
start binds s = if binds then (true, record s { is_running = true }) else (false, s)

-- `Server::stop` and `Publisher::stop`, whether the socket can be unbound or not.
unfoldable pub stop : Service → Service
stop s = if s.is_running then record s { is_running = false } else s

-- `Server::sendResponse`.
unfoldable pub send_response : Sending → Bytes → Service → Bool × Service
send_response sending buffer s = send_buffer sending buffer s

-- `Server::handleReceived`, with what the message handler returns and writes.
unfoldable pub handle_received : Sending → Bool → Bytes → Service → Bool × Service
unfolding send_response
handle_received sending success buffer s =
    if not (is_empty buffer) && success then send_response sending buffer s else (false, s)

-- `Server::receiveRequest`, one completed receive: an error code, or the bytes received.
unfoldable pub receive_request : Sending → (Bytes → Bool × Bytes) → Option Bytes → Service → Service
unfolding handle_received
receive_request sending handler none s = s
receive_request sending handler (some []) s = s
receive_request sending handler (some (c ∷ cs)) s =
    let (success, response) = handler (c ∷ cs) in (handle_received sending success response s).1

-- `Publisher::publish`: the topic first, then the message, as two parts of one message.
unfoldable pub publish : Sending → Bytes → Bytes → Service → Bool × Service
publish sending topic message s =
    let (topic_sent, s') = send_buffer sending topic s in
    if topic_sent then send_buffer sending message s' else (false, s')

abbrev publish_serialized : Sending → Bytes → Option Bytes → Service → Bool × Service
publish_serialized sending topic none s = (false, s)
publish_serialized sending topic (some buffer) s = publish sending topic buffer s

-- `MessageBroker::notify`, with what protobuf serializes a message to, if it can.
unfoldable pub notify :
    {W : Type 0}
    → Sending
    → (Message → Option Bytes)
    → Message
    → Bytes
    → Broker W × Service
    → Bool × (Broker W × Service)
unfolding get_next_sequence_number publish
notify sending serialize message topic (b, s) =
    let (sequence, b') = get_next_sequence_number b in
    let numbered : Message = record message {
      header = record (message.header) { sequence = sequence };
    } in
    let (sent, s') = publish_serialized sending topic (serialize numbered) s in (sent, (b', s'))
