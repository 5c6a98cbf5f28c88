-- ===== src/RemoteControl.antt =====
-- The remote control server: RemoteControlServer (libs/RemoteControl/src/RemoteControlServer.cpp) and
-- its connections, Connection (libs/RemoteControl/src/Connection.cpp). The web server library raises
-- the events; the JSON library parses and prints; the handler of the requests is the user interface
-- control. What these answer is an argument.
pub mod Sessions
pub mod Notifications
use sugo_machine_application.Prelude.{
  ℕ, ◌%◌, Bool, true, false, ◌==◌, if◌then◌else◌, List, [], ◌∷◌, Option, none, some,
}
use sugo_machine_application.MessageBroker.Identifier.{Bytes}

-- A connection of the map, by the identifier of the client.
pub record Connection : Type 0 where
  pub client_id : ℕ
  pub is_open_websocket : Bool

-- What the server sends, newest first.
pub data Sent : Type 0 where
  upgraded : ℕ → Sent
  served_files : ℕ → Sent
  pong : ℕ → Sent
  text : ℕ → Bytes → Sent

pub record Server : Type 0 where
  pub connections : List Connection
  pub history : List Sent

pub data Uri : Type 0 where
  websocket_uri state_uri other_uri : Uri

-- The events that are handled, with the client and the data.
pub data ServerEvent : Type 0 where
  http_message : ℕ → Uri → ServerEvent
  error_raised : ℕ → ServerEvent
  opened : ℕ → ServerEvent
  closed : ℕ → ServerEvent
  websocket_opened : ℕ → ServerEvent
  websocket_message : ℕ → ℕ → Bytes → ServerEvent
  websocket_control : ℕ → ℕ → ServerEvent
  not_handled : ServerEvent

-- How the handling of an event ends: it returns, an exception of the JSON parser leaves it, or it
-- uses a connection that is not in the map.
pub data Handled : Type 0 where
  handled : Server → Handled
  thrown : Server → Handled
  no_connection : Server → Handled

unfoldable pub get_connection : ℕ → List Connection → Option Connection
get_connection id [] = none
get_connection id (c ∷ cs) =
    let rest = get_connection id cs in if c.client_id == id then some c else rest

unfoldable pub erase : ℕ → List Connection → List Connection
erase id [] = []
erase id (c ∷ cs) = let rest = erase id cs in if c.client_id == id then rest else c ∷ rest

-- `m_connections[id] = Connection(...)`.
unfoldable pub insert : ℕ → List Connection → List Connection
unfolding erase
insert id cs = record { client_id = id; is_open_websocket = false } ∷ erase id cs

unfoldable pub set_open : ℕ → Bool → List Connection → List Connection
set_open id is_open [] = []
set_open id is_open (c ∷ cs) =
    let rest = set_open id is_open cs in
    (if c.client_id == id then record c { is_open_websocket = is_open } else c) ∷ rest

abbrev pub websocket_op_mask : ℕ
websocket_op_mask = 16

abbrev pub op_text : ℕ
op_text = 1

abbrev pub op_close : ℕ
op_close = 8

abbrev op_ping : ℕ
op_ping = 9

abbrev send_to : Sent → Server → Server
send_to sent s = record s { history = sent ∷ s.history }

unfoldable pub handle_http_message : ℕ → Uri → Server → Server
handle_http_message id websocket_uri s = send_to (upgraded id) s
handle_http_message id state_uri s = s
handle_http_message id other_uri s = send_to (served_files id) s

-- `sendNotification`: to each open websocket.
unfoldable pub notify_all : Bytes → List Connection → List Sent → List Sent
notify_all message [] h = h
notify_all message (c ∷ cs) h =
    notify_all message cs (if c.is_open_websocket then text c.client_id message ∷ h else h)

unfoldable pub send_notification : Bytes → Server → Server
unfolding notify_all
send_notification message s = record s { history = notify_all message s.connections s.history }

-- An event of a client whose connection is looked up.
abbrev pub with_connection : Option Connection → Server → (Server → Handled) → Handled
with_connection none s handle = no_connection s
with_connection (some c) s handle = handle s

unfoldable pub handle_websocket_control : ℕ → ℕ → Server → Server
unfolding set_open
handle_websocket_control id flags s =
    if flags % websocket_op_mask == op_close
    then record s { connections = set_open id false s.connections }
    else s

module _ {J : Type 0} (parse : Bytes → Option J) (receive_request : ℕ → J → Option Bytes) where
  -- `handleWebsocketMessage` of a text: the parser throws on a text that is no JSON.
  unfoldable pub handle_text_parsed : ℕ → Option J → Server → Handled
  handle_text_parsed id none s = thrown s
  handle_text_parsed id (some request) s = elim (receive_request id request) [
    | none ↦ handled s
    | some response ↦ handled (send_to (text id response) s)
  ]

  unfoldable pub handle_websocket_message : ℕ → ℕ → Bytes → Server → Handled
  unfolding handle_text_parsed
  handle_websocket_message id flags message s =
      if flags % websocket_op_mask == op_text
      then handle_text_parsed id (parse message) s
      else (if flags % websocket_op_mask == op_ping
          then handled (send_to (pong id) s)
          else handled s)

  unfoldable pub handle_event : ServerEvent → Server → Handled
  unfolding get_connection insert erase set_open handle_http_message handle_websocket_message
      handle_websocket_control
  handle_event (http_message id uri) s =
      with_connection (get_connection id s.connections) s
        (λ s. handled (handle_http_message id uri s))
  handle_event (error_raised id) s = with_connection (get_connection id s.connections) s handled
  handle_event (opened id) s = handled (record s { connections = insert id s.connections })
  handle_event (closed id) s = handled (record s { connections = erase id s.connections })
  handle_event (websocket_opened id) s =
      with_connection (get_connection id s.connections) s
        (λ s. handled (record s { connections = set_open id true s.connections }))
  handle_event (websocket_message id flags message) s =
      with_connection (get_connection id s.connections) s
        (handle_websocket_message id flags message)
  handle_event (websocket_control id flags) s =
      with_connection (get_connection id s.connections) s
        (λ s. handled (handle_websocket_control id flags s))
  handle_event not_handled s = handled s

  -- The events that `listen` handles one after the other: an exception ends the thread of the server.
  unfoldable pub listen : List ServerEvent → Server → Handled
  unfolding handle_event
  listen [] s = handled s
  listen (e ∷ es) s = elim (handle_event e s) [
    | handled s' ↦ listen es s'
    | thrown s' ↦ thrown s'
    | no_connection s' ↦ no_connection s'
  ]
