-- ===== src/RemoteControl/Sessions.antt =====
-- What the remote control server (libs/RemoteControl/src/RemoteControlServer.cpp) keeps of each client.
use sugo_machine_application.Prelude.{
  ℕ, ◌%◌, ◌≡◌, refl, ap, ◌∙◌, Bool, true, false, ◌==◌, if◌then◌else◌, List, [], ◌∷◌, Option, none,
  some, arith,
}
use sugo_machine_application.MessageBroker.Identifier.{Bytes}
use sugo_machine_application.RemoteControl.{
  Connection, Server, ServerEvent, Handled, get_connection, erase, insert, set_open,
  handle_http_message, handle_websocket_message, handle_text_parsed, handle_websocket_control,
  handle_event, listen, op_close, op_text, websocket_op_mask, http_message, error_raised, opened,
  closed, websocket_opened, websocket_message, websocket_control, not_handled, websocket_uri,
  state_uri, other_uri, handled, thrown, no_connection, with_connection,
}

-- What is known of a client: nothing, or whether its websocket is open.
unfoldable pub status : ℕ → List Connection → Option Bool
status id [] = none
status id (c ∷ cs) =
    let rest = status id cs in if c.client_id == id then some c.is_open_websocket else rest

abbrev put : Bool → Option Bool → Option Bool
put b none = none
put b (some a) = some b

-- What one event makes of it.
unfoldable pub status_after : ℕ → ServerEvent → Option Bool → Option Bool
status_after id (opened j) known = if j == id then some false else known
status_after id (closed j) known = if j == id then none else known
status_after id (websocket_opened j) known = if j == id then put true known else known
status_after id (websocket_control j flags) known =
    if j == id
    then (if flags % websocket_op_mask == op_close then put false known else known)
    else known
status_after id _ known = known

-- What a sequence of events makes of what is known of a client.
unfoldable pub status_after_all : ℕ → List ServerEvent → Option Bool → Option Bool
unfolding status_after
status_after_all id [] known = known
status_after_all id (e ∷ es) known = status_after_all id es (status_after id e known)

status-erase :
    (i j : ℕ) (cs : List Connection)
    → status i (erase j cs) ≡ (if j == i then none else status i cs)
unfolding status erase
status-erase i j [] = ground arith
status-erase i j (c ∷ cs) = let ih = status-erase i j cs in ground arith

status-set_open :
    (i j : ℕ) (b : Bool) (cs : List Connection)
    → status i (set_open j b cs) ≡ (if j == i then put b (status i cs) else status i cs)
unfolding status set_open
status-set_open i j b [] = ground arith
status-set_open i j b (c ∷ cs) = let ih = status-set_open i j b cs in ground arith

status-get_connection :
    (i : ℕ) (cs : List Connection) → get_connection i cs ≡ none → status i cs ≡ none
unfolding status get_connection
status-get_connection i [] e = refl
status-get_connection i (c ∷ cs) e = let ih = status-get_connection i cs in ground arith

unfoldable pub server_of : Handled → Server
server_of (handled s) = s
server_of (thrown s) = s
server_of (no_connection s) = s

with_connection-status :
    (i j : ℕ) (s : Server) (handle : Server → Handled) (known : Option Bool) (c : Option Connection)
    → get_connection j s.connections ≡ c
    → status i (server_of (handle s)).connections ≡ known
    → (get_connection j s.connections ≡ none → status i s.connections ≡ known)
    → status i (server_of (with_connection c s handle)).connections ≡ known
unfolding server_of
with_connection-status i j s handle known none e found lost = lost e
with_connection-status i j s handle known (some c) e found lost = found

module _ {J : Type 0} (parse : Bytes → Option J) (receive_request : ℕ → J → Option Bytes) where
  text_keeps :
      (j : ℕ) (request : Option J) (s : Server)
      → (server_of (handle_text_parsed parse receive_request j request s)).connections
        ≡ s.connections
  unfolding server_of handle_text_parsed
  text_keeps j none s = refl
  text_keeps j (some request) s = ground arith

  pub message_keeps :
      (j flags : ℕ) (message : Bytes) (s : Server)
      → (server_of (handle_websocket_message parse receive_request j flags message s)).connections
        ≡ s.connections
  unfolding server_of handle_websocket_message
  message_keeps j flags message s = let t = text_keeps j (parse message) s in ground arith

  -- Whatever the event, and however its handling ends, what the server knows of a client afterwards is
  -- what the event makes of what it knew: other clients' events change nothing of it.
  pub handle_event-status :
      (id : ℕ) (e : ServerEvent) (s : Server)
      → status id (server_of (handle_event parse receive_request e s)).connections
        ≡ status_after id e (status id s.connections)
  unfolding handle_event status_after server_of insert status handle_http_message
      handle_websocket_control
  handle_event-status id (http_message j websocket_uri) s =
      with_connection-status id j s _ _ _ refl refl (λ _. refl)
  handle_event-status id (http_message j state_uri) s =
      with_connection-status id j s _ _ _ refl refl (λ _. refl)
  handle_event-status id (http_message j other_uri) s =
      with_connection-status id j s _ _ _ refl refl (λ _. refl)
  handle_event-status id (error_raised j) s =
      with_connection-status id j s _ _ _ refl refl (λ _. refl)
  handle_event-status id (opened j) s = let e = status-erase id j s.connections in ground arith
  handle_event-status id (closed j) s = status-erase id j s.connections
  handle_event-status id (websocket_opened j) s =
      with_connection-status id j s _ _ _ refl (status-set_open id j true s.connections)
        (λ lost. let n = status-get_connection j s.connections lost in ground arith)
  handle_event-status id (websocket_message j flags message) s =
      with_connection-status id j s _ _ _ refl (ap (status id) (message_keeps j flags message s))
        (λ _. refl)
  handle_event-status id (websocket_control j flags) s =
      with_connection-status id j s _ _ _ refl
        (let e = status-set_open id j false s.connections in ground arith)
        (λ lost. let n = status-get_connection j s.connections lost in ground arith)
  handle_event-status id not_handled s = refl

  pub listen-server_of :
      (e : ServerEvent) (es : List ServerEvent) (s s' : Server) (r : Handled)
      → handle_event parse receive_request e s ≡ r
      → listen parse receive_request (e ∷ es) s ≡ handled s'
      → listen parse receive_request es (server_of r) ≡ handled s'
  unfolding listen server_of
  listen-server_of e es s s' (handled t) h l = ground arith
  listen-server_of e es s s' (thrown t) h l = ground arith
  listen-server_of e es s s' (no_connection t) h l = ground arith

  -- When every event of a sequence is handled, what the server knows of a client at the end depends on
  -- the events of that client alone: no client closes, opens or forgets the websocket of another.
  pub listen-status :
      (id : ℕ) (es : List ServerEvent) (s s' : Server)
      → listen parse receive_request es s ≡ handled s'
      → status id s'.connections ≡ status_after_all id es (status id s.connections)
  unfolding listen status_after_all
  listen-status id [] s s' h = cc
  listen-status id (e ∷ es) s s' h =
      listen-status id es _ s' (listen-server_of e es s s' _ refl h)
      ∙ ap (status_after_all id es) (handle_event-status id e s)

  -- A text that is no JSON, from a client that is connected, leaves the handling as an exception:
  -- whatever comes after it is not handled.
  pub malformed_text_ends :
      (id : ℕ) (message : Bytes) (c : Connection) (es : List ServerEvent) (s : Server)
      → get_connection id s.connections ≡ some c
      → parse message ≡ none
      → listen parse receive_request (websocket_message id op_text message ∷ es) s ≡ thrown s
  unfolding listen handle_event handle_websocket_message handle_text_parsed
  malformed_text_ends id message c es s found e = ground arith
