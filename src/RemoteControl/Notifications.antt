-- ===== src/RemoteControl/Notifications.antt =====
-- Whom a notification of the remote control server reaches: RemoteControlServer::sendNotification
-- (libs/RemoteControl/src/RemoteControlServer.cpp).
use sugo_machine_application.Prelude.{
  ℕ, ◌%◌, ◌≡◌, refl, sym, ap, ◌∙◌, subst, Bool, true, false, ◌==◌, if◌then◌else◌, List, [], ◌∷◌,
  Option, none, some, arith,
}
use sugo_machine_application.MessageBroker.Identifier.{Bytes}
use sugo_machine_application.RemoteControl.{
  Connection, Server, ServerEvent, Handled, get_connection, erase, insert, set_open,
  handle_http_message, handle_websocket_message, handle_websocket_control, handle_event, listen,
  notify_all, Sent, text, send_notification, with_connection, http_message, error_raised, opened,
  closed, websocket_opened, websocket_message, websocket_control, not_handled, handled,
  websocket_uri, state_uri, other_uri, websocket_op_mask, op_close,
}
use sugo_machine_application.RemoteControl.Sessions.{
  status, status_after_all, server_of, listen-status, listen-server_of, message_keeps,
}

-- The keys of the map differ.
unfoldable pub UniqueClients : List Connection → Type 0
UniqueClients [] = Unit
UniqueClients (c ∷ cs) = (get_connection c.client_id cs ≡ none) × UniqueClients cs

get_connection-erase :
    (i j : ℕ) (cs : List Connection)
    → get_connection i cs ≡ none
    → get_connection i (erase j cs) ≡ none
unfolding get_connection erase
get_connection-erase i j [] e = refl
get_connection-erase i j (c ∷ cs) e = let ih = get_connection-erase i j cs in ground arith

erased : (i : ℕ) (cs : List Connection) → get_connection i (erase i cs) ≡ none
unfolding get_connection erase
erased i [] = refl
erased i (c ∷ cs) = let ih = erased i cs in ground arith

get_connection-set_open :
    (i j : ℕ) (b : Bool) (cs : List Connection)
    → get_connection i cs ≡ none
    → get_connection i (set_open j b cs) ≡ none
unfolding get_connection set_open
get_connection-set_open i j b [] e = refl
get_connection-set_open i j b (c ∷ cs) e = let ih = get_connection-set_open i j b cs in ground arith

if-UniqueClients :
    (b : Bool) (cs ds : List Connection)
    → UniqueClients cs
    → UniqueClients ds
    → UniqueClients (if b then cs else ds)
if-UniqueClients true cs ds u v = u
if-UniqueClients false cs ds u v = v

erase-UniqueClients : (j : ℕ) (cs : List Connection) → UniqueClients cs → UniqueClients (erase j cs)
unfolding UniqueClients erase
erase-UniqueClients j [] u = tt
erase-UniqueClients j (c ∷ cs) (n, u) =
    let ih = erase-UniqueClients j cs u in
    if-UniqueClients (c.client_id == j) _ _ ih (get_connection-erase c.client_id j cs n, ih)

if_client :
    (same b : Bool) (c : Connection)
    → c.client_id ≡ (if same then record c { is_open_websocket = b } else c).client_id
if_client true b c = refl
if_client false b c = refl

set_open-UniqueClients :
    (j : ℕ) (b : Bool) (cs : List Connection) → UniqueClients cs → UniqueClients (set_open j b cs)
unfolding UniqueClients set_open
set_open-UniqueClients j b [] u = tt
set_open-UniqueClients j b (c ∷ cs) (n, u) = (
  sym (ap (λ k. get_connection k (set_open j b cs)) (if_client (c.client_id == j) b c))
      ∙ get_connection-set_open c.client_id j b cs n,
  set_open-UniqueClients j b cs u,
)

-- The texts that a client got.
unfoldable pub texts_to : ℕ → List Sent → List Bytes
texts_to id [] = []
texts_to id (text j message ∷ h) =
    let rest = texts_to id h in if j == id then message ∷ rest else rest
texts_to id (_ ∷ h) = texts_to id h

unfoldable pub received : Option Bool → Bytes → List Bytes → List Bytes
received (some true) message messages = message ∷ messages
received _ message messages = messages

texts_to-notified :
    (id : ℕ) (message : Bytes) (c : Connection) (h : List Sent)
    → texts_to id (if c.is_open_websocket then text c.client_id message ∷ h else h) ≡ (
        if c.client_id == id
        then received (some c.is_open_websocket) message (texts_to id h)
        else texts_to id h)
unfolding texts_to received
texts_to-notified id message c h = ground arith

not_notified :
    (id : ℕ) (message : Bytes) (cs : List Connection) (h : List Sent)
    → get_connection id cs ≡ none
    → texts_to id (notify_all message cs h) ≡ texts_to id h
unfolding texts_to notify_all get_connection
not_notified id message [] h e = refl
not_notified id message (c ∷ cs) h e =
    not_notified id message cs _ (ground arith)
    ∙ (let t = texts_to-notified id message c h in ground arith)

received_or_not :
    (same is_open : Bool) (known : Option Bool) (message : Bytes)
    (before between after : List Bytes)
    → between ≡ (if same then received (some is_open) message before else before)
    → after ≡ received known message between
    → (same ≡ true → after ≡ between)
    → after ≡ received (if same then some is_open else known) message before
received_or_not true is_open known message before between after t others alone = alone refl ∙ t
received_or_not false is_open known message before between after t others alone =
    others ∙ ap (received known message) t

notify_all-received :
    (id : ℕ) (message : Bytes) (cs : List Connection) (h : List Sent)
    → UniqueClients cs
    → texts_to id (notify_all message cs h) ≡ received (status id cs) message (texts_to id h)
unfolding texts_to notify_all UniqueClients received status
notify_all-received id message [] h u = refl
notify_all-received id message (c ∷ cs) h (n, u) =
    let h' = if c.is_open_websocket then text c.client_id message ∷ h else h in
    received_or_not (c.client_id == id) c.is_open_websocket (status id cs) message _ _ _
      (texts_to-notified id message c h) (notify_all-received id message cs h' u)
      (λ same. not_notified id message cs h' (ground arith))

control-UniqueClients :
    (j flags : ℕ) (s : Server)
    → UniqueClients s.connections
    → UniqueClients (handle_websocket_control j flags s).connections
unfolding handle_websocket_control
control-UniqueClients j flags s u = by_flags (flags % websocket_op_mask == op_close)
  where
    by_flags :
        (b : Bool)
        → UniqueClients
            (if b then record s { connections = set_open j false s.connections } else s).connections
    by_flags true = set_open-UniqueClients j false s.connections u
    by_flags false = u

with_connection-UniqueClients :
    (c : Option Connection) (s : Server) (handle : Server → Handled)
    → UniqueClients s.connections
    → UniqueClients (server_of (handle s)).connections
    → UniqueClients (server_of (with_connection c s handle)).connections
unfolding server_of
with_connection-UniqueClients none s handle u v = u
with_connection-UniqueClients (some c) s handle u v = v

module _ {J : Type 0} (parse : Bytes → Option J) (receive_request : ℕ → J → Option Bytes) where
  handle_event-UniqueClients :
      (e : ServerEvent) (s : Server)
      → UniqueClients s.connections
      → UniqueClients (server_of (handle_event parse receive_request e s)).connections
  unfolding handle_event server_of insert UniqueClients handle_http_message handle_websocket_control
  handle_event-UniqueClients (http_message j websocket_uri) s u =
      with_connection-UniqueClients (get_connection j s.connections) s
        (λ t. handled (handle_http_message j websocket_uri t)) u u
  handle_event-UniqueClients (http_message j state_uri) s u =
      with_connection-UniqueClients (get_connection j s.connections) s handled u u
  handle_event-UniqueClients (http_message j other_uri) s u =
      with_connection-UniqueClients (get_connection j s.connections) s
        (λ t. handled (handle_http_message j other_uri t)) u u
  handle_event-UniqueClients (error_raised j) s u =
      with_connection-UniqueClients (get_connection j s.connections) s handled u u
  handle_event-UniqueClients (opened j) s u =
      (erased j s.connections, erase-UniqueClients j s.connections u)
  handle_event-UniqueClients (closed j) s u = erase-UniqueClients j s.connections u
  handle_event-UniqueClients (websocket_opened j) s u =
      with_connection-UniqueClients (get_connection j s.connections) s
        (λ t. handled (record t { connections = set_open j true t.connections })) u
        (set_open-UniqueClients j true s.connections u)
  handle_event-UniqueClients (websocket_message j flags message) s u =
      with_connection-UniqueClients (get_connection j s.connections) s
        (handle_websocket_message parse receive_request j flags message) u
        (subst UniqueClients (sym (message_keeps parse receive_request j flags message s)) u)
  handle_event-UniqueClients (websocket_control j flags) s u =
      with_connection-UniqueClients (get_connection j s.connections) s
        (λ t. handled (handle_websocket_control j flags t)) u (control-UniqueClients j flags s u)
  handle_event-UniqueClients not_handled s u = u

  listen-UniqueClients :
      (es : List ServerEvent) (s s' : Server)
      → listen parse receive_request es s ≡ handled s'
      → UniqueClients s.connections
      → UniqueClients s'.connections
  unfolding listen
  listen-UniqueClients [] s s' h u =
      let e : s ≡ s' = cc in subst (λ (t : Server). UniqueClients t.connections) e u
  listen-UniqueClients (e ∷ es) s s' h u =
      listen-UniqueClients es _ s' (listen-server_of parse receive_request e es s s' _ refl h)
        (handle_event-UniqueClients e s u)

  -- When a server without connections has handled a sequence of events, a notification reaches a
  -- client once if the client's own events leave its websocket open, and not at all otherwise.
  pub send_notification-listen :
      (id : ℕ) (message : Bytes) (es : List ServerEvent) (s s' : Server)
      → s.connections ≡ []
      → listen parse receive_request es s ≡ handled s'
      → texts_to id (send_notification message s').history
        ≡ received (status_after_all id es none) message (texts_to id s'.history)
  unfolding send_notification status UniqueClients
  send_notification-listen id message es s s' empty h =
      notify_all-received id message s'.connections s'.history
        (listen-UniqueClients es s s' h (subst UniqueClients (sym empty) tt))
      ∙ ap (λ known. received known message (texts_to id s'.history))
          (listen-status parse receive_request id es s s' h
            ∙ ap (λ cs. status_after_all id es (status id cs)) empty)
