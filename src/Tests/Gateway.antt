-- ===== src/Tests/Gateway.antt =====
-- The service gateway on a concrete request, the remote control server on concrete events.
use sugo_machine_application.Prelude.{◌≡◌, refl, Bool, true, false, List, [], ◌∷◌, none, some}
use sugo_machine_application.Framework.Message.{success}
use sugo_machine_application.ServiceGateway.Tokenizer.{Bytes, split, lines}
use sugo_machine_application.ServiceGateway.{
  Request, Response, Message, Sent, dot, message_of, atoi, signed, digits,
}
use sugo_machine_application.RemoteControl.{
  Server, ServerEvent, listen, handle_event, insert, erase, set_open, get_connection,
  handle_websocket_message, handle_text_parsed, handle_websocket_control, handled, opened,
  websocket_opened, websocket_message, websocket_control, text, send_notification,
}
use sugo_machine_application.RemoteControl.Sessions.{status_after_all}
use sugo_machine_application.RemoteControl.Notifications.{
  texts_to, received, send_notification-listen,
}
use sugo_machine_application.Hal.Words.{word32}

-- "ab.42".
abbrev ab_42 : Request
ab_42 = record { method = 97 ∷ 98 ∷ 46 ∷ 52 ∷ 50 ∷ []; id = 3; params = none }

abbrev accepting : Sent → Bool × Response
accepting call = (true, record { result = success; error = []; payload = [] })

ab_42_id : (message_of ab_42 (52 ∷ 50 ∷ [])).id ≡ 42
unfolding message_of atoi signed digits word32
ab_42_id = refl

trailing_dot : split dot (97 ∷ 46 ∷ []) ≡ (97 ∷ []) ∷ []
unfolding split lines
trailing_dot = refl

-- Two clients open a websocket, the first sends "7", the second closes its websocket.
abbrev two_clients : List ServerEvent
two_clients =
    opened 1
    ∷ opened 2
    ∷ websocket_opened 1
    ∷ websocket_opened 2
    ∷ websocket_message 1 129 (55 ∷ [])
    ∷ websocket_control 2 136
    ∷ []

abbrev nobody : Server
nobody = record { connections = []; history = [] }

abbrev first_left : Server
first_left = record {
  connections =
      record { client_id = 2; is_open_websocket = false }
      ∷ record { client_id = 1; is_open_websocket = true }
      ∷ [];
  history = text 1 (55 ∷ []) ∷ [];
}

two_clients_end :
    listen {J = Bytes} (λ text. some text) (λ id request. some request) two_clients nobody
    ≡ handled first_left
unfolding listen handle_event insert erase set_open get_connection handle_websocket_message
    handle_text_parsed handle_websocket_control
two_clients_end = refl

send_notification_example :
    texts_to 1 (send_notification (56 ∷ []) first_left).history
    ≡ received (status_after_all 1 two_clients none) (56 ∷ []) (texts_to 1 (text 1 (55 ∷ []) ∷ []))
send_notification_example =
    send_notification-listen {J = Bytes} (λ text. some text) (λ id request. some request) 1
      (56 ∷ []) two_clients nobody first_left refl two_clients_end
