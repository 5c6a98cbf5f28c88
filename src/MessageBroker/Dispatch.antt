-- ===== src/MessageBroker/Dispatch.antt =====
-- Which handler a broker calls for a received message, and what it answers.
use sugo_machine_application.Prelude.{
  ℕ, ◌≡◌, Bool, true, false, List, [], ◌∷◌, none, some, arith, ◌==◌, if◌then◌else◌,
}
use sugo_machine_application.Framework.Message.{
  Message, Response, unsupported_request, refer_to, create_error_response,
}
use sugo_machine_application.MessageBroker.{
  Broker, find, erase, assign, register_request_message_handler, unregister_message_handler,
  has_registered_message_handler, process_received_request_message,
  process_received_notification_message,
}

module _ {A : Type 0} where
  -- An erased key is gone and the other keys stay.
  pub find-erase :
      (id other : ℕ) (map : List (ℕ × A))
      → find other (erase id map) ≡ (if id == other then none else find other map)
  unfolding find erase
  find-erase id other [] = ground arith
  find-erase id other ((key, value) ∷ rest) = ground (arith, find-erase id other rest)

  pub find-assign :
      (id other : ℕ) (value : A) (map : List (ℕ × A))
      → find other (assign id value map) ≡ (if id == other then some value else find other map)
  unfolding find assign
  find-assign id other value map = ground (arith, find-erase id other map)

module _ {W : Type 0} where
  -- A request whose handler was the last one to be registered under its identifier is answered by
  -- that handler, and the response that is written, if it can be serialized, has the header of
  -- the request whatever header the handler gave it. A request of another identifier is answered
  -- as before the registration.
  pub process_received_request_message-register :
      (serializes : Response → Bool) (id : ℕ) (handler : Message → W → Response × W) (b : Broker W)
      (message : Message) (w : W)
      → process_received_request_message serializes
          (register_request_message_handler id handler b)
          (some message)
          w
        ≡ (if id == message.header.id
            then (let (response, w') = handler message w in
                let answer = refer_to message response in
                (if serializes answer then some answer else none, w'))
            else process_received_request_message serializes b (some message) w)
  unfolding process_received_request_message register_request_message_handler
  process_received_request_message-register serializes id handler b message w =
      ground (arith, find-assign id message.header.id handler b.request_handlers)

  -- After unregistering an identifier no handler is registered for it, a request with it is
  -- answered with UnsupportedRequest and a notification with it is refused, both without any
  -- change to what the handlers work on.
  pub unregister_message_handler_lem :
      (b : Broker W) (message : Message) (w : W)
      → let b' = unregister_message_handler message.header.id b in
        (has_registered_message_handler message.header.id b' ≡ false)
        × (process_received_request_message (λ _. true) b' (some message) w
            ≡ (some (create_error_response message unsupported_request), w))
        × (process_received_notification_message b' (some message) w ≡ (false, w))
  unfolding unregister_message_handler has_registered_message_handler
      process_received_request_message process_received_notification_message
  unregister_message_handler_lem b message w = ground (
    arith,
    find-erase message.header.id message.header.id b.request_handlers,
    find-erase message.header.id message.header.id b.notification_handlers,
  )
