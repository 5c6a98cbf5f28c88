-- ===== src/Framework/Stated/Requests.antt =====
-- What the sender of a request learns from its response.
use sugo_machine_application.Prelude.{
  ◌≡◌, ◌⊎◌, ◌<◌, ◌+◌, ◌++◌, refl, [], ◌∷◌, arith, none, some, length,
}
use sugo_machine_application.Framework.EventQueue.Fifo.{IsBounded}
use sugo_machine_application.Framework.Message.{
  Component, RequestTopic, Message, Response, success, unsupported_request, nothing, error_reason,
}
use sugo_machine_application.Framework.World.{World, Environment, sent, forward}
use sugo_machine_application.Framework.Stated.{handle_event_message}

module _ {D E : Type 0} where
  -- On a bounded queue, a message for an event gets a response with the message's identifier. If the
  -- queue has room, the event is put at its end and the response is a success with an empty
  -- payload. If it has none, nothing changes, the response is UnsupportedRequest, and its payload
  -- holds this result as the reason.
  pub handle_event_message_lem :
      (message : Message) (e : E) (w : World D E)
      → IsBounded w.queue
      → let (response, w') = handle_event_message message e w in
        (response.header.id ≡ message.header.id)
        × (w'.fields ≡ w.fields)
        × (w'.history ≡ w.history)
        × (((length w.queue.events + 1 < w.queue.max_size)
              × (w'.queue.events ≡ w.queue.events ++ e ∷ [])
              × (response.result ≡ success)
              × (response.payload ≡ nothing))
            ⊎ ((length w.queue.events + 1 ≡ w.queue.max_size)
                × (w'.queue ≡ w.queue)
                × (response.result ≡ unsupported_request)
                × (response.payload ≡ error_reason unsupported_request)))
  unfolding handle_event_message
  handle_event_message_lem message e w h = ground arith

  -- A forwarded message sends exactly one request, with the payload of the message, and changes
  -- no field and no event. If the receiver answers, its response is handed on as it is; if the
  -- request does not come through, the response still is a success.
  pub forward_lem :
      (env : Environment) (message : Message) (receiver : Component) (topic : RequestTopic)
      (w : World D E)
      → let (response, w') = forward env message receiver topic w in
        let answer = env.reply w.history receiver topic message.payload in
        (w' ≡ record w { history = sent receiver topic message.payload ∷ w.history })
        × ((r : Response) → answer ≡ some r → response ≡ r)
        × (answer ≡ none → response.result ≡ success)
  unfolding forward
  forward_lem env message receiver topic w = (refl, λ r h. ground arith, λ h. ground arith)
