-- ===== src/MessageBroker/Connections.antt =====
-- The connections of a broker's client after a request.
use sugo_machine_application.Prelude.{
  ◌≡◌, ◌+◌, ◌%◌, ◌^◌, refl, Bool, true, false, List, [], ◌∷◌, none, some, arith,
}
use sugo_machine_application.Framework.Message.{Message, Response}
use sugo_machine_application.MessageBroker.Identifier.{Bytes}
use sugo_machine_application.MessageBroker.Client.{ClientState, Transport, drop_endpoint, eqb_bytes}
use sugo_machine_application.MessageBroker.{Broker, send, create_full_qualified_address, responder}

eqb_bytes_refl : (a : Bytes) → eqb_bytes a a ≡ true
eqb_bytes_refl [] = refl
eqb_bytes_refl (b ∷ bs) = ground (arith, eqb_bytes_refl bs)

drop_endpoint-head : (a : Bytes) (es : List Bytes) → drop_endpoint a (a ∷ es) ≡ es
unfolding drop_endpoint
drop_endpoint-head a es = rw (eqb_bytes_refl a) refl

qualified-connected : (a : Bytes) → eqb_bytes (create_full_qualified_address a responder) [] ≡ false
unfolding create_full_qualified_address
qualified-connected a = refl

module _ {W : Type 0} where
  -- A request that succeeds hands on the response that came back, takes one sequence number and
  -- leaves the connections of the client as they were, whatever they were before.
  pub send_success_lem :
      (transport : Transport) (serializes : Message → Bool) (receiver : Bytes) (message : Message)
      (response : Response) (b : Broker W) (c : ClientState)
      → let (result, (b', c')) = send transport serializes receiver message response (b, c) in
        result.0 ≡ true
        → (transport.received ≡ some (true, result.1))
          × (b' ≡ record b { sequence_number = (b.sequence_number + 1) % 2 ^ 32 })
          × (c'.endpoints ≡ c.endpoints)
          × (c'.address ≡ [])
  unfolding send
  send_success_lem transport serializes receiver message response b c h =
      let full = create_full_qualified_address receiver responder in
      ground (arith, drop_endpoint-head full c.endpoints, qualified-connected receiver)

  -- A request that is sent but gets no response in time fails, does not touch the response object,
  -- and leaves the client connected to the receiver in addition to the connections from before.
  pub send_timeout_lem :
      (transport : Transport) (serializes : Message → Bool) (receiver : Bytes) (message : Message)
      (response : Response) (b : Broker W) (c : ClientState)
      → transport.connects ≡ true
      → ((m : Message) → serializes m ≡ true)
      → transport.received ≡ none
      → let (result, (_, c')) = send transport serializes receiver message response (b, c) in
        (result ≡ (false, response))
        × (c'.endpoints ≡ create_full_qualified_address receiver responder ∷ c.endpoints)
  unfolding send
  send_timeout_lem transport serializes receiver message response b c on fits late = ground arith
