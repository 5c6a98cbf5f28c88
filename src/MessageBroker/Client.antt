-- ===== src/MessageBroker/Client.antt =====
-- The client of a message broker: libs/MessageBroker/src/Client.cpp, over a request socket of
-- azmq, which is a library. Such a socket can be connected to several addresses at once, and it
-- sends its requests to them in turn.
use sugo_machine_application.Prelude.{
  ℕ, Bool, true, false, not, ◌&&◌, ◌==◌, if◌then◌else◌, List, [], ◌∷◌, Option, none, some,
}
use sugo_machine_application.Framework.Message.{Response}
use sugo_machine_application.MessageBroker.Identifier.{Bytes}

-- The addresses that the socket is connected to, newest first, and the address that the client
-- keeps, empty when it keeps none.
pub record ClientState : Type 0 where
  pub endpoints : List Bytes
  pub address : Bytes

-- What the libraries answer during one request: whether the socket can connect, what it sends (the
-- number of bytes, or none for an error), what comes back in time, if anything does (whether
-- protobuf can parse it, and what the response object holds then), and whether the socket can
-- disconnect.
pub record Transport : Type 0 where
  pub connects : Bool
  pub sent_size : Option ℕ
  pub received : Option (Bool × Response)
  pub disconnects : Bool

abbrev pub eqb_bytes : Bytes → Bytes → Bool
eqb_bytes [] [] = true
eqb_bytes [] (c ∷ cs) = false
eqb_bytes (b ∷ bs) [] = false
eqb_bytes (b ∷ bs) (c ∷ cs) = let rest = eqb_bytes bs cs in b == c && rest

-- A socket that disconnects from an address drops one connection to it.
unfoldable pub drop_endpoint : Bytes → List Bytes → List Bytes
drop_endpoint a [] = []
drop_endpoint a (e ∷ es) = let rest = drop_endpoint a es in if eqb_bytes e a then es else e ∷ rest

unfoldable pub init : ClientState
init = record { endpoints = []; address = [] }

abbrev pub is_connected : ClientState → Bool
is_connected c = not (eqb_bytes c.address [])

unfoldable pub connect : Transport → Bytes → ClientState → Bool × ClientState
connect t address c =
    if t.connects
    then (true, record { endpoints = address ∷ c.endpoints; address = address })
    else (false, c)

unfoldable pub disconnect : Transport → ClientState → Bool × ClientState
unfolding drop_endpoint
disconnect t c =
    if is_connected c
    then (
      t.disconnects,
      record {
        endpoints = if t.disconnects then drop_endpoint c.address c.endpoints else c.endpoints;
        address = [];
      },
    )
    else (false, c)

-- `Client::send`: what comes back, if the request is sent.
unfoldable pub exchange : Transport → Option (Bool × Response)
exchange t = sent t.sent_size
  where
    sent : Option ℕ → Option (Bool × Response)
    sent none = none
    sent (some n) = if n == 0 then none else t.received
