-- ===== src/ServiceGateway.antt =====
-- The service gateway: ServiceGateway::processRequestMessage and receivedRequestMessage
-- (libs/ServiceGateway/src/ServiceGateway.cpp). The JSON-RPC library parses a request and prints a
-- response; the message broker sends a message. What these answer is an argument.
pub mod Tokenizer
pub mod Numeral
pub mod Requests
use sugo_machine_application.Prelude.{
  ℕ, suc, ◌+◌, ◌-◌, ◌*◌, ◌%◌, ◌^◌, Bool, true, false, not, ◌&&◌, ◌||◌, leb, ◌==◌, if◌then◌else◌,
  List, [], ◌∷◌, Option, none, some, length,
}
use sugo_machine_application.Prelude.Int.{ℤ, pos, negsuc, sub_ℕ}
use sugo_machine_application.Hal.Words.{word32}
use sugo_machine_application.Framework.Message.{Result, invalid_message, is_success}
use Tokenizer.{Bytes, split}

-- A request and a response of JSON-RPC; parameters and data are JSON texts.
pub record Request : Type 0 where
  pub method : Bytes
  pub id : ℕ
  pub params : Option Bytes

pub data Answer : Type 0 where
  result_of : Result → Option Bytes → Answer
  error_of : Bytes → Result → Answer

-- The message that is sent, and the response that comes back from the broker.
pub record Message : Type 0 where
  pub id : ℕ
  pub sequence : ℕ
  pub payload : Bytes

pub record Response : Type 0 where
  pub result : Result
  pub error : Bytes
  pub payload : Bytes

-- A call of the broker: the message and the receiver's address.
abbrev pub Sent : Type 0
Sent = Message × Bytes

abbrev is_digit : ℕ → Bool
is_digit c = leb 48 c && leb c 57

abbrev pub is_space : ℕ → Bool
is_space c = c == 32 || (leb 9 c && leb c 13)

-- std::atoi: white space, a sign and digits; what follows is not read. A value that does not fit an
-- int is left open by the language, and wraps around where it is used as an identifier.
unfoldable pub digits : ℕ → Bytes → ℕ
digits value [] = value
digits value (c ∷ cs) =
    let rest = digits (value * 10 + (c - 48)) cs in if is_digit c then rest else value

unfoldable pub signed : Bytes → ℤ
unfolding digits
signed [] = pos 0
signed (c ∷ cs) =
    if c == 45
    then sub_ℕ 0 (digits 0 cs)
    else (if c == 43 then pos (digits 0 cs) else pos (digits 0 (c ∷ cs)))

unfoldable pub atoi : Bytes → ℤ
unfolding signed
atoi [] = pos 0
atoi (c ∷ cs) = let rest = atoi cs in if is_space c then rest else signed (c ∷ cs)

abbrev pub dot : ℕ
dot = 46

-- The receiver's address and the method of a request: two tokens that are not empty.
unfoldable pub address_and_method : List Bytes → Option (Bytes × Bytes)
address_and_method ((a ∷ address) ∷ (m ∷ method) ∷ []) = some (a ∷ address, m ∷ method)
address_and_method _ = none

-- "invalid format".
abbrev pub invalid_format : Bytes
invalid_format = 105 ∷ 110 ∷ 118 ∷ 97 ∷ 108 ∷ 105 ∷ 100 ∷ 32 ∷ 102 ∷ 111 ∷ 114 ∷ 109 ∷ 97 ∷ 116 ∷ []

abbrev pub payload_of : Option Bytes → Bytes
payload_of none = []
payload_of (some text) = text

unfoldable pub message_of : Request → Bytes → Message
unfolding atoi word32
message_of request method = record {
  id = word32 (atoi method);
  sequence = request.id;
  payload = payload_of request.params;
}

abbrev data_of : Bytes → Option Bytes
data_of [] = none
data_of (b ∷ bs) = some (b ∷ bs)

unfoldable pub answer_of : Bool → Response → Answer
unfolding is_success
answer_of sent r =
    if sent && is_success r.result
    then result_of r.result (data_of r.payload)
    else error_of r.error r.result

-- `processRequestMessage`: the call of the broker, if there is one, and the answer.
unfoldable pub send_to :
    (Sent → Bool × Response) → Request → Option (Bytes × Bytes) → Option Sent × Answer
unfolding message_of answer_of
send_to send request none = (none, error_of invalid_format invalid_message)
send_to send request (some (address, method)) =
    let call : Sent = (message_of request method, address) in
    let (sent, response) = send call in (some call, answer_of sent response)

unfoldable pub process_request_message : (Sent → Bool × Response) → Request → Option Sent × Answer
unfolding split address_and_method send_to
process_request_message send request =
    send_to send request (address_and_method (split dot request.method))

-- What the parser of the library makes of a received text.
pub data Entity : Type 0 where
  request_entity : Request → Entity
  other_entity : Entity
  parse_error : Entity

-- `receivedRequestMessage`: the answer that is written, if any.
unfoldable pub received_request_message :
    (Sent → Bool × Response) → (Bytes → Entity) → Bytes → Option Sent × Option Answer
unfolding process_request_message
received_request_message send parse text = elim (parse text) [
  | request_entity request ↦
      let (call, answer) = process_request_message send request in (call, some answer)
  | other_entity ↦ (none, none)
  | parse_error ↦ (none, none)
]
