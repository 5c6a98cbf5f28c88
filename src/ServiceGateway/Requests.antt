-- ===== src/ServiceGateway/Requests.antt =====
-- The requests that the service gateway passes on: ServiceGateway::processRequestMessage
-- (libs/ServiceGateway/src/ServiceGateway.cpp).
use sugo_machine_application.Prelude.{
  ℕ, ◌≡◌, ◌≢◌, ap, Bool, true, false, [], ◌∷◌, Option, none, some,
}
use sugo_machine_application.Framework.Message.{success}
use sugo_machine_application.ServiceGateway.Tokenizer.{Bytes}
use sugo_machine_application.ServiceGateway.{
  Response, Answer, Message, result_of, answer_of, error_of,
}

-- The answer to a request that the broker has got: the result with the data, if there are any, for a
-- response that came back with success, and otherwise the error of the response.
pub data Answers : Bool → Response → Answer → Type 0 where
  with_data :
      (r : Response) (b : ℕ) (bs : Bytes)
      → r.result ≡ success
      → r.payload ≡ b ∷ bs
      → Answers true r (result_of success (some (b ∷ bs)))
  without_data :
      (r : Response) → r.result ≡ success → r.payload ≡ [] → Answers true r (result_of success none)
  not_sent : (r : Response) → Answers false r (error_of r.error r.result)
  not_successful : (r : Response) → r.result ≢ success → Answers true r (error_of r.error r.result)

-- The text of the parameters, empty for none.
abbrev pub parameters_text : Option Bytes → Bytes
parameters_text none = []
parameters_text (some text) = text

-- A request that the broker could not send is answered with an error whose code is the one of the
-- response object that was not written: Success, as long as nothing else was put in it.
pub answer_of-unsent :
    (r : Response) → r.result ≡ success → answer_of false r ≡ error_of r.error success
unfolding answer_of
answer_of-unsent r e = ap (error_of r.error) e
