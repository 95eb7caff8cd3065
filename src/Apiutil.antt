-- ===== src/Apiutil.antt =====
-- apiutil.go/api.go: the replies of the HTTP handlers. `json.Marshal` does not fail on the data
-- that the handlers send, so the branch for its error has no case here.
use uptp.Common.{ℕ, String, Option, none, some, if◌then◌else◌, ◌==◌, ◌&&◌, nat_eq, text_eq}

pub record ApiResponse (P : Type 0) : Type 0 where
  pub code : ℕ
  pub message : String
  pub payload : Option P

-- What the client receives: a JSON document with status 200, a plain error with its status, or,
-- where the handler panics, a closed connection.
pub data Reply (P : Type 0) : Type 0 where
  api : ApiResponse P → Reply P
  http_error : ℕ → String → Reply P
  dropped : Reply P

-- What `io.ReadAll` and then `json.Unmarshal` make of a request's body.
pub data Body (A : Type 0) : Type 0 where
  unreadable malformed : String → Body A
  parsed : A → Body A

module _ {P : Type 0} where
  -- `SendAPIRespWithOk`
  unfoldable pub send_api_resp_with_ok : ApiResponse P → Reply P
  send_api_resp_with_ok body =
      if body.code == 0 && body.message == ""
      then api (record body { message = "ok" })
      else api body

  -- A reply with no data.
  unfoldable pub send_message : ℕ → String → Reply P
  unfolding send_api_resp_with_ok
  send_message code message =
      send_api_resp_with_ok (record { code = code; message = message; payload = none })

  unfoldable pub send_data : P → String → Reply P
  unfolding send_api_resp_with_ok
  send_data p message =
      send_api_resp_with_ok (record { code = 0; message = message; payload = some p })

  -- The code that the client reads; a plain error is its status.
  abbrev pub code_of : Reply P → ℕ
  code_of (api body) = body.code
  code_of (http_error status text) = status
  code_of dropped = 500
