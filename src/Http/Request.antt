-- ===== src/Http/Request.antt =====
-- A request as the handlers read it, what they use of other packages, and `decodeJSON`
-- (internal/httpapi/server.go).
use Prim.Native.String.{◌++◌}
use ledger_service.Prelude.{
  ℕ, ◌^◌, Bool, false, not, ◌&&◌, String, str_eq, Option, none, some, List,
}
use ledger_service.Domain.{
  CreateAccountRequest, TopUpRequest, WithdrawalRequest, CardAllocationRequest, CardReturnRequest,
  AuthorizationRequest, IncrementAuthorizationRequest, invalid_request, Result, ok, err,
}
use ledger_service.Domain.Chain.{◌>>=◌, ◌>>◌, fail_if}
use ledger_service.Http.Metrics.{Samples}
use ledger_service.Http.Writer.{Call}

-- `content_type` is the header, which is empty where there is none.
pub record HttpRequest : Type 0 where
  pub method : String
  pub path : String
  pub content_type : String
  pub body : String

-- the routes of `NewHandler`
pub data Route : Type 0 where
  create_account get_balance topup withdrawal card_allocation card_return : Route
  authorization authorization_increment : Route
  liveness readiness metrics : Route

-- what a decoder returns: an error's text, or a value and the decoder behind it
pub data Decoded (D A : Type 0) : Type 0 where
  malformed : String → Decoded D A
  decoded : A → D → Decoded D A

-- What the handlers use of Go's packages and of promhttp. A `D` is a JSON decoder that refuses
-- unknown fields, over a body that is cut off behind a number of bytes; `at_eof` says that the next
-- value is not there but the end of the input. The router picks the route of a request by the patterns.
pub record Web (D : Type 0) : Type 0 where
  pub parse_media_type : String → Option String
  pub equal_fold : String → String → Bool
  pub new_decoder : ℕ → String → D
  pub decode_create_account : D → Decoded D CreateAccountRequest
  pub decode_top_up : D → Decoded D TopUpRequest
  pub decode_withdrawal : D → Decoded D WithdrawalRequest
  pub decode_card_allocation : D → Decoded D CardAllocationRequest
  pub decode_card_return : D → Decoded D CardReturnRequest
  pub decode_authorization : D → Decoded D AuthorizationRequest
  pub decode_increment : D → Decoded D IncrementAuthorizationRequest
  pub at_eof : D → Bool
  pub serve_mux : (Route → String) → HttpRequest → Option Route
  pub path_value : String → HttpRequest → String
  pub unmatched : HttpRequest → List Call
  pub metrics_page : Samples → Samples → List Call
  pub format_time : ℕ → String

-- `maxRequestBytes`
abbrev pub max_request_bytes : ℕ
max_request_bytes = 2 ^ 20

module _ {D : Type 0} (web : Web D) where
  -- the test of a media type in `decodeJSON`
  unfoldable pub is_json : Option String → Bool
  is_json none = false
  is_json (some media_type) = web.equal_fold media_type "application/json"

  -- the result of the decoder's first value
  abbrev first_value : {A : Type 0} → Decoded D A → Result (A × D)
  first_value (malformed text) = err (invalid_request ("invalid JSON body: " ++ text))
  first_value (decoded a rest) = ok (a, rest)

  -- `decodeJSON`
  unfoldable pub decode_json : {A : Type 0} → (D → Decoded D A) → HttpRequest → Result A
  unfolding is_json
  decode_json decode request = do
    fail_if
        (not (str_eq request.content_type "")
          && not (is_json (web.parse_media_type request.content_type)))
        (invalid_request "Content-Type must be application/json")
    first ← first_value (decode (web.new_decoder max_request_bytes request.body))
    fail_if (not (web.at_eof first.1)) (invalid_request "request body must contain one JSON value")
    ok first.0
