-- ===== src/Http/Writer.antt =====
-- The calls of a handler on its `http.ResponseWriter`, what a client sees of them, and `writeJSON`
-- (internal/httpapi/server.go).
use ledger_service.Prelude.{ℕ, ◌≤◌, leb, ◌&&◌, String, Option, List, [], ◌∷◌, if◌then◌else◌}
use ledger_service.Prelude.Int.{ℤ}
use ledger_service.Domain.{
  AccountResponse, BalanceResponse, TransactionResponse, AuthorizationResponse,
  IncrementAuthorizationResponse, ErrorResponse,
}

-- the body of `ready`; `last_ledger_success` is absent before the first success
pub record ReadyResponse : Type 0 where
  pub status : String
  pub reason : Option String
  pub ledger_calls_in_flight : ℕ
  pub oldest_ledger_call_ms : ℤ
  pub last_ledger_success : Option String

-- what is encoded as the JSON of a body; `page` is a text that another handler writes
pub data Body : Type 0 where
  account_body : AccountResponse → Body
  balance_body : BalanceResponse → Body
  transaction_body : TransactionResponse → Body
  authorization_body : AuthorizationResponse → Body
  increment_body : IncrementAuthorizationResponse → Body
  error_body : ErrorResponse → Body
  live_body : String → Body
  ready_body : ReadyResponse → Body
  page : String → Body

-- `Header().Set`, `WriteHeader` and `Write`
pub data Call : Type 0 where
  set_header : String → String → Call
  write_header : ℕ → Call
  write : Body → Call

-- The status that the client gets: the first that is written and is not informational, and 200 where a
-- body comes first, as net/http documents.
abbrev pub shown : List Call → ℕ
shown [] = 200
shown (set_header _ _ ∷ calls) = shown calls
shown (write_header status ∷ calls) =
    let later = shown calls in if leb 100 status && leb status 199 then later else status
shown (write _ ∷ _) = 200

-- the bodies written
abbrev pub bodies : List Call → List Body
bodies [] = []
bodies (set_header _ _ ∷ calls) = bodies calls
bodies (write_header _ ∷ calls) = bodies calls
bodies (write body ∷ calls) = body ∷ bodies calls

-- the statuses written
abbrev pub statuses : List Call → List ℕ
statuses [] = []
statuses (set_header _ _ ∷ calls) = statuses calls
statuses (write_header status ∷ calls) = status ∷ statuses calls
statuses (write _ ∷ calls) = statuses calls

-- no informational status is written
abbrev pub AllFinal : List Call → Type 0
AllFinal [] = Unit
AllFinal (set_header _ _ ∷ calls) = AllFinal calls
AllFinal (write_header status ∷ calls) = (200 ≤ status) × AllFinal calls
AllFinal (write _ ∷ calls) = AllFinal calls

-- `writeJSON`
unfoldable pub write_json : ℕ → Body → List Call
write_json status body =
    set_header "Content-Type" "application/json" ∷ write_header status ∷ write body ∷ []
