-- ===== src/Http/Handlers.antt =====
-- The methods of `Server`, the admission of requests and `recoverPanics` (internal/httpapi/server.go
-- and internal/httpapi/admission.go), and `HTTPMiddleware` (internal/observability/metrics.go).
use ledger_service.Prelude.{
  ℕ, ◌+◌, ◌-◌, not, ltb, String, none, some, List, ◌∷◌, ◌++◌, if◌then◌else◌,
}
use ledger_service.Clock.{is_zero, milliseconds}
use ledger_service.Domain.{Error, panicked, Result, ok, err}
use ledger_service.Health.{LedgerHealth, health}
use ledger_service.Http.Errors.{write_failure, write_error}
use ledger_service.Http.Metrics.{
  Samples, ledger_http_requests_total, begin_admission, end_admission, observe_admission_rejection,
  new_status_writer, capture,
}
use ledger_service.Http.Request.{HttpRequest, Web, Decoded, decode_json}
use ledger_service.Http.Writer.{
  Call, set_header, Body, account_body, balance_body, transaction_body, authorization_body,
  increment_body, live_body, ready_body, write_json,
}
use ledger_service.Service.Accounts.{create_account, balance}
use ledger_service.Service.Authorization.{authorize}
use ledger_service.Service.Increment.{increment_authorization}
use ledger_service.Service.Transactions.{top_up, withdraw, allocate_to_card, return_from_card}
use ledger_service.Service.World.{Service, World, M, resumed}

-- The state of the process: that of the service, the admission slots that are taken, and the samples
-- of the HTTP layer.
pub record Process (S : Type 0) : Type 0 where
  pub world : World S
  pub held : ℕ
  pub samples : Samples

-- whether a handler returns or panics
pub data Outcome : Type 0 where
  returned panicking : Outcome

-- what a handler has written, and how it ended
pub record Answer : Type 0 where
  pub calls : List Call
  pub outcome : Outcome

abbrev pub Handler : Type 0 → Type 0
Handler S = HttpRequest → Process S → Answer × Process S

-- a handler that returns
abbrev pub writes : List Call → Answer
writes calls = record { calls = calls; outcome = returned }

-- `writeError` on the error of a method, unless the method panicked
unfoldable pub write_failed : Error → Answer
unfolding write_error
write_failed panicked = record { calls = List.[]; outcome = panicking }
write_failed e = writes (write_error e)

-- the end of a handler: `writeError`, or `writeJSON` of the response
unfoldable pub write_result : {A : Type 0} → (A → Body) → Result (A × ℕ) → Answer
unfolding write_failed write_json
write_result body (ok (response, status)) = writes (write_json status (body response))
write_result body (err e) = write_failed e

-- the end of `balance`, which has the one status
unfoldable pub write_balance : {A : Type 0} → (A → Body) → Result A → Answer
unfolding write_failed write_json
write_balance body (ok response) = writes (write_json 200 (body response))
write_balance body (err e) = write_failed e

-- a method of the service, on the state of the process
abbrev pub run : {S A : Type 0} → M S A → Process S → Result A × Process S
run m p = let (r, w) = m p.world in (r, record p { world = w })

-- `Service.LedgerHealth`, which reads the clock
unfoldable pub ledger_health : {S : Type 0} → Service S → Process S → LedgerHealth × Process S
unfolding resumed
ledger_health s p =
    let (t, e) = s.env.now p.world.env in
    (health p.world.observed t, record p { world = resumed s e p.world })

-- a handler from the result of `decodeJSON` on
unfoldable pub answer_input :
    {S A B : Type 0} → (A → M S (B × ℕ)) → (B → Body) → Result A → Process S → Answer × Process S
unfolding write_result write_failed
answer_input method body (err e) p = (write_failed e, p)
answer_input method body (ok input) p =
    let (r, p') = run (method input) p in (write_result body r, p')

module _ {S D : Type 0} (s : Service S) (web : Web D) where
  -- the lines that the handlers of a body share: `decodeJSON`, the method, and its answer
  unfoldable pub respond :
      {A B : Type 0} → (D → Decoded D A) → (A → M S (B × ℕ)) → (B → Body) → Handler S
  unfolding decode_json answer_input
  respond decode method body request = answer_input method body (decode_json web decode request)

  -- `Server.createAccount`, `topUp`, `withdraw`, `allocateToCard`, `returnFromCard`, `authorize` and
  -- `increment`
  unfoldable pub handle_create_account : Handler S
  unfolding respond
  handle_create_account = respond web.decode_create_account (create_account s) account_body

  unfoldable pub handle_top_up : Handler S
  unfolding respond
  handle_top_up = respond web.decode_top_up (top_up s) transaction_body

  unfoldable pub handle_withdraw : Handler S
  unfolding respond
  handle_withdraw = respond web.decode_withdrawal (withdraw s) transaction_body

  unfoldable pub handle_allocate_to_card : Handler S
  unfolding respond
  handle_allocate_to_card = respond web.decode_card_allocation (allocate_to_card s) transaction_body

  unfoldable pub handle_return_from_card : Handler S
  unfolding respond
  handle_return_from_card = respond web.decode_card_return (return_from_card s) transaction_body

  unfoldable pub handle_authorize : Handler S
  unfolding respond
  handle_authorize = respond web.decode_authorization (authorize s) authorization_body

  unfoldable pub handle_increment : Handler S
  unfolding respond
  handle_increment = respond web.decode_increment (increment_authorization s) increment_body

  -- `Server.balance`
  unfoldable pub handle_balance : Handler S
  unfolding write_balance
  handle_balance request p =
      let (r, p') = run (balance s (web.path_value "account_id" request)) p in
      (write_balance balance_body r, p')

  -- `Server.live`
  unfoldable pub handle_live : Handler S
  unfolding write_json
  handle_live request p = (writes (write_json 200 (live_body "ok")), p)

  -- `Server.ready`
  unfoldable pub handle_ready : Handler S
  unfolding write_json ledger_health
  handle_ready request p =
      let (h, p') = ledger_health s p in
      (
        writes (
            write_json (if h.ready then 200 else 503) (
              ready_body (record {
                status = if h.ready then "ready" else "not_ready";
                reason = if h.ready then none else some "ledger_stalled";
                ledger_calls_in_flight = h.in_flight;
                oldest_ledger_call_ms = milliseconds h.oldest;
                last_ledger_success =
                    if not (is_zero h.last_success)
                    then some (web.format_time h.last_success)
                    else none;
              }))),
        p',
      )

-- the answer of `Wrap` to a request that is not admitted
unfoldable pub reject : {S : Type 0} → String → String → String → Process S → Answer × Process S
unfolding write_failure
reject reason code message p = (
  writes (set_header "Retry-After" "1" ∷ write_failure 503 code message),
  record p { samples = observe_admission_rejection reason p.samples },
)

-- the `select` of `Wrap`, with `limit` slots; the deferred function runs after a panic as well
unfoldable pub take_slot : {S : Type 0} → ℕ → Handler S → Handler S
unfolding reject
take_slot limit next request p =
    if ltb p.held limit
    then (let (answer, p') =
          next request (record p { held = p.held + 1; samples = begin_admission p.samples }) in
        (answer, record p' { held = p'.held - 1; samples = end_admission p'.samples }))
    else reject "capacity" "overloaded" "too many operations are in flight; retry the same request"
        p

-- `admissionController.Wrap`
unfoldable pub wrap : {S : Type 0} → Service S → ℕ → Handler S → Handler S
unfolding ledger_health take_slot reject
wrap s limit next request p =
    let (h, p') = ledger_health s p in
    if not h.ready
    then reject "ledger_stalled" "ledger_stalled"
        "the ledger is not responding; retry the same request" p'
    else take_slot limit next request p'

-- the sample of a request whose handler has returned
abbrev count_request : Outcome → String → String → ℕ → Samples → Samples
count_request returned method route status samples =
    ledger_http_requests_total method route status ∷ samples
count_request panicking method route status samples = samples

-- `Metrics.HTTPMiddleware`
unfoldable pub http_middleware : {S : Type 0} → String → Handler S → Handler S
unfolding capture
http_middleware route next request p =
    let (answer, p') = next request p in
    let (writer, calls) = capture new_status_writer answer.calls in
    (
      record answer { calls = calls },
      record p' {
        samples = count_request answer.outcome request.method route writer.status p'.samples;
      },
    )

-- the deferred function of `recoverPanics`, but for the line that it logs
unfoldable pub recovered : Answer → Answer
unfolding write_failure
recovered answer = elim answer.outcome [
  | returned ↦ answer
  | panicking ↦
      writes (answer.calls ++ write_failure 500 "internal_error" "an internal error occurred")
]

-- `recoverPanics`
unfoldable pub recover_panics : {S : Type 0} → Handler S → Handler S
unfolding recovered
recover_panics next request p = let (answer, p') = next request p in (recovered answer, p')
