-- ===== src/Http/Replies.antt =====
-- What the handlers of internal/httpapi/server.go write: one JSON value with one of the statuses of the
-- API, whichever way the request goes.
use ledger_service.Prelude.{
  ℕ, ◌≤◌, ◌≡◌, refl, sym, ap, ◌∙◌, Bool, true, ◌||◌, ◌==◌, String, List, [], ◌∷◌, ◌⊎◌, inl, inr,
  ltb, Bool-cases, arith,
}
use ledger_service.Domain.{
  Error, invalid_request, account_not_found, authorization_not_found, idempotency_conflict,
  canceled, deadline_exceeded, panicked, Result, ok, err,
}
use ledger_service.Http.Capture.{capture-shown}
use ledger_service.Http.Errors.{classify, write_failure, write_error}
use ledger_service.Http.Handlers.{
  Process, Answer, returned, panicking, Handler, writes, write_failed, write_result, write_balance,
  answer_input, respond, ledger_health, handle_balance, handle_live, handle_ready, reject,
  take_slot, wrap, http_middleware, recovered,
}
use ledger_service.Http.Metrics.{
  Samples, ledger_http_requests_total, new_status_writer, capture, captured, write_header_captured,
}
use ledger_service.Http.Request.{HttpRequest, Web, Decoded, decode_json}
use ledger_service.Http.Writer.{Call, set_header, Body, write_json, shown}
use ledger_service.Service.Rules.Ends.{Ends, Success}
use ledger_service.Service.Statuses.Answer.{is_status, IsAnswer}
use ledger_service.Service.World.{Service, M}

-- the statuses of the API: the service's, and those of errors and refusals
abbrev pub is_http_status : ℕ → Bool
is_http_status n = is_status n || n == 400 || n == 499 || n == 503 || n == 504

-- one JSON value with a status of the API; where the request is turned away, behind a `Retry-After`
abbrev pub IsReply : List Call → Type 0
IsReply calls =
    (status : ℕ) × (body : Body) × (is_http_status status ≡ true)
    × ((calls ≡ write_json status body)
        ⊎ ((status ≡ 503) × (calls ≡ set_header "Retry-After" "1" ∷ write_json status body)))

-- a handler has replied, or has panicked with nothing written
abbrev pub IsEnding : Answer → Type 0
IsEnding answer =
    ((answer.outcome ≡ returned) × IsReply answer.calls)
    ⊎ ((answer.outcome ≡ panicking) × (answer.calls ≡ []))

-- a handler that does so for every request and from every state
abbrev pub Replies : {S : Type 0} → Handler S → Type 0
Replies {S} handler = (request : HttpRequest) (p : Process S) → IsEnding (handler request p).0

json_reply :
    (status : ℕ) (body : Body)
    → is_http_status status ≡ true
    → IsEnding (writes (write_json status body))
json_reply status body known = inl (refl, (status, body, known, inl refl))

write_failed-IsEnding : (e : Error) → IsEnding (write_failed e)
unfolding write_failed write_error classify write_failure
write_failed-IsEnding panicked = inr (refl, refl)
write_failed-IsEnding (invalid_request text) = json_reply 400 _ refl
write_failed-IsEnding account_not_found = json_reply 404 _ refl
write_failed-IsEnding authorization_not_found = json_reply 404 _ refl
write_failed-IsEnding idempotency_conflict = json_reply 409 _ refl
write_failed-IsEnding canceled = json_reply 499 _ refl
write_failed-IsEnding deadline_exceeded = json_reply 504 _ refl
write_failed-IsEnding e = json_reply 503 _ refl

is_http_status-is_status : (n : ℕ) → is_status n ≡ true → is_http_status n ≡ true
is_http_status-is_status n h = rw h refl

write_result-IsEnding :
    {A : Type 0} (body : A → Body) (r : Result (A × ℕ))
    → Success IsAnswer r
    → IsEnding (write_result body r)
unfolding write_result
write_result-IsEnding body (err e) _ = write_failed-IsEnding e
write_result-IsEnding body (ok (response, status)) known =
    json_reply status (body response) (is_http_status-is_status status known)

module _ {S : Type 0} where
  answer_input-IsEnding :
      {A B : Type 0} (method : A → M S (B × ℕ)) (body : B → Body)
      → ((input : A) → Ends IsAnswer (method input))
      → (r : Result A) (p : Process S) → IsEnding (answer_input method body r p).0
  unfolding answer_input
  answer_input-IsEnding method body ends (err e) p = write_failed-IsEnding e
  answer_input-IsEnding method body ends (ok input) p =
      write_result-IsEnding body (method input p.world).0 ((ends input).run p.world)

  module _ {D : Type 0} (s : Service S) (web : Web D) where
    pub respond-Replies :
        {A B : Type 0} (decode : D → Decoded D A) (method : A → M S (B × ℕ)) (body : B → Body)
        → ((input : A) → Ends IsAnswer (method input))
        → Replies (respond s web decode method body)
    unfolding respond
    respond-Replies decode method body ends request p =
        answer_input-IsEnding method body ends (decode_json web decode request) p

    write_balance-IsEnding :
        {A : Type 0} (body : A → Body) (r : Result A) → IsEnding (write_balance body r)
    unfolding write_balance
    write_balance-IsEnding body (err e) = write_failed-IsEnding e
    write_balance-IsEnding body (ok response) = json_reply 200 (body response) refl

    pub balance-Replies : Replies (handle_balance s web)
    unfolding handle_balance
    balance-Replies request p = write_balance-IsEnding _ _

    pub live-Replies : Replies (handle_live s web)
    unfolding handle_live
    live-Replies request p = json_reply 200 _ refl

    pub ready-Replies : Replies (handle_ready s web)
    unfolding handle_ready
    ready-Replies request p = elim (Bool-cases (ledger_health s p).0.ready) [
      | inl h ↦ rw h (json_reply 200 _ refl)
      | inr h ↦ rw h (json_reply 503 _ refl)
    ]

  reject-IsEnding :
      (reason code message : String) (p : Process S) → IsEnding (reject reason code message p).0
  unfolding reject write_failure
  reject-IsEnding reason code message p = inl (refl, (503, _, refl, inr (refl, refl)))

  take_slot-Replies : (limit : ℕ) (next : Handler S) → Replies next → Replies (take_slot limit next)
  unfolding take_slot
  take_slot-Replies limit next replies request p = elim (Bool-cases (ltb p.held limit)) [
    | inl free ↦ rw free (replies request _)
    | inr full ↦ rw full (reject-IsEnding "capacity" "overloaded" _ p)
  ]

  pub wrap-Replies :
      (s : Service S) (limit : ℕ) (next : Handler S) → Replies next → Replies (wrap s limit next)
  unfolding wrap
  wrap-Replies s limit next replies request p = elim (Bool-cases (ledger_health s p).0.ready) [
    | inl h ↦ rw h (take_slot-Replies limit next replies request _)
    | inr h ↦ rw h (reject-IsEnding "ledger_stalled" "ledger_stalled" _ (ledger_health s p).1)
  ]

is_http_status-le : (n : ℕ) → is_http_status n ≡ true → 200 ≤ n
is_http_status-le n h = ground arith

-- a reply passes through a `statusWriter` unchanged, and its status is noted
capture-IsReply :
    (calls : List Call)
    → IsReply calls
    → ((capture new_status_writer calls).1 ≡ calls)
      × ((capture new_status_writer calls).0.status ≡ shown calls)
unfolding capture captured write_header_captured write_json
capture-IsReply calls (status, body, known, inl same) =
    let final = is_http_status-le status known in
    (rw same refl, (capture-shown calls (rw same (final, tt))).0)
capture-IsReply calls (status, body, known, inr (busy, same)) =
    let final = is_http_status-le status known in
    (rw same refl, (capture-shown calls (rw same (final, tt))).0)

-- the newest sample counts the request with the status that the client gets
abbrev pub IsCounted : HttpRequest → String → List Call → Samples → Type 0
IsCounted request route calls samples =
    (rest : Samples) × (samples
      ≡ ledger_http_requests_total request.method route (shown calls) ∷ rest)

-- a handler has replied and the reply is counted, or it has panicked with nothing written
abbrev pub IsMetered : HttpRequest → String → Answer → Samples → Type 0
IsMetered request route answer samples =
    ((answer.outcome ≡ returned)
      × IsReply answer.calls
      × IsCounted request route answer.calls samples)
    ⊎ ((answer.outcome ≡ panicking) × (answer.calls ≡ []))

pub http_middleware-IsMetered :
    {S : Type 0} (route : String) (next : Handler S)
    → Replies next
    → (request : HttpRequest) (p : Process S)
    → IsMetered request route
        (http_middleware route next request p).0
        (http_middleware route next request p).1.samples
unfolding http_middleware capture
http_middleware-IsMetered route next replies request p = elim (replies request p) [
  | inl (back, reply) ↦
      let (same, noted) = capture-IsReply _ reply in
      inl (
        back,
        rw same reply,
        (
          (next request p).1.samples,
          rw back (
              ap
                (λ n.
                  ledger_http_requests_total request.method route n ∷ (next request p).1.samples)
                (noted ∙ ap shown (sym same))),
        ),
      )
  | inr (lost, nothing) ↦ inr (lost, rw nothing refl)
]

-- what `recoverPanics` makes of that
pub recovered-IsReply :
    (request : HttpRequest) (route : String) (answer : Answer) (samples : Samples)
    → IsMetered request route answer samples
    → ((recovered answer).outcome ≡ returned)
      × IsReply (recovered answer).calls
      × (IsCounted request route (recovered answer).calls samples
          ⊎ (shown (recovered answer).calls ≡ 500))
unfolding recovered write_failure
recovered-IsReply request route answer samples (inl (back, reply, counted)) =
    rw back (refl, reply, inl counted)
recovered-IsReply request route answer samples (inr (lost, nothing)) =
    rw lost (rw nothing (refl, (500, _, refl, inl refl), inr refl))
