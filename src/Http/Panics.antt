-- ===== src/Http/Panics.antt =====
-- Panics in the handlers of internal/httpapi/server.go, and how requests are counted, from a valid metadata cache.
use ledger_service.Prelude.{ℕ, ◌+◌, ◌≡◌, ◌≢◌, refl, Bool-cases, inl, inr, String, some, ltb, arith}
use ledger_service.Cache.Invariant.{IsValid}
use ledger_service.Domain.{Error, panicked, Result, ok, err}
use ledger_service.Http.Answers.{dispatch-IsMetered}
use ledger_service.Http.Handlers.{
  Process, Handler, Answer, returned, answer_input, respond, write_failed, write_result,
  write_balance, handle_create_account, handle_balance, handle_top_up, handle_withdraw,
  handle_allocate_to_card, handle_return_from_card, handle_authorize, handle_increment, handle_live,
  handle_ready, ledger_health, reject, take_slot, wrap, http_middleware, recover_panics, recovered,
}
use ledger_service.Http.Metrics.{Samples, begin_admission}
use ledger_service.Http.Replies.{IsCounted, IsMetered}
use ledger_service.Http.Request.{
  HttpRequest, Route, create_account, get_balance, topup, withdrawal, card_allocation, card_return,
  authorization, authorization_increment, liveness, readiness, metrics, Web, Decoded, decode_json,
}
use ledger_service.Http.Routes.{label, pattern_of, handle, dispatch, serve}
use ledger_service.Http.Writer.{
  Body, account_body, transaction_body, authorization_body, increment_body,
}
use ledger_service.Service.Accounts
use ledger_service.Service.Authorization.{authorize}
use ledger_service.Service.Increment.{increment_authorization}
use ledger_service.Service.Transactions.{top_up, withdraw, allocate_to_card, return_from_card}
use ledger_service.Service.Panics.Increments.{increment_authorization-Calm}
use ledger_service.Service.Panics.{
  create_account-Calm, balance-Calm, top_up-Calm, withdraw-Calm, allocate_to_card-Calm,
  return_from_card-Calm, authorize-Calm,
}
use ledger_service.Service.Rules.Calm.Calls.{Calm-now}
use ledger_service.Service.Rules.Calm.{IsCalm, IsCalmError, Calm}
use ledger_service.Service.World.{Service, M, now}

-- a handler that returns from every state with a valid cache, and leaves a valid cache
abbrev pub Returns : {S : Type 0} → Handler S → Type 0
Returns {S} handler =
    (request : HttpRequest) (p : Process S)
    → IsValid p.world.cache
    → IsValid (handler request p).1.world.cache × ((handler request p).0.outcome ≡ returned)

write_failed-returned : (e : Error) → IsCalmError e → (write_failed e).outcome ≡ returned
unfolding write_failed
write_failed-returned panicked calm = cc
write_failed-returned e calm = refl

write_result-returned :
    {A : Type 0} (body : A → Body) (r : Result (A × ℕ))
    → IsCalm r
    → (write_result body r).outcome ≡ returned
unfolding write_result
write_result-returned body (ok (response, status)) calm = refl
write_result-returned body (err e) calm = write_failed-returned e calm

write_balance-returned :
    {A : Type 0} (body : A → Body) (r : Result A)
    → IsCalm r
    → (write_balance body r).outcome ≡ returned
unfolding write_balance
write_balance-returned body (ok response) calm = refl
write_balance-returned body (err e) calm = write_failed-returned e calm

module _ {S D : Type 0} (s : Service S) (web : Web D) where
  decode_json-IsCalm :
      {A : Type 0} (decode : D → Decoded D A) (request : HttpRequest)
      → IsCalm (decode_json web decode request)
  unfolding decode_json
  decode_json-IsCalm decode request = ground arith

  answer_input-Returns :
      {A B : Type 0} (method : A → M S (B × ℕ)) (body : B → Body) (input : Result A) (p : Process S)
      → ((a : A) → Calm (method a))
      → IsCalm input
      → IsValid p.world.cache
      → IsValid (answer_input method body input p).1.world.cache
        × ((answer_input method body input p).0.outcome ≡ returned)
  unfolding answer_input
  answer_input-Returns method body (err e) p calm h valid = (valid, write_failed-returned e h)
  answer_input-Returns method body (ok a) p calm h valid =
      let (valid', k) = (calm a).run p.world valid in (valid', write_result-returned body _ k)

  respond-Returns :
      {A B : Type 0} (decode : D → Decoded D A) (method : A → M S (B × ℕ)) (body : B → Body)
      → ((a : A) → Calm (method a))
      → Returns (respond s web decode method body)
  unfolding respond
  respond-Returns decode method body calm request p valid =
      answer_input-Returns method body (decode_json web decode request) p calm
        (decode_json-IsCalm decode request) valid

  balance-Returns : Returns (handle_balance s web)
  unfolding handle_balance
  balance-Returns request p valid =
      let (valid', calm) =
        (balance-Calm s (web.path_value "account_id" request)).run p.world valid in
      (valid', write_balance-returned _ _ calm)

  ready-Returns : Returns (handle_ready s web)
  unfolding handle_ready ledger_health now
  ready-Returns request p valid = (((Calm-now s).run p.world valid).0, refl)

  ledger_health-IsValid :
      (p : Process S) → IsValid p.world.cache → IsValid (ledger_health s p).1.world.cache
  unfolding ledger_health now
  ledger_health-IsValid p valid = ((Calm-now s).run p.world valid).0

  http_middleware-Returns :
      (route : String) (next : Handler S) → Returns next → Returns (http_middleware route next)
  unfolding http_middleware
  http_middleware-Returns route next returns request p valid = returns request p valid

  module _ (limit : ℕ) where
    take_slot-Returns : (next : Handler S) → Returns next → Returns (take_slot limit next)
    unfolding take_slot reject
    take_slot-Returns next returns request p valid = elim (Bool-cases (ltb p.held limit)) [
      | inl free ↦
          rw (free, take_slot)
            (returns request (record p { held = p.held + 1; samples = begin_admission p.samples })
              valid)
      | inr full ↦ rw (full, take_slot) (valid, refl)
    ]

    wrap-Returns : (next : Handler S) → Returns next → Returns (wrap s limit next)
    unfolding wrap reject
    wrap-Returns next returns request p valid =
        let valid' = ledger_health-IsValid p valid in
        elim (Bool-cases (ledger_health s p).0.ready) [
          | inl ready ↦
              rw (ready, wrap) (take_slot-Returns next returns request (ledger_health s p).1 valid')
          | inr stalled ↦ rw (stalled, wrap) (valid', refl)
        ]

    handle-Returns :
        (route : Route) (next : Handler S) → Returns next → Returns (handle s web limit route next)
    unfolding handle
    handle-Returns route next returns =
        http_middleware-Returns (label route) (wrap s limit next) (wrap-Returns next returns)

    dispatch-Returns : (route : Route) → route ≢ metrics → Returns (dispatch s web limit route)
    unfolding dispatch handle_create_account handle_top_up handle_withdraw handle_allocate_to_card
        handle_return_from_card handle_authorize handle_increment handle_live
    dispatch-Returns create_account other =
        handle-Returns create_account (handle_create_account s web) (
          respond-Returns web.decode_create_account (Accounts.create_account s) account_body
            (create_account-Calm s))
    dispatch-Returns get_balance other =
        handle-Returns get_balance (handle_balance s web) balance-Returns
    dispatch-Returns topup other =
        handle-Returns topup (handle_top_up s web)
          (respond-Returns web.decode_top_up (top_up s) transaction_body (top_up-Calm s))
    dispatch-Returns withdrawal other =
        handle-Returns withdrawal (handle_withdraw s web)
          (respond-Returns web.decode_withdrawal (withdraw s) transaction_body (withdraw-Calm s))
    dispatch-Returns card_allocation other =
        handle-Returns card_allocation (handle_allocate_to_card s web) (
          respond-Returns web.decode_card_allocation (allocate_to_card s) transaction_body
            (allocate_to_card-Calm s))
    dispatch-Returns card_return other =
        handle-Returns card_return (handle_return_from_card s web) (
          respond-Returns web.decode_card_return (return_from_card s) transaction_body
            (return_from_card-Calm s))
    dispatch-Returns authorization other = handle-Returns authorization (handle_authorize s web) (
        respond-Returns web.decode_authorization (authorize s) authorization_body
          (authorize-Calm s))
    dispatch-Returns authorization_increment other =
        handle-Returns authorization_increment (handle_increment s web) (
          respond-Returns web.decode_increment (increment_authorization s) increment_body
            (increment_authorization-Calm s))
    dispatch-Returns liveness other =
        http_middleware-Returns (label liveness) (handle_live s web)
          (λ request p valid. (valid, refl))
    dispatch-Returns readiness other =
        http_middleware-Returns (label readiness) (handle_ready s web) ready-Returns
    dispatch-Returns metrics other = absurd (other refl)

    recovered-IsCounted :
        (request : HttpRequest) (route : String) (answer : Answer) (samples : Samples)
        → answer.outcome ≡ returned
        → IsMetered request route answer samples
        → IsCounted request route (recovered answer).calls samples
    unfolding recovered
    recovered-IsCounted request route answer samples back (inl (_, _, counted)) =
        rw (back, recovered) counted
    recovered-IsCounted request route answer samples back (inr (lost, _)) = cc

    -- While the metadata cache is valid, on every route of the API and of health the handler behind
    -- `recoverPanics` does not panic, so that the request is counted under its route with the status that the client
    -- gets; and the cache is valid again.
    pub serve-IsCounted :
        (request : HttpRequest) (route : Route) (p : Process S)
        → IsValid p.world.cache
        → web.serve_mux pattern_of request ≡ some route
        → route ≢ metrics
        → ((dispatch s web limit route request p).0.outcome ≡ returned)
          × IsCounted request
              (label route)
              (serve s web limit request p).0.calls
              (serve s web limit request p).1.samples
          × IsValid (serve s web limit request p).1.world.cache
    unfolding serve recover_panics
    serve-IsCounted request route p valid picked other =
        let (valid', back) = dispatch-Returns route other request p valid in
        rw picked (
          back,
          recovered-IsCounted request (label route) _ _ back
              (dispatch-IsMetered s web limit route other request p),
          valid',
        )
