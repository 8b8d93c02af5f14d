-- ===== src/Http/Serving.antt =====
-- What the whole handler of `NewHandler` (internal/httpapi/server.go) does to the service: each request
-- sends the ledger at most the one transfer that its body asks for.
use ledger_service.Prelude.{◌≡◌, refl, inl, inr, true, false, Option, none, some, ℕ}
use ledger_service.Domain.{
  TopUpRequest, WithdrawalRequest, CardAllocationRequest, CardReturnRequest, AuthorizationRequest,
  IncrementAuthorizationRequest, ok,
}
use ledger_service.Http.Handlers.{
  Process, Handler, handle_create_account, handle_balance, handle_top_up, handle_withdraw,
  handle_allocate_to_card, handle_return_from_card, handle_authorize, handle_increment, handle_live,
  handle_ready, wrap,
}
use ledger_service.Http.Request.{
  HttpRequest, Route, create_account, get_balance, topup, withdrawal, card_allocation, card_return,
  authorization, authorization_increment, liveness, readiness, metrics, Web, decode_json,
}
use ledger_service.Http.Routes.{
  label, pattern_of, handle, metrics_handler, dispatch, route_request, serve,
}
use ledger_service.Http.Safety.{
  Handled, IsSafe, Handled-refl, respond-IsSafe, ready-IsSafe, middleware-IsSafe,
  recover_panics-IsSafe, wrap-IsSafe,
}
use ledger_service.Sdk.{Transfer}
use ledger_service.Service.Accounts.Answers.{balance-Sends, create_account-Sends}
use ledger_service.Service.Authorization.Submission.{authorize-Sends}
use ledger_service.Service.Authorization.Holds.{IsHold}
use ledger_service.Service.Increment.Increments.{IsIncrement}
use ledger_service.Service.Increment.Submission.{increment_authorization-Sends}
use ledger_service.Service.Rules.Steps.{Failed, Sends}
use ledger_service.Service.Rules.{LedgerLaws, IsSound}
use ledger_service.Service.Transactions.Submission.{
  IsTopUp, IsWithdrawal, IsMove, top_up-Sends, withdraw-Sends, move_card_funds-Sends,
}
use ledger_service.Service.Transactions.{allocate_to_card, return_from_card}
use ledger_service.Service.World.{Service, World}

module _ {S D : Type 0} (s : Service S) (laws : LedgerLaws s.env) (web : Web D) where
  -- The transfer that a request on a route asks for: that of the request in its body.
  pub Asked : Route → HttpRequest → S → Transfer → Type 0
  Asked topup request e t =
      (input : TopUpRequest) × (decode_json web web.decode_top_up request ≡ ok input)
      × IsTopUp s laws input e t
  Asked withdrawal request e t =
      (input : WithdrawalRequest) × (decode_json web web.decode_withdrawal request ≡ ok input)
      × IsWithdrawal s laws input e t
  Asked card_allocation request e t =
      (input : CardAllocationRequest) × (decode_json web web.decode_card_allocation request
        ≡ ok input)
      × IsMove s laws input.request_id input.account_id input.card_id input.amount_cents false e t
  Asked card_return request e t =
      (input : CardReturnRequest) × (decode_json web web.decode_card_return request ≡ ok input)
      × IsMove s laws input.request_id input.account_id input.card_id input.amount_cents true e t
  Asked authorization request e t =
      (input : AuthorizationRequest) × (decode_json web web.decode_authorization request ≡ ok input)
      × IsHold s laws input e t
  Asked authorization_increment request e t =
      (input : IncrementAuthorizationRequest) × (decode_json web web.decode_increment request
        ≡ ok input)
      × IsIncrement s laws input e t
  Asked _ _ _ _ = ⊥

  -- the same of the route that the router picks
  pub AskedOf : Option Route → HttpRequest → S → Transfer → Type 0
  AskedOf none _ _ _ = ⊥
  AskedOf (some route) request e t = Asked route request e t

  balance-IsSafe :
      (P : HttpRequest → S → Transfer → Type 0) → IsSafe s laws P (handle_balance s web)
  unfolding handle_balance
  balance-IsSafe P request p sound =
      let (sound', later, sent) =
        (balance-Sends s laws (web.path_value "account_id" request) p.world sound).run in
      record {
        sound = sound';
        later = later;
        held = refl;
        sent = elim sent [ inl (same, _) ↦ inl same | inr (t, never, _) ↦ elim never [ ] ];
      }

  live-IsSafe : (P : HttpRequest → S → Transfer → Type 0) → IsSafe s laws P (handle_live s web)
  unfolding handle_live
  live-IsSafe P request p sound = Handled-refl s laws (P request) p sound

  allocate_to_card-Sends :
      (input : CardAllocationRequest) (w : World S)
      → IsSound s laws w
      → Sends s laws Failed
          (IsMove s laws input.request_id input.account_id input.card_id input.amount_cents false)
          (allocate_to_card s input)
          w
  unfolding allocate_to_card
  allocate_to_card-Sends input w sound = move_card_funds-Sends s laws _ _ _ _ _ _ w sound

  return_from_card-Sends :
      (input : CardReturnRequest) (w : World S)
      → IsSound s laws w
      → Sends s laws Failed
          (IsMove s laws input.request_id input.account_id input.card_id input.amount_cents true)
          (return_from_card s input)
          w
  unfolding return_from_card
  return_from_card-Sends input w sound = move_card_funds-Sends s laws _ _ _ _ _ _ w sound

  handle-IsSafe :
      (limit : ℕ) (route : Route) (next : Handler S)
      → IsSafe s laws (Asked route) next
      → IsSafe s laws (Asked route) (handle s web limit route next)
  unfolding handle
  handle-IsSafe limit route next safe =
      middleware-IsSafe s laws (Asked route) (label route) (wrap s limit next)
        (wrap-IsSafe s laws (Asked route) limit next safe)

  dispatch-IsSafe :
      (limit : ℕ) (route : Route) → IsSafe s laws (Asked route) (dispatch s web limit route)
  unfolding dispatch metrics_handler handle_create_account handle_top_up handle_withdraw
      handle_allocate_to_card handle_return_from_card handle_authorize handle_increment Asked
  dispatch-IsSafe limit create_account =
      handle-IsSafe limit create_account (handle_create_account s web) (
        respond-IsSafe s laws (Asked create_account) web web.decode_create_account _ _ _ _
          (create_account-Sends s laws) (λ request input e t read never. never))
  dispatch-IsSafe limit get_balance =
      handle-IsSafe limit get_balance (handle_balance s web) (balance-IsSafe (Asked get_balance))
  dispatch-IsSafe limit topup = handle-IsSafe limit topup (handle_top_up s web) (
      respond-IsSafe s laws (Asked topup) web web.decode_top_up _ _ _ _ (top_up-Sends s laws)
        (λ request input e t read holds. (input, read, holds)))
  dispatch-IsSafe limit withdrawal = handle-IsSafe limit withdrawal (handle_withdraw s web) (
      respond-IsSafe s laws (Asked withdrawal) web web.decode_withdrawal _ _ _ _
        (withdraw-Sends s laws) (λ request input e t read holds. (input, read, holds)))
  dispatch-IsSafe limit card_allocation =
      handle-IsSafe limit card_allocation (handle_allocate_to_card s web) (
        respond-IsSafe s laws (Asked card_allocation) web web.decode_card_allocation _ _ _ _
          (allocate_to_card-Sends) (λ request input e t read holds. (input, read, holds)))
  dispatch-IsSafe limit card_return =
      handle-IsSafe limit card_return (handle_return_from_card s web) (
        respond-IsSafe s laws (Asked card_return) web web.decode_card_return _ _ _ _
          (return_from_card-Sends) (λ request input e t read holds. (input, read, holds)))
  dispatch-IsSafe limit authorization = handle-IsSafe limit authorization (handle_authorize s web) (
      respond-IsSafe s laws (Asked authorization) web web.decode_authorization _ _ _ _
        (authorize-Sends s laws) (λ request input e t read holds. (input, read, holds)))
  dispatch-IsSafe limit authorization_increment =
      handle-IsSafe limit authorization_increment (handle_increment s web) (
        respond-IsSafe s laws (Asked authorization_increment) web web.decode_increment _ _ _ _
          (increment_authorization-Sends s laws)
          (λ request input e t read holds. (input, read, holds)))
  dispatch-IsSafe limit liveness =
      middleware-IsSafe s laws (Asked liveness) (label liveness) (handle_live s web)
        (live-IsSafe (Asked liveness))
  dispatch-IsSafe limit readiness =
      middleware-IsSafe s laws (Asked readiness) (label readiness) (handle_ready s web)
        (ready-IsSafe s laws (Asked readiness) web)
  dispatch-IsSafe limit metrics =
      λ request p sound. Handled-refl s laws (Asked metrics request) p sound

  route_request-Handled :
      (limit : ℕ) (route : Option Route) (request : HttpRequest) (p : Process S)
      → IsSound s laws p.world
      → Handled s laws (AskedOf route request) p (route_request s web limit route request p).1
  unfolding AskedOf
  route_request-Handled limit none request p sound = Handled-refl s laws (λ _ _. ⊥) p sound
  route_request-Handled limit (some route) request p sound =
      dispatch-IsSafe limit route request p sound

  -- From a sound state the handler of `NewHandler` leaves a sound state, in which the ledger has lost
  -- nothing, and gives back the slot that it took, also where a method panics. It submits no
  -- transfer, or one, which is the transfer that the body of the request asks for on its route; on
  -- the routes of accounts, of health and of the metrics, and where no route matches, it submits none.
  pub serve-Handled :
      (limit : ℕ) (request : HttpRequest) (p : Process S)
      → IsSound s laws p.world
      → Handled s laws
          (AskedOf (web.serve_mux pattern_of request) request)
          p
          (serve s web limit request p).1
  unfolding serve
  serve-Handled limit =
      recover_panics-IsSafe s laws (λ request. AskedOf (web.serve_mux pattern_of request) request)
        (λ request. route_request s web limit (web.serve_mux pattern_of request) request)
        (λ request p sound.
          route_request-Handled limit (web.serve_mux pattern_of request) request p sound)
