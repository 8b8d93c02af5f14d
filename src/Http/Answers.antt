-- ===== src/Http/Answers.antt =====
-- What a client of the handler of `NewHandler` (internal/httpapi/server.go) is answered on the routes of
-- the API, and what is counted of it.
use ledger_service.Prelude.{ℕ, ◌≡◌, ◌≢◌, refl, some, ◌⊎◌}
use ledger_service.Http.Handlers.{
  Process, Handler, handle_create_account, handle_balance, handle_top_up, handle_withdraw,
  handle_allocate_to_card, handle_return_from_card, handle_authorize, handle_increment, handle_live,
  handle_ready, returned, wrap, recover_panics,
}
use ledger_service.Http.Replies.{
  Replies, IsReply, IsCounted, IsMetered, respond-Replies, balance-Replies, live-Replies,
  ready-Replies, wrap-Replies, http_middleware-IsMetered, recovered-IsReply,
}
use ledger_service.Http.Request.{
  HttpRequest, Route, create_account, get_balance, topup, withdrawal, card_allocation, card_return,
  authorization, authorization_increment, liveness, readiness, metrics, Web,
}
use ledger_service.Http.Routes.{label, pattern_of, handle, dispatch, serve}
use ledger_service.Http.Writer.{shown}
use ledger_service.Service.Statuses.Increments.{increment_authorization-Ends}
use ledger_service.Service.Statuses.{
  create_account-Ends, top_up-Ends, withdraw-Ends, allocate_to_card-Ends, return_from_card-Ends,
  authorize-Ends,
}
use ledger_service.Service.World.{Service}

module _ {S D : Type 0} (s : Service S) (web : Web D) (limit : ℕ) where
  handle-IsMetered :
      (route : Route) (next : Handler S)
      → Replies next
      → (request : HttpRequest) (p : Process S)
      → IsMetered request
          (label route)
          (handle s web limit route next request p).0
          (handle s web limit route next request p).1.samples
  unfolding handle
  handle-IsMetered route next replies =
      http_middleware-IsMetered (label route) (wrap s limit next)
        (wrap-Replies s limit next replies)

  pub dispatch-IsMetered :
      (route : Route)
      → route ≢ metrics
      → (request : HttpRequest) (p : Process S)
      → IsMetered request
          (label route)
          (dispatch s web limit route request p).0
          (dispatch s web limit route request p).1.samples
  unfolding dispatch handle_create_account handle_top_up handle_withdraw handle_allocate_to_card
      handle_return_from_card handle_authorize handle_increment
  dispatch-IsMetered create_account other =
      handle-IsMetered create_account (handle_create_account s web)
        (respond-Replies s web web.decode_create_account _ _ (create_account-Ends s))
  dispatch-IsMetered get_balance other =
      handle-IsMetered get_balance (handle_balance s web) (balance-Replies s web)
  dispatch-IsMetered topup other =
      handle-IsMetered topup (handle_top_up s web)
        (respond-Replies s web web.decode_top_up _ _ (top_up-Ends s))
  dispatch-IsMetered withdrawal other =
      handle-IsMetered withdrawal (handle_withdraw s web)
        (respond-Replies s web web.decode_withdrawal _ _ (withdraw-Ends s))
  dispatch-IsMetered card_allocation other =
      handle-IsMetered card_allocation (handle_allocate_to_card s web)
        (respond-Replies s web web.decode_card_allocation _ _ (allocate_to_card-Ends s))
  dispatch-IsMetered card_return other =
      handle-IsMetered card_return (handle_return_from_card s web)
        (respond-Replies s web web.decode_card_return _ _ (return_from_card-Ends s))
  dispatch-IsMetered authorization other =
      handle-IsMetered authorization (handle_authorize s web)
        (respond-Replies s web web.decode_authorization _ _ (authorize-Ends s))
  dispatch-IsMetered authorization_increment other =
      handle-IsMetered authorization_increment (handle_increment s web)
        (respond-Replies s web web.decode_increment _ _ (increment_authorization-Ends s))
  dispatch-IsMetered liveness other =
      http_middleware-IsMetered (label liveness) (handle_live s web) (live-Replies s web)
  dispatch-IsMetered readiness other =
      http_middleware-IsMetered (label readiness) (handle_ready s web) (ready-Replies s web)
  dispatch-IsMetered metrics other = absurd (other refl)

  -- On every route of the API and of health, from any state, the handler of `NewHandler` returns,
  -- having written one JSON value under one status, which is a status of the API, and which is 503 where
  -- a `Retry-After` stands before it; and the request is counted under its route with that status, or
  -- the status is 500.
  pub serve-IsReply :
      (request : HttpRequest) (route : Route) (p : Process S)
      → web.serve_mux pattern_of request ≡ some route
      → route ≢ metrics
      → ((serve s web limit request p).0.outcome ≡ returned)
        × IsReply (serve s web limit request p).0.calls
        × (IsCounted request
              (label route)
              (serve s web limit request p).0.calls
              (serve s web limit request p).1.samples
            ⊎ (shown (serve s web limit request p).0.calls ≡ 500))
  unfolding serve recover_panics
  serve-IsReply request route p picked other =
      rw picked
        (recovered-IsReply request (label route) _ _ (dispatch-IsMetered route other request p))
