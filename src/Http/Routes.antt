-- ===== src/Http/Routes.antt =====
-- `NewHandler` (internal/httpapi/server.go): the routes, their patterns and their handlers.
use ledger_service.Prelude.{ℕ, String, Option, none, some}
use ledger_service.Http.Handlers.{
  Handler, writes, handle_create_account, handle_balance, handle_top_up, handle_withdraw,
  handle_allocate_to_card, handle_return_from_card, handle_authorize, handle_increment, handle_live,
  handle_ready, wrap, http_middleware, recover_panics,
}
use ledger_service.Http.Metrics.{samples}
use ledger_service.Http.Request.{
  Route, create_account, get_balance, topup, withdrawal, card_allocation, card_return,
  authorization, authorization_increment, liveness, readiness, metrics, Web,
}
use ledger_service.Service.World.{Service}

-- the label of a route in the metrics; the metrics page has none
abbrev pub label : Route → String
label create_account = "create_account"
label get_balance = "get_balance"
label topup = "topup"
label withdrawal = "withdrawal"
label card_allocation = "card_allocation"
label card_return = "card_return"
label authorization = "authorization"
label authorization_increment = "authorization_increment"
label liveness = "liveness"
label readiness = "readiness"
label metrics = ""

abbrev pub pattern_of : Route → String
pattern_of create_account = "POST /v1/accounts"
pattern_of get_balance = "GET /v1/accounts/{account_id}"
pattern_of topup = "POST /v1/topups"
pattern_of withdrawal = "POST /v1/withdrawals"
pattern_of card_allocation = "POST /v1/card-allocations"
pattern_of card_return = "POST /v1/card-returns"
pattern_of authorization = "POST /v1/authorizations"
pattern_of authorization_increment = "POST /v1/authorizations/increments"
pattern_of liveness = "GET /health/live"
pattern_of readiness = "GET /health/ready"
pattern_of metrics = "GET /metrics"

module _ {S D : Type 0} (s : Service S) (web : Web D) (limit : ℕ) where
  -- `Server.handle`
  unfoldable pub handle : Route → Handler S → Handler S
  unfolding http_middleware wrap
  handle route next = http_middleware (label route) (wrap s limit next)

  -- `metrics.Handler()`, over the samples of the service and of the HTTP layer
  unfoldable pub metrics_handler : Handler S
  unfolding samples
  metrics_handler request p = (writes (web.metrics_page (samples p.world.events) p.samples), p)

  -- the handler of a route
  unfoldable pub dispatch : Route → Handler S
  unfolding handle metrics_handler http_middleware
  dispatch create_account = handle create_account (handle_create_account s web)
  dispatch get_balance = handle get_balance (handle_balance s web)
  dispatch topup = handle topup (handle_top_up s web)
  dispatch withdrawal = handle withdrawal (handle_withdraw s web)
  dispatch card_allocation = handle card_allocation (handle_allocate_to_card s web)
  dispatch card_return = handle card_return (handle_return_from_card s web)
  dispatch authorization = handle authorization (handle_authorize s web)
  dispatch authorization_increment = handle authorization_increment (handle_increment s web)
  dispatch liveness = http_middleware (label liveness) (handle_live s web)
  dispatch readiness = http_middleware (label readiness) (handle_ready s web)
  dispatch metrics = metrics_handler

  -- the router: `mux.ServeHTTP`
  abbrev pub route_request : Option Route → Handler S
  route_request none request p = (writes (web.unmatched request), p)
  route_request (some route) request p = dispatch route request p

  -- the handler that `NewHandler` returns
  unfoldable pub serve : Handler S
  unfolding recover_panics dispatch
  serve = recover_panics (λ request. route_request (web.serve_mux pattern_of request) request)
