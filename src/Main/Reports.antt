-- ===== src/Main/Reports.antt =====
-- What a process that serves (cmd/ledger-service/main.go) has reported to the metrics, and its health.
use ledger_service.Prelude.{
  ◌+◌, ◌≡◌, refl, ap, ◌∙◌, ℕ, true, String, str_eq, List, [], ◌∷◌, if◌then◌else◌,
}
use ledger_service.Health.{health}
use ledger_service.Http.Metrics.{
  ledger_operations_total, ledger_operation_duration_seconds, ledger_http_requests_total,
  ledger_admission_in_flight_inc, ledger_admission_in_flight_dec, ledger_admission_rejected_total,
  ledger_dependency_calls_total, ledger_dependency_call_duration_seconds,
  ledger_dependency_calls_in_flight, Samples, samples,
}
use ledger_service.Http.Request.{HttpRequest}
use ledger_service.Main.Serving.{serve_all-IsReadyToServe}
use ledger_service.Main.{Host, listening, start, serve_all}
use ledger_service.Config.{Config}
use ledger_service.Service.Reporting.{calls_sent, calls_counted, health_idle}
use ledger_service.Service.Rules.{LedgerLaws}
use ledger_service.Service.World.{
  World, Event, sent_account, sent_transfer, sent_account_lookup, sent_transfer_lookup,
  calls_in_flight, ledger_call, operation, logged,
}

-- the value of the counter `ledger_dependency_calls_total` under a kind, over both outcomes
abbrev pub counter : String → Samples → ℕ
counter kind [] = 0
counter kind (ledger_dependency_calls_total k _ ∷ samples) =
    (if str_eq kind k then 1 else 0) + counter kind samples
counter kind (ledger_operations_total _ _ ∷ samples) = counter kind samples
counter kind (ledger_operation_duration_seconds _ _ ∷ samples) = counter kind samples
counter kind (ledger_http_requests_total _ _ _ ∷ samples) = counter kind samples
counter kind (ledger_admission_in_flight_inc ∷ samples) = counter kind samples
counter kind (ledger_admission_in_flight_dec ∷ samples) = counter kind samples
counter kind (ledger_admission_rejected_total _ ∷ samples) = counter kind samples
counter kind (ledger_dependency_call_duration_seconds _ _ ∷ samples) = counter kind samples
counter kind (ledger_dependency_calls_in_flight _ ∷ samples) = counter kind samples

counter-samples :
    (kind : String) (es : List Event) → counter kind (samples es) ≡ calls_counted kind es
unfolding samples
counter-samples kind [] = refl
counter-samples kind (ledger_call k _ _ ∷ es) =
    ap (λ n. (if str_eq kind k then 1 else 0) + n) (counter-samples kind es)
counter-samples kind (sent_account _ ∷ es) = counter-samples kind es
counter-samples kind (sent_transfer _ ∷ es) = counter-samples kind es
counter-samples kind (sent_account_lookup _ ∷ es) = counter-samples kind es
counter-samples kind (sent_transfer_lookup _ ∷ es) = counter-samples kind es
counter-samples kind (calls_in_flight _ ∷ es) = counter-samples kind es
counter-samples kind (operation _ _ _ ∷ es) = counter-samples kind es
counter-samples kind (logged _ ∷ es) = counter-samples kind es

-- Once the process serves, after any requests, one after the other, the counter of the calls of the SDK has counted
-- each call that was sent, of every kind, and no other; and whenever it is asked, the ledger is reported as
-- ready, with no call in flight.
pub serve_all_reported :
    {S D : Type 0} (host : Host S D) (laws : LedgerLaws host.env) (e : S) {c : Config} {w : World S}
    (requests : List HttpRequest)
    → start host e ≡ listening c w
    → let p' = serve_all host c requests (record { world = w; held = 0; samples = [] }) in
      ((kind : String) → counter kind (samples p'.world.events) ≡ calls_sent kind p'.world.events)
      × ((t : ℕ)
          → ((health p'.world.observed t).ready ≡ true)
            × ((health p'.world.observed t).in_flight ≡ 0))
serve_all_reported host laws e requests started =
    let ((sound, _), _, _) = serve_all-IsReadyToServe host laws e requests started in
    (
      λ kind. counter-samples kind _ ∙ sound.reported.metered kind,
      λ t. health_idle _ t sound.reported.idle,
    )
