-- ===== src/Http/Collectors.antt =====
-- `NewMetrics` of internal/observability/metrics.go: the collectors and their registration. The registry of
-- the Prometheus client is a parameter, and the buckets of the histograms, `prometheus.DefBuckets`, are its own.
pub mod Laws
use Prim.Native.Char.{Char, code}
use ledger_service.Prelude.{
  ℕ, ◌≡◌, refl, ap, Bool, true, false, not, ◌&&◌, ◌||◌, leb, ◌==◌, String, str_eq, Option, none,
  some, List, [], ◌∷◌, length, Bool-cases, inl, inr, arith,
}
use ledger_service.Domain.{operation_text}
use ledger_service.Http.Metrics.{
  Sample, ledger_operations_total, ledger_operation_duration_seconds, ledger_http_requests_total,
  ledger_admission_in_flight_inc, ledger_admission_in_flight_dec, ledger_admission_rejected_total,
  ledger_dependency_calls_total, ledger_dependency_call_duration_seconds,
  ledger_dependency_calls_in_flight,
}

pub data CollectorKind : Type 0 where
  counter_vec histogram_vec gauge : CollectorKind

-- the options of a collector and its labels
pub record Desc : Type 0 where
  pub kind : CollectorKind
  pub name : String
  pub help : String
  pub labels : List String

-- the fields of `Metrics`
pub data Collector : Type 0 where
  operations duration http admission_in_flight admission_rejected : Collector
  ledger_calls ledger_call_duration ledger_calls_in_flight : Collector

-- the collectors that `NewMetrics` makes
unfoldable pub desc : Collector → Desc
desc operations = record {
  kind = counter_vec;
  name = "ledger_operations_total";
  help = "Completed business operations by kind and outcome.";
  labels = "kind" ∷ "outcome" ∷ [];
}
desc duration = record {
  kind = histogram_vec;
  name = "ledger_operation_duration_seconds";
  help = "End-to-end business operation latency.";
  labels = "kind" ∷ [];
}
desc http = record {
  kind = counter_vec;
  name = "ledger_http_requests_total";
  help = "HTTP requests by method, route, and status.";
  labels = "method" ∷ "route" ∷ "status" ∷ [];
}
desc admission_in_flight = record {
  kind = gauge;
  name = "ledger_admission_in_flight";
  help = "Requests currently holding a ledger-route admission slot.";
  labels = [];
}
desc admission_rejected = record {
  kind = counter_vec;
  name = "ledger_admission_rejected_total";
  help = "Requests rejected before execution by reason.";
  labels = "reason" ∷ [];
}
desc ledger_calls = record {
  kind = counter_vec;
  name = "ledger_dependency_calls_total";
  help = "TigerBeetle SDK calls by operation and transport outcome.";
  labels = "operation" ∷ "outcome" ∷ [];
}
desc ledger_call_duration = record {
  kind = histogram_vec;
  name = "ledger_dependency_call_duration_seconds";
  help = "TigerBeetle SDK call duration.";
  labels = "operation" ∷ [];
}
desc ledger_calls_in_flight = record {
  kind = gauge;
  name = "ledger_dependency_calls_in_flight";
  help = "TigerBeetle SDK calls currently waiting for a response.";
  labels = [];
}

-- in the order of the call of `MustRegister`
abbrev pub registered : List Collector
registered =
    operations ∷ duration ∷ http ∷ admission_in_flight ∷ admission_rejected ∷ ledger_calls
    ∷ ledger_call_duration ∷ ledger_calls_in_flight ∷ []

-- `prometheus.Registry`: `register` fails with none.
pub record Prometheus : Type 1 where
  pub Registry : Type 0
  pub new_registry : Registry
  pub register : Desc → Registry → Option Registry

module _ (prometheus : Prometheus) where
  open prometheus use {Registry, new_registry, register}

  -- `MustRegister`: none where it panics, on the first collector that is refused
  unfoldable pub must_register : List Collector → Registry → Option Registry
  must_register [] registry = some registry
  must_register (c ∷ collectors) registry = elim (register (desc c) registry) [
    | none ↦ none
    | some registry' ↦ must_register collectors registry'
  ]

  -- `NewMetrics`, none where it panics
  unfoldable pub new_metrics : Option Registry
  unfolding must_register
  new_metrics = must_register registered new_registry

-- the collector of a sample, and the values of `WithLabelValues`; `show` is `strconv.Itoa`
unfoldable pub collector_of : Sample → Collector
collector_of (ledger_operations_total _ _) = operations
collector_of (ledger_operation_duration_seconds _ _) = duration
collector_of (ledger_http_requests_total _ _ _) = http
collector_of ledger_admission_in_flight_inc = admission_in_flight
collector_of ledger_admission_in_flight_dec = admission_in_flight
collector_of (ledger_admission_rejected_total _) = admission_rejected
collector_of (ledger_dependency_calls_total _ _) = ledger_calls
collector_of (ledger_dependency_call_duration_seconds _ _) = ledger_call_duration
collector_of (ledger_dependency_calls_in_flight _) = ledger_calls_in_flight

unfoldable pub label_values : (ℕ → String) → Sample → List String
label_values show (ledger_operations_total kind outcome) = operation_text kind ∷ outcome ∷ []
label_values show (ledger_operation_duration_seconds kind _) = operation_text kind ∷ []
label_values show (ledger_http_requests_total method route status) =
    method ∷ route ∷ show status ∷ []
label_values show ledger_admission_in_flight_inc = []
label_values show ledger_admission_in_flight_dec = []
label_values show (ledger_admission_rejected_total reason) = reason ∷ []
label_values show (ledger_dependency_calls_total kind outcome) = kind ∷ outcome ∷ []
label_values show (ledger_dependency_call_duration_seconds kind _) = kind ∷ []
label_values show (ledger_dependency_calls_in_flight _) = []
