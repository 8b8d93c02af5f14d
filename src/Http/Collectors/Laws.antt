-- ===== src/Http/Collectors/Laws.antt =====
-- `NewMetrics` and the calls on its collectors (internal/observability/metrics.go), over what the registry accepts.
use Prim.Native.Char.{code}
use ledger_service.Prelude.{
  ℕ, ◌≡◌, refl, Bool, true, false, not, ◌&&◌, ◌||◌, leb, ◌==◌, String, str_eq, some, List, [], ◌∷◌,
  length, arith,
}
use ledger_service.Http.Collectors.{
  Desc, Collector, desc, registered, Prometheus, must_register, new_metrics, collector_of,
  label_values,
}
use ledger_service.Http.Metrics.{
  Sample, ledger_operations_total, ledger_operation_duration_seconds, ledger_http_requests_total,
  ledger_dependency_calls_total, ledger_dependency_call_duration_seconds,
}

abbrev is_letter : ℕ → Bool
is_letter c = leb b'a' c && leb c b'z' || leb b'A' c && leb c b'Z' || c == b'_'

abbrev are_name_letters : String → Bool
are_name_letters String.[] = true
are_name_letters (String.◌∷◌ c s) =
    (is_letter (code c) || leb b'0' (code c) && leb (code c) b'9') && are_name_letters s

-- a letter or an underscore, then letters, digits and underscores
abbrev pub is_name : String → Bool
is_name String.[] = false
is_name (String.◌∷◌ c s) = is_letter (code c) && are_name_letters s

-- names that begin with two underscores are Prometheus's own
abbrev is_reserved : String → Bool
is_reserved (String.◌∷◌ c (String.◌∷◌ d s)) = code c == b'_' && code d == b'_'
is_reserved _ = false

abbrev pub is_member : String → List String → Bool
is_member name [] = false
is_member name (x ∷ names) = str_eq name x || is_member name names

abbrev are_labels : List String → Bool
are_labels [] = true
are_labels (label ∷ labels) =
    is_name label && not (is_reserved label) && not (is_member label labels) && are_labels labels

abbrev pub is_well_named : Desc → Bool
is_well_named d = is_name d.name && are_labels d.labels

-- What the Prometheus client documents: a collector is accepted where its name and its labels are well formed,
-- and its name is not yet taken.
pub record PrometheusLaws (prometheus : Prometheus) : Type 0 where
  pub names : prometheus.Registry → List String
  pub fresh : names prometheus.new_registry ≡ []
  pub registers :
      (d : Desc) (registry : prometheus.Registry)
      → is_well_named d ≡ true
      → is_member d.name (names registry) ≡ false
      → (registry' : prometheus.Registry) × (prometheus.register d registry ≡ some registry')
        × (names registry' ≡ d.name ∷ names registry)

abbrev pub names_of : List String → List Collector → List String
names_of names [] = names
names_of names (c ∷ collectors) = names_of ((desc c).name ∷ names) collectors

abbrev pub are_acceptable : List String → List Collector → Bool
are_acceptable names [] = true
are_acceptable names (c ∷ collectors) =
    is_well_named (desc c)
    && not (is_member (desc c).name names)
    && are_acceptable ((desc c).name ∷ names) collectors

registered-acceptable : are_acceptable [] registered ≡ true
unfolding desc
registered-acceptable = refl

-- each sample is one of a registered collector, with a value for each of its labels
sample-labels :
    (show : ℕ → String) (s : Sample)
    → (is_member (desc (collector_of s)).name (names_of [] registered) ≡ true)
      × (length (label_values show s) ≡ length (desc (collector_of s)).labels)
unfolding desc collector_of label_values
sample-labels show (ledger_operations_total _ _) = (refl, refl)
sample-labels show (ledger_operation_duration_seconds _ _) = (refl, refl)
sample-labels show (ledger_http_requests_total _ _ _) = (refl, refl)
sample-labels show (ledger_dependency_calls_total _ _) = (refl, refl)
sample-labels show (ledger_dependency_call_duration_seconds _ _) = (refl, refl)
sample-labels show _ = (refl, refl)

module _ (prometheus : Prometheus) (laws : PrometheusLaws prometheus) where
  open prometheus use {Registry}

  must_register-some :
      (collectors : List Collector) (registry : Registry)
      → are_acceptable (laws.names registry) collectors ≡ true
      → (registry' : Registry) × (must_register prometheus collectors registry ≡ some registry')
        × (laws.names registry' ≡ names_of (laws.names registry) collectors)
  unfolding must_register
  must_register-some [] registry h = (registry, refl, refl)
  must_register-some (c ∷ collectors) registry h =
      let (registry', e, added) = laws.registers (desc c) registry (ground arith) (ground arith) in
      let rest : are_acceptable (laws.names registry') collectors ≡ true =
        rw added (ground arith) in
      let (last, f, all) = must_register-some collectors registry' rest in
      (last, rw (e, must_register) f, rw added at all)

  -- Where the registry accepts well-formed names that are not yet taken, `NewMetrics` does not panic and registers
  -- all its collectors; and each sample is one of a registered collector, with a value for each of its labels.
  pub new_metrics-registers :
      (show : ℕ → String)
      → ((registry : Registry) × (new_metrics prometheus ≡ some registry)
          × (laws.names registry ≡ names_of [] registered))
        × ((s : Sample)
            → (is_member (desc (collector_of s)).name (names_of [] registered) ≡ true)
              × (length (label_values show s) ≡ length (desc (collector_of s)).labels))
  unfolding new_metrics
  new_metrics-registers show =
      let (registry, e, all) =
        must_register-some registered prometheus.new_registry
          (rw laws.fresh registered-acceptable) in
      ((registry, e, rw laws.fresh at all), sample-labels show)
