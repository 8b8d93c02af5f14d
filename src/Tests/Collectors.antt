-- ===== src/Tests/Collectors.antt =====
-- A registry of names, and the collectors of the service on it.
use ledger_service.Prelude.{
  ℕ, ◌≡◌, refl, true, false, not, ◌&&◌, String, Option, none, some, List, [], ◌∷◌, length,
  if◌then◌else◌,
}
use ledger_service.Http.Collectors.{
  Desc, desc, registered, Prometheus, new_metrics, collector_of, label_values,
}
use ledger_service.Http.Collectors.Laws.{
  is_member, is_well_named, PrometheusLaws, names_of, new_metrics-registers,
}
use ledger_service.Http.Metrics.{Sample}

abbrev register_name : Desc → List String → Option (List String)
register_name d names =
    if is_well_named d && not (is_member d.name names) then some (d.name ∷ names) else none

abbrev pub registry_of_names : Prometheus
registry_of_names = record { Registry = List String; new_registry = []; register = register_name }

pub register_name-free :
    (d : Desc) (names : List String)
    → is_well_named d ≡ true
    → is_member d.name names ≡ false
    → (names' : List String) × (register_name d names ≡ some names') × (names' ≡ d.name ∷ names)
register_name-free d names named free = (d.name ∷ names, rw (named, free) refl, refl)

abbrev pub registry_of_names_laws : PrometheusLaws registry_of_names
registry_of_names_laws = record {
  names = λ names. names;
  fresh = refl;
  registers = register_name-free;
}

abbrev show : ℕ → String
show _ = "200"

new_metrics-registers_example :
    ((registry : List String) × (new_metrics registry_of_names ≡ some registry)
      × (registry ≡ names_of [] registered))
    × ((s : Sample)
        → (is_member (desc (collector_of s)).name (names_of [] registered) ≡ true)
          × (length (label_values show s) ≡ length (desc (collector_of s)).labels))
new_metrics-registers_example = new_metrics-registers registry_of_names registry_of_names_laws show
