-- ===== src/Main/Start.antt =====
-- How the process comes to serve (cmd/ledger-service/main.go).
use ledger_service.Prelude.{◌≡◌, ◌≢◌, refl, ap, ◌∙◌, none, some, Option, String}
use ledger_service.Client.{new_client, open_error}
use ledger_service.Config.{Config, loaded, load}
use ledger_service.Config.Accepted.{load-IsAccepted}
use ledger_service.Domain.{Result, ok}
use ledger_service.Http.Collectors.{new_metrics}
use ledger_service.Http.Collectors.Laws.{PrometheusLaws, new_metrics-registers}
use ledger_service.Main.{
  Host, listening, settings_of, service_of, provisioned, instrumented, connected, configured, start,
}
use ledger_service.Service.Accounts.Provisioning.{Provisions, ensure_system_accounts-ok}
use ledger_service.Service.Accounts.{ensure_system_accounts}
use ledger_service.Service.Rules.{LedgerLaws}
use ledger_service.Service.Start.{new_world, new_world-IsSound}
use ledger_service.Service.World.{World}

module _ {S D : Type 0} (host : Host S D) (laws : LedgerLaws host.env)
    (registry_laws : PrometheusLaws host.prometheus) where
  provisioned-ok :
      (c : Config) (r : Result (Unit {0})) (w : World S)
      → r ≡ ok tt
      → provisioned host c r w ≡ listening c w
  provisioned-ok c r w good = rw good refl

  instrumented-some :
      (c : Config) (registry : Option host.prometheus.Registry) (e : S)
      → (r : host.prometheus.Registry) × (registry ≡ some r)
      → c.ledger_id ≢ 0
      → Provisions host.env
      → (w : World S) × (instrumented host c registry e ≡ listening c w)
  unfolding instrumented
  instrumented-some c registry e (r, made) ledger provisions =
      let first = new_world host.sdk host.env (settings_of c) e in
      let sound = new_world-IsSound host.sdk host.env (settings_of c) laws e in
      let good = ensure_system_accounts-ok (service_of host c) laws provisions first sound ledger in
      let w = (ensure_system_accounts (service_of host c) first).1 in
      (w, rw made (provisioned-ok c _ w good))

  connected-none :
      (c : Config) (error : Option String) (e : S)
      → error ≡ none
      → c.ledger_id ≢ 0
      → Provisions host.env
      → (w : World S) × (connected host c error e ≡ listening c w)
  unfolding connected
  connected-none c error e opened ledger provisions =
      let ((registry, made, _), _) =
        new_metrics-registers host.prometheus registry_laws (λ _. "") in
      let (w, listens) =
        instrumented-some c (new_metrics host.prometheus) e (registry, made) ledger provisions in
      (w, rw opened listens)

  -- Where `Load` accepts the configuration, the SDK's client opens, the registry of the metrics takes well-formed
  -- names that are not yet taken, and the ledger reports every account that is created as created or existing,
  -- the process comes to serve with that configuration.
  pub start-listens :
      (e : S) (c : Config)
      → load host.platform ≡ loaded c
      → (host.open_client c.tigerbeetle_cluster_id c.tigerbeetle_addresses e).0 ≡ none
      → Provisions host.env
      → (w : World S) × (start host e ≡ listening c w)
  unfolding start configured new_client
  start-listens e c accepted opened provisions =
      let (error, e') =
        new_client host.open_client c.tigerbeetle_cluster_id c.tigerbeetle_addresses e in
      let ledger = (load-IsAccepted host.platform c accepted).ledger_id_nonzero in
      let (w, listens) = connected-none c error e' (ap open_error opened) ledger provisions in
      (w, ap (λ l. configured host l e) accepted ∙ listens)
