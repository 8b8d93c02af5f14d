-- ===== src/Main.antt =====
-- cmd/ledger-service/main.go: the start of the process, what it serves, and how it ends. The signals,
-- the listener and the SDK's constructor of clients are parameters.
pub mod Serving
pub mod Start
pub mod Reports
use Prim.Native.String.{◌++◌}
use ledger_service.Prelude.{
  ℕ, Bool, true, false, ◌||◌, String, Option, none, some, List, [], ◌∷◌, if◌then◌else◌,
}
use ledger_service.Prelude.Int.{pos_part}
use ledger_service.Client.{new_client}
use ledger_service.Config.{Platform, Config, ConfigError, Loaded, loaded, refused, load}
use ledger_service.Domain.{Error, Result, ok, err}
use ledger_service.Http.Collectors.{Prometheus, new_metrics}
use ledger_service.Http.Handlers.{Process}
use ledger_service.Http.Request.{HttpRequest, Web}
use ledger_service.Http.Routes.{serve}
use ledger_service.Sdk.{Sdk, Env}
use ledger_service.Service.Accounts.{ensure_system_accounts}
use ledger_service.Service.Start.{Settings, new_service, new_world}
use ledger_service.Service.World.{Service, World}

-- What the process stands on. `open_client` is the SDK's `NewClient`: the text of an error, if any.
pub record Host (S D : Type 0) : Type 1 where
  pub platform : Platform
  pub sdk : Sdk
  pub env : Env S
  pub web : Web D
  pub prometheus : Prometheus
  pub open_client : ℕ → List String → S → Option String × S

-- the error that `run` returns, or the panic of `NewMetrics`
pub data Failure : Type 0 where
  bad_config : ConfigError → Failure
  no_client : String → Failure
  metrics_panicked : Failure
  not_provisioned : Error → Failure
  shutdown_failed : String → Failure
  serving_failed : String → Failure

-- What `run` opens and closes, in its order.
pub data Step : Type 0 where
  opened_client closed_client : Step
  listened : String → Step

-- How the `select` of `run` ends: a signal, with the error of `Shutdown`, if any; or the end of
-- `ListenAndServe`, with `http.ErrServerClosed` or another error.
pub data Ending : Type 0 where
  signalled : Option String → Ending
  server_closed : Ending
  server_failed : String → Ending

-- how far `run` comes before the `select`: its steps and its error, or the configuration with which
-- it listens, and the state of the service
pub data Started (S : Type 0) : Type 0 where
  stopped : Failure → List Step → Started S
  listening : Config → World S → Started S

-- the settings that `run` hands to `New`
abbrev pub settings_of : Config → Settings
settings_of c = record {
  ledger_id = c.ledger_id;
  authorization_timeout = c.authorization_timeout;
  risk_delay = c.risk_evaluation_delay;
  risk_limit_cents = c.risk_auto_approve_limit_cents;
  ledger_stall_threshold = c.ledger_stall_threshold;
  account_metadata_cache_size = c.account_metadata_cache_size;
  has_metrics = true;
}

-- what the `select` of `run` returns
abbrev pub ended : Ending → Option Failure
ended (signalled none) = none
ended (signalled (some text)) = some (shutdown_failed text)
ended server_closed = none
ended (server_failed text) = some (serving_failed text)

module _ {S D : Type 0} (host : Host S D) where
  abbrev pub service_of : Config → Service S
  service_of c = new_service host.sdk host.env (settings_of c)

  -- behind `EnsureSystemAccounts`
  abbrev provisioned : Config → Result (Unit {0}) → World S → Started S
  provisioned c (err e) w = stopped (not_provisioned e) (opened_client ∷ closed_client ∷ [])
  provisioned c (ok _) w = listening c w

  -- behind `NewMetrics`, none where it panics
  unfoldable pub instrumented : Config → Option host.prometheus.Registry → S → Started S
  unfolding new_world ensure_system_accounts
  instrumented c none e = stopped metrics_panicked (opened_client ∷ closed_client ∷ [])
  instrumented c (some _) e =
      let (r, w) =
        ensure_system_accounts (service_of c) (new_world host.sdk host.env (settings_of c) e) in
      provisioned c r w

  -- behind `ledger.NewClient`
  unfoldable pub connected : Config → Option String → S → Started S
  unfolding instrumented new_metrics
  connected c (some text) e = stopped (no_client text) []
  connected c none e = instrumented c (new_metrics host.prometheus) e

  -- behind `config.Load`
  unfoldable pub configured : Loaded Config → S → Started S
  unfolding connected new_client
  configured (refused error) e = stopped (bad_config error) []
  configured (loaded c) e =
      let (error, e') =
        new_client host.open_client c.tigerbeetle_cluster_id c.tigerbeetle_addresses e in
      connected c error e'

  -- `run`, up to the `select`
  unfoldable pub start : S → Started S
  unfolding configured load
  start = configured (load host.platform)

  -- the requests that the server handles, one after the other
  unfoldable pub serve_all : Config → List HttpRequest → Process S → Process S
  unfolding serve
  serve_all c [] p = p
  serve_all c (request ∷ requests) p =
      let (answer, p') =
        serve (service_of c) host.web (pos_part c.max_concurrent_requests) request p in
      serve_all c requests p'

-- `run`: its steps and the error that it returns
abbrev pub run : {S : Type 0} → Started S → Ending → List Step × Option Failure
run (stopped failure steps) ending = (steps, some failure)
run (listening c w) ending =
    (opened_client ∷ listened c.http_address ∷ closed_client ∷ [], ended ending)

-- `main`: the status with which the process exits, 2 behind a panic. `flushed` says that the log was written out.
unfoldable pub exit_status : Option Failure → Bool → ℕ
exit_status none true = 0
exit_status none false = 1
exit_status (some metrics_panicked) flushed = 2
exit_status (some _) flushed = 1
