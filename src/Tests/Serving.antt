-- ===== src/Tests/Serving.antt =====
-- The configuration, the HTTP layer and the process on small examples.
use ledger_service.Prelude.{
  ℕ, String, ◌≡◌, ◌≢◌, ◌≤◌, ◌<◌, ◌↔◌, refl, true, ◌⊎◌, inl, List, [], ◌∷◌, length, arith, sum_by,
  none,
}
use ledger_service.Prelude.Int.{pos}
use ledger_service.Client.{new_client}
use ledger_service.Config.Accepted.{IsAccepted, load_iff}
use ledger_service.Config.Durations.{IsTimeout, load-round_up_seconds}
use ledger_service.Config.Parse.{parse_uint, atoi, split_comma}
use ledger_service.Config.{
  loaded, ◌>>=◌, checked, trim_addresses, env, duration_env, uint32_env, uint64_env, int_env, load,
}
use ledger_service.Http.Admission.Invariant.{Reach-running_le, Reach-admitted_iff}
use ledger_service.Http.Admission.{
  arrived, holding, rejected, advance, Reach, start, arrives, advances, is_running, holds_slot,
  is_counted,
}
use ledger_service.Http.Answers.{serve-IsReply}
use ledger_service.Http.Capture.{capture-shown}
use ledger_service.Http.Collectors.{must_register, new_metrics, desc}
use ledger_service.Http.Handlers.{returned, wrap, ledger_health, handle_top_up}
use ledger_service.Http.Metrics.{new_status_writer, capture, begin_admission, samples}
use ledger_service.Http.Refusals.{first_step, wrap-first_step}
use ledger_service.Http.Panics.{serve-IsCounted}
use ledger_service.Http.Replies.{IsReply, IsCounted}
use ledger_service.Http.Request.{topup, metrics}
use ledger_service.Http.Routes.{pattern_of, dispatch, serve}
use ledger_service.Http.Safety.{Handled}
use ledger_service.Http.Serving.{AskedOf, serve-Handled}
use ledger_service.Http.Writer.{
  Call, set_header, write_header, write, page, shown, bodies, statuses,
}
use ledger_service.Cache.Invariant.{IsValid}
use ledger_service.Health.{health}
use ledger_service.Main.Reports.{counter, serve_all_reported}
use ledger_service.Main.Serving.{IsReadyToServe, serve_all-IsReadyToServe}
use ledger_service.Main.Start.{start-listens}
use ledger_service.Main.{
  signalled, listening, settings_of, service_of, instrumented, connected, configured,
  start as start_process, serve_all, run, exit_status,
}
use ledger_service.Sdk.{Account, AccountStatus}
use ledger_service.Service.Accounts.Provisioning.{Provisions}
use ledger_service.Service.Accounts.System.{Ensures, HasSystemAccounts, ensure_system_accounts-Wp}
use ledger_service.Service.Accounts.{ensure_system_accounts}
use ledger_service.Service.Reporting.{calls_sent}
use ledger_service.Service.Rules.{Wp, Quiet, submissions}
use ledger_service.Service.Start.{new_world}
use ledger_service.Service.Text.{trim_space}
use ledger_service.Service.World.{World}
use ledger_service.Tests.Collectors.{registry_of_names_laws}
use ledger_service.Tests.Sample.{service, laws, world, world-IsSound}
use ledger_service.Tests.Web.{web, top_up_post, process, platform, defaults, host, creating_laws}

load_platform : load platform ≡ loaded defaults
unfolding load ◌>>=◌ checked trim_addresses env duration_env uint32_env uint64_env int_env
    parse_uint atoi split_comma trim_space
load_platform = refl

load_iff_example : (load platform ≡ loaded defaults) ↔ IsAccepted platform defaults
load_iff_example = load_iff platform defaults

load-round_up_seconds_example : (k : ℕ) × IsTimeout (pos 3_600_000_000_000) k
load-round_up_seconds_example = load-round_up_seconds platform defaults load_platform

serve-Handled_example :
    Handled service laws
      (AskedOf service laws web (web.serve_mux pattern_of top_up_post) top_up_post)
      process
      (serve service web 2 top_up_post process).1
serve-Handled_example = serve-Handled service laws web 2 top_up_post process world-IsSound

topup_not_metrics : topup ≢ metrics
topup_not_metrics h = cc

serve-IsReply_example :
    ((serve service web 2 top_up_post process).0.outcome ≡ returned)
    × IsReply (serve service web 2 top_up_post process).0.calls
    × (IsCounted top_up_post "topup"
          (serve service web 2 top_up_post process).0.calls
          (serve service web 2 top_up_post process).1.samples
        ⊎ (shown (serve service web 2 top_up_post process).0.calls ≡ 500))
serve-IsReply_example = serve-IsReply service web 2 top_up_post topup process refl topup_not_metrics

serve-IsCounted_example :
    ((dispatch service web 2 topup top_up_post process).0.outcome ≡ returned)
    × IsCounted top_up_post "topup"
        (serve service web 2 top_up_post process).0.calls
        (serve service web 2 top_up_post process).1.samples
    × IsValid (serve service web 2 top_up_post process).1.world.cache
serve-IsCounted_example =
    serve-IsCounted service web 2 top_up_post topup process world-IsSound.cache_valid refl
      topup_not_metrics

abbrev two_answers : List Call
two_answers =
    set_header "Retry-After" "1"
    ∷ write_header 503
    ∷ write (page "busy")
    ∷ write_header 200
    ∷ write (page "more")
    ∷ []

capture-shown_example :
    ((capture new_status_writer two_answers).0.status ≡ shown two_answers)
    × (shown (capture new_status_writer two_answers).1 ≡ shown two_answers)
    × (length (statuses (capture new_status_writer two_answers).1) ≤ 1)
    × (bodies (capture new_status_writer two_answers).1 ≡ bodies two_answers)
capture-shown_example = capture-shown two_answers (omega arith, (omega arith, tt))

ensure_system_accounts-Wp_example :
    Wp service laws
      (ensure_system_accounts service)
      world
      (Quiet world (Ensures service laws (HasSystemAccounts service laws)))
ensure_system_accounts-Wp_example = ensure_system_accounts-Wp service laws world world-IsSound

-- one request holds the only slot, and another has come
one_admitted : Reach 1 2 1 (arrived ∷ holding ∷ []) (record { slots = 1; in_flight = 0 })
unfolding advance
one_admitted = arrives (advances 0 true (arrives start) refl refl refl refl)

Reach-running_le_example :
    (sum_by is_running (arrived ∷ holding ∷ []) ≤ 1)
    × (1 ≡ sum_by holds_slot (arrived ∷ holding ∷ []))
    × (0 ≡ sum_by is_counted (arrived ∷ holding ∷ []))
Reach-running_le_example = Reach-running_le one_admitted

Reach-admitted_iff_example :
    ((advance 1 true arrived (record { slots = 1; in_flight = 0 })).0 ≡ holding)
    ↔ ((true ≡ true) × (sum_by holds_slot (arrived ∷ holding ∷ []) < 1))
Reach-admitted_iff_example = Reach-admitted_iff true one_admitted

wrap-first_step_example :
    ((first_step service 2 0 (handle_top_up service web) top_up_post process).0 ≡ rejected
      → (shown (wrap service 2 (handle_top_up service web) top_up_post process).0.calls ≡ 503)
        × ((wrap service 2 (handle_top_up service web) top_up_post process).1.world
            ≡ (ledger_health service process).1.world)
        × ((wrap service 2 (handle_top_up service web) top_up_post process).1.held ≡ 1))
    × ((first_step service 2 0 (handle_top_up service web) top_up_post process).0 ≡ holding
        → (wrap service 2 (handle_top_up service web) top_up_post process).0
          ≡ (handle_top_up service web top_up_post (record {
            world = (ledger_health service process).1.world;
            held = (first_step service 2 0 (handle_top_up service web) top_up_post process).1.slots;
            samples = begin_admission [];
          })).0)
wrap-first_step_example =
    wrap-first_step service 2 0 (handle_top_up service web) top_up_post process

-- the state in which the host's process comes to serve
abbrev served_world : World (List Account)
served_world =
    (ensure_system_accounts (service_of host defaults)
      (new_world host.sdk host.env (settings_of defaults) [])).1

start_host : start_process host [] ≡ listening defaults served_world
unfolding start_process configured connected instrumented new_metrics must_register desc new_client
    load ◌>>=◌ checked trim_addresses env duration_env uint32_env uint64_env int_env parse_uint atoi
    split_comma trim_space ensure_system_accounts new_world ledger_service.Service.World.◌>>=◌
    ledger_service.Service.Metadata.metadata_for_account ledger_service.Cache.store
    ledger_service.Assoc.lookup ledger_service.Assoc.insert
start_host = refl

serve_all-IsReadyToServe_example :
    let p' =
      serve_all host defaults
        (top_up_post ∷ [])
        (record { world = served_world; held = 0; samples = [] }) in
    IsReadyToServe host creating_laws defaults p'.world
    × (p'.held ≡ 0)
    × (length (submissions p'.world.events) ≤ 1)
serve_all-IsReadyToServe_example =
    serve_all-IsReadyToServe host creating_laws [] (top_up_post ∷ []) start_host

serve_all_reported_example :
    let p' =
      serve_all host defaults
        (top_up_post ∷ [])
        (record { world = served_world; held = 0; samples = [] }) in
    ((kind : String) → counter kind (samples p'.world.events) ≡ calls_sent kind p'.world.events)
    × ((t : ℕ)
        → ((health p'.world.observed t).ready ≡ true)
          × ((health p'.world.observed t).in_flight ≡ 0))
serve_all_reported_example = serve_all_reported host creating_laws [] (top_up_post ∷ []) start_host

creating-Provisions : Provisions host.env
creating-Provisions a e = (record { status = AccountStatus.created; timestamp = 1 }, refl, inl refl)

start-listens_example : (w : World (List Account)) × (start_process host [] ≡ listening defaults w)
start-listens_example =
    start-listens host creating_laws registry_of_names_laws [] defaults load_platform refl
      creating-Provisions

-- it came to serve and was shut down by a signal
exits_well : exit_status (run (listening defaults served_world) (signalled none)).1 true ≡ 0
unfolding exit_status
exits_well = refl
