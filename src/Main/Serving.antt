-- ===== src/Main/Serving.antt =====
-- What holds of a process that has come to serve requests (cmd/ledger-service/main.go), and of every
-- state that it serves them in.
use ledger_service.Prelude.{
  ◌+◌, ◌≤◌, ◌≡◌, ◌↔◌, refl, ap, ◌∙◌, inl, inr, Bool, true, false, Option, none, some, String, List,
  [], ◌∷◌, length, arith,
}
use ledger_service.Prelude.Int.{pos_part}
use ledger_service.Config.{Config, Loaded, loaded, refused, load}
use ledger_service.Domain.{Result, ok, err}
use ledger_service.Http.Collectors.{new_metrics}
use ledger_service.Http.Handlers.{Process}
use ledger_service.Http.Request.{HttpRequest}
use ledger_service.Http.Routes.{serve}
use ledger_service.Http.Serving.{serve-Handled}
use ledger_service.Main.{
  Host, Failure, Ending, Started, stopped, listening, metrics_panicked, settings_of, service_of,
  provisioned, instrumented, connected, configured, start, serve_all, run, ended, exit_status,
}
use ledger_service.Service.Accounts.System.{HasSystemAccounts, ensure_system_accounts-Wp}
use ledger_service.Service.Rules.{LedgerLaws, IsSound, Later, Backed-Later, submissions}
use ledger_service.Service.Start.{new_world, new_world-IsSound}
use ledger_service.Service.World.{World}

module _ {S D : Type 0} (host : Host S D) (laws : LedgerLaws host.env) where
  -- the service is sound, and the ledger has both system accounts
  abbrev pub IsReadyToServe : Config → World S → Type 0
  IsReadyToServe c w =
      IsSound (service_of host c) laws w × HasSystemAccounts (service_of host c) laws w.env

  provisioned-listening :
      (c : Config) (r : Result (Unit {0})) (w : World S) {c' : Config} {w' : World S}
      → provisioned host c r w ≡ listening c' w'
      → (r ≡ ok tt) × (c ≡ c') × (w ≡ w')
  provisioned-listening c (err e) w h = cc
  provisioned-listening c (ok _) w h = (refl, cc, cc)

  instrumented-listening :
      (c : Config) (registry : Option host.prometheus.Registry) (e : S) {c' : Config} {w : World S}
      → instrumented host c registry e ≡ listening c' w
      → (c ≡ c') × IsReadyToServe c w × (submissions w.events ≡ [])
  unfolding instrumented new_world
  instrumented-listening c none e h = cc
  instrumented-listening c (some _) e {c'} {w} h =
      let first = new_world host.sdk host.env (settings_of c) e in
      let sound = new_world-IsSound host.sdk host.env (settings_of c) laws e in
      let (sound', later, (same, ensured)) =
        ensure_system_accounts-Wp (service_of host c) laws first sound in
      let (done, same_config, same_world) = provisioned-listening c _ _ h in
      (same_config, rw (← same_world) (sound', ensured done), rw (← same_world) same)

  connected-listening :
      (c : Config) (error : Option String) (e : S) {c' : Config} {w : World S}
      → connected host c error e ≡ listening c' w
      → (c ≡ c') × IsReadyToServe c w × (submissions w.events ≡ [])
  unfolding connected
  connected-listening c (some text) e h = cc
  connected-listening c none e h = instrumented-listening c (new_metrics host.prometheus) e h

  configured-listening :
      (l : Loaded Config) (e : S) {c : Config} {w : World S}
      → configured host l e ≡ listening c w
      → (l ≡ loaded c) × IsReadyToServe c w × (submissions w.events ≡ [])
  unfolding configured
  configured-listening (refused error) e h = cc
  configured-listening (loaded c) e h =
      let (same, ready, quiet) = connected-listening c _ _ h in
      (ap loaded same, rw (← same) ready, quiet)

  -- Where the process comes to serve, `Load` has accepted its configuration, the service is in a sound
  -- state, the ledger has both system accounts, and no transfer has been sent.
  pub start-listening :
      (e : S) {c : Config} {w : World S}
      → start host e ≡ listening c w
      → (load host.platform ≡ loaded c) × IsReadyToServe c w × (submissions w.events ≡ [])
  unfolding start
  start-listening e h = configured-listening (load host.platform) e h

  HasSystemAccounts-Later :
      (c : Config) {e e' : S}
      → Later (service_of host c) laws e e'
      → HasSystemAccounts (service_of host c) laws e
      → HasSystemAccounts (service_of host c) laws e'
  HasSystemAccounts-Later c later (cash, payable) = (
    Backed-Later (service_of host c) laws 1 _ later cash,
    Backed-Later (service_of host c) laws 2 _ later payable,
  )

  -- what serving requests keeps, and how many transfers it has sent
  record IsServed (c : Config) (requests : List HttpRequest) (p p' : Process S) : Type 0 where
    ready : IsReadyToServe c p'.world
    held : p'.held ≡ p.held
    sent :
        length (submissions p'.world.events) ≤ length (submissions p.world.events) + length requests

  serve_all-IsServed :
      (c : Config) (requests : List HttpRequest) (p : Process S)
      → IsReadyToServe c p.world
      → IsServed c requests p (serve_all host c requests p)
  unfolding serve_all
  serve_all-IsServed c [] p ready = record { ready = ready; held = refl; sent = omega arith }
  serve_all-IsServed c (request ∷ requests) p (sound, accounts) =
      let limit = pos_part c.max_concurrent_requests in
      let p' = (serve (service_of host c) host.web limit request p).1 in
      let h = serve-Handled (service_of host c) laws host.web limit request p sound in
      let rest =
        serve_all-IsServed c requests p' (h.sound, HasSystemAccounts-Later c h.later accounts) in
      record {
        ready = rest.ready;
        held = rest.held ∙ h.held;
        sent = elim h.sent [
          | inl same ↦ omega (arith, rest.sent, ap length same)
          | inr (t, _, one) ↦ omega (arith, rest.sent, ap length one)
        ];
      }

  -- Once the process serves, after any requests the service is in a sound state, the ledger still has
  -- both system accounts, every admission slot is free again, and no more transfers were sent than
  -- there were requests.
  pub serve_all-IsReadyToServe :
      (e : S) {c : Config} {w : World S} (requests : List HttpRequest)
      → start host e ≡ listening c w
      → let p' = serve_all host c requests (record { world = w; held = 0; samples = [] }) in
        IsReadyToServe c p'.world
        × (p'.held ≡ 0)
        × (length (submissions p'.world.events) ≤ length requests)
  serve_all-IsReadyToServe e {c} {w} requests started =
      let (_, ready, quiet) = start-listening e started in
      let served =
        serve_all-IsServed c requests (record { world = w; held = 0; samples = [] }) ready in
      (served.ready, served.held, omega (arith, served.sent, ap length quiet))

-- the `select` ends without an error
abbrev pub IsClean : Ending → Type 0
IsClean ending = ended ending ≡ none

exit_status-zero :
    (failure : Option Failure) (flushed : Bool)
    → exit_status failure flushed ≡ 0
    → (failure ≡ none) × (flushed ≡ true)
unfolding exit_status
exit_status-zero none true h = (refl, refl)
exit_status-zero none false h = absurd (omega arith)
exit_status-zero (some metrics_panicked) flushed h = absurd (omega arith)
exit_status-zero (some failure) flushed h = absurd (omega arith)

-- The process exits with status 0 exactly when it came to serve, stopped without an error, and
-- wrote its log out.
pub exit_status-run_iff :
    {S : Type 0} (started : Started S) (ending : Ending) (flushed : Bool)
    → (exit_status (run started ending).1 flushed ≡ 0) ↔ (
        ((c : Config) × (w : World S) × (started ≡ listening c w))
        × IsClean ending
        × (flushed ≡ true))
unfolding exit_status
exit_status-run_iff (stopped failure steps) ending flushed =
    (λ h. let (e, _) = exit_status-zero (some failure) flushed h in cc, λ ((_, _, h), _, _). cc)
exit_status-run_iff (listening c w) ending flushed = (
  λ h. let (clean, out) = exit_status-zero (ended ending) flushed h in ((c, w, refl), clean, out),
  λ (_, clean, out). rw (clean, out) refl,
)
