-- ===== src/Http/Refusals.antt =====
-- What `admissionController.Wrap` (internal/httpapi/admission.go) does with a request, against the first
-- step of a request in the interleavings.
use ledger_service.Prelude.{ℕ, ◌≡◌, refl, sym, ltb, Bool-cases, inl, inr}
use ledger_service.Http.Admission.{Shared, advance, Phase, arrived, holding, rejected}
use ledger_service.Http.Errors.{write_failure}
use ledger_service.Http.Handlers.{Process, Handler, ledger_health, reject, take_slot, wrap}
use ledger_service.Http.Metrics.{begin_admission}
use ledger_service.Http.Request.{HttpRequest}
use ledger_service.Http.Writer.{write_json, shown}
use ledger_service.Service.World.{Service}

rejected_not_holding : ¬ (rejected ≡ holding)
rejected_not_holding h = cc

module _ {S : Type 0} (s : Service S) (limit in_flight : ℕ) (next : Handler S)
    (request : HttpRequest) (p : Process S) where
  -- the first step of the request, with the slots and the health that it finds
  abbrev pub first_step : Phase × Shared
  first_step =
      advance limit (ledger_health s p).0.ready arrived
        (record { slots = p.held; in_flight = in_flight })

  -- Where the first step turns the request away, the answer has status 503, the service is left as the
  -- reading of its health left it, and no slot is taken, whatever the handler behind it; and where it
  -- takes a slot, the handler's answer is passed on, from a process with that slot taken and the gauge
  -- raised.
  pub wrap-first_step :
      (first_step.0 ≡ rejected
        → (shown (wrap s limit next request p).0.calls ≡ 503)
          × ((wrap s limit next request p).1.world ≡ (ledger_health s p).1.world)
          × ((wrap s limit next request p).1.held ≡ p.held))
      × (first_step.0 ≡ holding
          → (wrap s limit next request p).0
            ≡ (next request (record {
              world = (ledger_health s p).1.world;
              held = first_step.1.slots;
              samples = begin_admission p.samples;
            })).0)
  unfolding wrap take_slot reject write_failure write_json advance ledger_health
  wrap-first_step = elim (Bool-cases (ledger_health s p).0.ready) [
    | inr stalled ↦
        (λ _. rw stalled (refl, refl, refl), λ h. absurd (rejected_not_holding (rw stalled at h)))
    | inl ready ↦ elim (Bool-cases (ltb p.held limit)) [
      | inl free ↦ (
        λ h. absurd (rejected_not_holding (sym (rw (ready, free) at h))),
        λ _. rw (ready, free) refl,
      )
      | inr full ↦ (
        λ _. rw (ready, full) (refl, refl, refl),
        λ h. absurd (rejected_not_holding (rw (ready, full) at h)),
      )
    ]
  ]
