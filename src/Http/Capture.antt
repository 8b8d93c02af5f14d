-- ===== src/Http/Capture.antt =====
-- The status that `statusWriter` notes (internal/observability/metrics.go) is the one that the client
-- gets, and the wrapper changes nothing else that the client sees.
use ledger_service.Prelude.{ℕ, ◌≤◌, ◌≡◌, refl, true, List, [], ◌∷◌, ap, arith, length}
use ledger_service.Http.Metrics.{new_status_writer, write_header_captured, captured, capture}
use ledger_service.Http.Writer.{
  Call, set_header, write_header, write, AllFinal, shown, bodies, statuses,
}

-- after the header is written only bodies and headers pass
capture-written :
    (status : ℕ) (calls : List Call)
    → ((capture (record { status = status; wrote_header = true }) calls).0.status ≡ status)
      × (statuses (capture (record { status = status; wrote_header = true }) calls).1 ≡ [])
      × (bodies (capture (record { status = status; wrote_header = true }) calls).1 ≡ bodies calls)
unfolding capture captured write_header_captured
capture-written status [] = (refl, refl, refl)
capture-written status (set_header key value ∷ calls) = capture-written status calls
capture-written status (write_header other ∷ calls) = capture-written status calls
capture-written status (write body ∷ calls) =
    let (kept, none, same) = capture-written status calls in (kept, none, ap (◌∷◌ body) same)

-- The status that `HTTPMiddleware` counts for the calls of a handler is the one that the client would
-- get from those calls, and the one it gets from the calls that are passed on, if no status is informational;
-- these write at most one status, and the same bodies in the same order.
pub capture-shown :
    (calls : List Call)
    → AllFinal calls
    → ((capture new_status_writer calls).0.status ≡ shown calls)
      × (shown (capture new_status_writer calls).1 ≡ shown calls)
      × (length (statuses (capture new_status_writer calls).1) ≤ 1)
      × (bodies (capture new_status_writer calls).1 ≡ bodies calls)
unfolding capture captured write_header_captured
capture-shown [] _ = (refl, refl, omega arith, refl)
capture-shown (set_header key value ∷ calls) final = capture-shown calls final
capture-shown (write_header status ∷ calls) (high, _) =
    let (kept, none, same) = capture-written status calls in
    (ground arith, ground arith, omega (arith, ap length none), same)
capture-shown (write body ∷ calls) _ =
    let (kept, none, same) = capture-written 200 calls in
    (kept, refl, omega (arith, ap length none), ap (◌∷◌ body) same)
