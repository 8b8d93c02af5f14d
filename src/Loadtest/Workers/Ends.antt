-- ===== src/Loadtest/Workers/Ends.antt =====
-- The ends of the runs of `benchmark` in cmd/loadtest/main.go.
use mathlib.Core.List.Perm
use mathlib.Core.List.{Perm, append-nil}
use ledger_service.Prelude.{
  ℕ, ◌+◌, ◌*◌, ◌≤◌, ◌<◌, ◌≡◌, ◌↔◌, refl, ap, ◌∙◌, subst, Bool, true, false, Bool-cases, inl, inr,
  Option-cases, none, some, List, [], ◌∷◌, ◌++◌, sum_by, length, arith, String,
}
use ledger_service.Loadtest.Report.{Percentile, Summary, summarize}
use ledger_service.Loadtest.Workers.Invariant.{
  jobs_left, producer_left, loop_left, is_executing, is_here, worker_left, steps_left, held,
  Staffed, IsRunning,
}
use ledger_service.Loadtest.Workers.Runs.{start-IsRunning}
use ledger_service.Loadtest.Workers.{
  Worker, idle, executing, sending, gone, Pool, new_pool, Move, run, benchmark,
}
use ledger_service.Loadtest.{Options, Measured, validate}
use ledger_service.Prelude.Int.{ℤ, pos_part}

workers_left-le :
    (workers : List Worker)
    → (sum_by worker_left workers ≤ 4 * sum_by is_here workers)
      × (sum_by is_executing workers ≤ sum_by is_here workers)
workers_left-le [] = (omega arith, omega arith)
workers_left-le (w ∷ workers) =
    let (steps, jobs) = workers_left-le workers in (ground arith, ground arith)

held-gone : (workers : List Worker) → sum_by is_here workers ≡ 0 → held workers ≡ []
held-gone [] h = refl
held-gone (gone ∷ workers) h = held-gone workers (omega arith)
held-gone (idle ∷ workers) h = absurd (omega arith)
held-gone (executing ∷ workers) h = absurd (omega arith)
held-gone (sending m ∷ workers) h = absurd (omega arith)

none_left-ended : (ended : Bool) (n : ℕ) → n + loop_left ended ≡ 0 → ended ≡ true
none_left-ended true n h = refl
none_left-ended false n h = absurd (omega arith)

module _ {requests capacity steps : ℕ} {completed : List Measured} {p : Pool}
    (r : IsRunning requests capacity steps completed p) where
  module _ (ended : p.ended ≡ true) where
    nobody_here : sum_by is_here p.workers ≡ 0
    nobody_here = subst (λ q. Staffed q p.workers) (r.at_end ended).0 r.staffed

    ended-steps_left : steps_left p ≡ 0
    ended-steps_left = omega (
      arith,
      nobody_here,
      (workers_left-le p.workers).0,
      ap producer_left (r.at_end ended).0,
      ap length (r.at_end ended).1,
      ap loop_left ended,
    )

    pub ended-completed : length completed ≡ requests
    ended-completed = omega (
      arith,
      r.counted,
      nobody_here,
      (workers_left-le p.workers).1,
      ap jobs_left (r.at_end ended).0,
    )

    pub ended-perm : Perm p.received completed
    ended-perm =
        let e : p.results ++ held p.workers ≡ [] =
          ap (λ xs. xs ++ held p.workers) (r.at_end ended).1 ∙ held-gone p.workers nobody_here in
        Perm.symm (
          subst (Perm completed) (append-nil p.received)
            (subst (λ xs. Perm completed (p.received ++ xs)) e r.accounted))

  pub ended_iff : (steps_left p ≡ 0) ↔ (p.ended ≡ true)
  ended_iff = (none_left-ended p.ended _, ended-steps_left)

-- Every run of `benchmark` ends: of the steps `4 * requests + concurrency + 3` those that it has not taken are
-- left, none exactly once the receiving loop is left, so that no run is longer.
pub run-steps_left :
    (show : ℕ → String) (requests capacity : ℕ) (moves : List Move) {p : Pool}
    → run show capacity moves (new_pool requests capacity) ≡ some p
    → (length moves + steps_left p ≡ 4 * requests + capacity + 3)
      × ((steps_left p ≡ 0) ↔ (p.ended ≡ true))
run-steps_left show requests capacity moves {p} h =
    let r = start-IsRunning show requests capacity moves h in (omega (arith, r.left), ended_iff r)

pub validate-concurrency : (o : Options) → validate o ≡ none → 0 < pos_part o.concurrency
unfolding validate
validate-concurrency o h = ground arith

-- the pool behind a report
pub benchmark-ended :
    (show : ℕ → String) (index : Percentile → ℕ → ℕ) (o : Options) (elapsed : ℤ) (moves : List Move)
    {s : Summary}
    → benchmark show index o elapsed moves ≡ some s
    → (p : Pool) × (run show
          (pos_part o.concurrency)
          moves
          (new_pool (pos_part o.requests) (pos_part o.concurrency))
        ≡ some p)
      × (p.ended ≡ true)
      × (summarize show index o elapsed p.received ≡ s)
unfolding benchmark
benchmark-ended show index o elapsed moves h =
    let start = new_pool (pos_part o.requests) (pos_part o.concurrency) in
    elim (Option-cases (run show (pos_part o.concurrency) moves start)) [
      | inl stuck ↦ let h' = (rw (stuck, benchmark) at h) in cc
      | inr (p, reached) ↦ elim (Bool-cases p.ended) [
        | inl ended ↦ (p, reached, ended, let h' = (rw (reached, ended, benchmark) at h) in cc)
        | inr going ↦ let h' = (rw (reached, going, benchmark) at h) in cc
      ]
    ]
