-- ===== src/Loadtest/Workers/Finishes.antt =====
-- How the goroutines of `benchmark` in cmd/loadtest/main.go go on to a report.
use mathlib.Core.List.{append-nil, append_assoc}
use ledger_service.Prelude.{
  ℕ, zero, suc, ◌<◌, ◌≡◌, refl, Bool-cases, inl, inr, Option-cases, true, some, none, List, [], ◌∷◌,
  ◌++◌, length, String, arith,
}
use ledger_service.Loadtest.Report.{Percentile, Summary, summarize}
use ledger_service.Loadtest.Workers.Ends.{run-steps_left, validate-concurrency}
use ledger_service.Loadtest.Workers.Invariant.{steps_left}
use ledger_service.Loadtest.Workers.Progress.{run-CanStep}
use ledger_service.Loadtest.Workers.{Pool, new_pool, Move, step, run, benchmark}
use ledger_service.Loadtest.{Options, validate}
use ledger_service.Prelude.Int.{ℤ, pos_part}

length-snoc : {A : Type 0} (xs : List A) (x : A) → length (xs ++ x ∷ []) ≡ suc (length xs)
length-snoc [] x = refl
length-snoc (y ∷ xs) x = omega (arith, length-snoc xs x)

module _ (show : ℕ → String) (capacity : ℕ) where
  run-snoc :
      (moves : List Move) (m : Move) (start : Pool) {p p' : Pool}
      → run show capacity moves start ≡ some p
      → step show capacity p m ≡ some p'
      → run show capacity (moves ++ m ∷ []) start ≡ some p'
  unfolding run
  run-snoc [] m start {p} {p'} reached taken =
      let e : start ≡ p = cc in
      let taken' : step show capacity start m ≡ some p' = rw e taken in rw (taken', run) refl
  run-snoc (m' ∷ moves) m start reached taken = elim (Option-cases (step show capacity start m')) [
    | inl stuck ↦ let h' = (rw (stuck, run) at reached) in cc
    | inr (q, first) ↦ rw (first, run) (run-snoc moves m q (rw (first, run) at reached) taken)
  ]

  module _ (requests : ℕ) (some_capacity : 0 < capacity) where
    abbrev pub Finish : List Move → Type 0
    Finish moves =
        (more : List Move) × (p : Pool) × (run show capacity (moves ++ more)
            (new_pool requests capacity)
          ≡ some p)
        × (p.ended ≡ true)

    Finish-snoc : (moves : List Move) (m : Move) → Finish (moves ++ m ∷ []) → Finish moves
    Finish-snoc moves m (more, p, finished, ended) =
        (m ∷ more, p, rw (append_assoc moves (m ∷ []) more) at finished, ended)

    -- by the steps that are left
    run-Finish :
        (n : ℕ) (moves : List Move) {p : Pool}
        → run show capacity moves (new_pool requests capacity) ≡ some p
        → steps_left p ≡ n
        → Finish moves
    run-Finish zero moves {p} reached left =
        let ended = (run-steps_left show requests capacity moves reached).1.0 left in
        ([], p, rw (append-nil moves) reached, ended)
    run-Finish (suc n) moves {p} reached left = elim (Bool-cases p.ended) [
      | inl ended ↦ ([], p, rw (append-nil moves) reached, ended)
      | inr going ↦
          let (m, p', taken) =
            run-CanStep show requests capacity moves some_capacity reached going in
          let reached' = run-snoc moves m _ reached taken in
          let before = (run-steps_left show requests capacity moves reached).0 in
          let after = (run-steps_left show requests capacity (moves ++ m ∷ []) reached').0 in
          Finish-snoc moves m (
            run-Finish n (moves ++ m ∷ []) reached'
              (omega (arith, before, after, left, length-snoc moves m)))
    ]

-- Wherever the goroutines of `benchmark` have come, with valid flags they can go on until it reports.
pub benchmark_finishes :
    (show : ℕ → String) (index : Percentile → ℕ → ℕ) (o : Options) (elapsed : ℤ) (moves : List Move)
    {p : Pool}
    → validate o ≡ none
    → run show
        (pos_part o.concurrency)
        moves
        (new_pool (pos_part o.requests) (pos_part o.concurrency))
      ≡ some p
    → (more : List Move) × (s : Summary) × (benchmark show index o elapsed (moves ++ more) ≡ some s)
unfolding benchmark
benchmark_finishes show index o elapsed moves valid reached =
    let (more, p, finished, ended) =
      run-Finish show (pos_part o.concurrency) (pos_part o.requests) (validate-concurrency o valid)
        _ moves reached refl in
    (more, summarize show index o elapsed p.received, rw (finished, ended, benchmark) refl)
