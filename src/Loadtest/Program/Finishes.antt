-- ===== src/Loadtest/Program/Finishes.antt =====
-- How the load generator, cmd/loadtest/main.go, comes to an exit.
use ledger_service.Prelude.{
  ℕ, zero, suc, ◌≡◌, refl, Bool, Bool-cases, inl, inr, String, some, none, List, [], ◌∷◌,
}
use ledger_service.Loadtest.Program.{
  Schedule, Exit, has_failed, numbered, conclude, scheduled, measure, measured_runs, warmed_up,
  warmup_options, main,
}
use ledger_service.Loadtest.Program.Status.{validate-warmup}
use ledger_service.Loadtest.Report.{Percentile, Summary}
use ledger_service.Loadtest.Workers.Finishes.{benchmark_finishes}
use ledger_service.Loadtest.Workers.{run}
use ledger_service.Loadtest.{Options, validate}
use ledger_service.Prelude.Int.{pos, pos_part, ltb_ℤ}

module _ (show : ℕ → String) (index : Percentile → ℕ → ℕ) where
  -- a schedule with which a benchmark reports
  schedule_of :
      (o : Options)
      → validate o ≡ none
      → (schedule : Schedule) × (s : Summary) × (scheduled show index o schedule ≡ some s)
  unfolding run
  schedule_of o valid =
      let (moves, s, reported) = benchmark_finishes show index o (pos 0) [] valid (refl) in
      (record { moves = moves; elapsed = pos 0 }, s, reported)

  measure_finishes :
      (o : Options) (schedules : ℕ → Schedule)
      → ((number : ℕ) → (s : Summary) × (scheduled show index o (schedules (suc number)) ≡ some s))
      → (number runs : ℕ)
      → (reports : List Summary) × (measure show index o schedules (suc number) runs ≡ some reports)
  unfolding measure
  measure_finishes o schedules each number zero = ([], refl)
  measure_finishes o schedules each number (suc runs) =
      let (s, reported) = each number in
      let (reports, measured) = measure_finishes o schedules each (suc number) runs in
      (numbered o (suc number) s ∷ reports, rw (reported, measured, measure) refl)

  measured_runs_finishes :
      (o : Options) (schedules : ℕ → Schedule) (written : Bool)
      → ((number : ℕ) → (s : Summary) × (scheduled show index o (schedules (suc number)) ≡ some s))
      → (exit : Exit) × (measured_runs show index o schedules written ≡ some exit)
  unfolding measured_runs
  measured_runs_finishes o schedules written each =
      let (reports, measured) = measure_finishes o schedules each 0 (pos_part o.runs) in
      (conclude written reports, rw (measured, measured_runs) refl)

  warmed_up_finishes :
      (o : Options) (schedules : ℕ → Schedule) (written : Bool) (warmup : Summary)
      → ((number : ℕ) → (s : Summary) × (scheduled show index o (schedules (suc number)) ≡ some s))
      → (exit : Exit) × (warmed_up show index o schedules written (some warmup) ≡ some exit)
  unfolding warmed_up
  warmed_up_finishes o schedules written warmup each = elim (Bool-cases (has_failed warmup)) [
    | inl failed ↦ (record { status = 1; output = none }, rw (failed, warmed_up) refl)
    | inr passed ↦
        let (exit, h) = measured_runs_finishes o schedules written each in
        (exit, rw (passed, warmed_up) h)
  ]

  -- With valid flags there are runs of its benchmarks with which `main` comes to an exit.
  pub main_finishes :
      (o : Options) (written : Bool)
      → validate o ≡ none
      → (schedules : ℕ → Schedule) × (exit : Exit) × (main show index o schedules written
          ≡ some exit)
  unfolding main
  main_finishes o written valid =
      let (schedule, s, reported) = schedule_of o valid in
      elim (Bool-cases (ltb_ℤ (pos 0) o.warmup)) [
        | inl some_warmup ↦
            let (first, warmup, warmed) =
              schedule_of (warmup_options o) (validate-warmup show index o valid some_warmup) in
            let schedules : ℕ → Schedule =
              λ number. elim number [ zero ↦ first | suc _ ↦ schedule ] in
            let (exit, h) =
              warmed_up_finishes o schedules written warmup (λ number. (s, reported)) in
            (schedules, exit, rw (valid, some_warmup, main, warmed) h)
        | inr no_warmup ↦
            let schedules : ℕ → Schedule = λ number. schedule in
            let (exit, h) = measured_runs_finishes o schedules written (λ number. (s, reported)) in
            (schedules, exit, rw (valid, no_warmup, main) h)
      ]
