-- ===== src/Loadtest/Program/Status.antt =====
-- The status with which the load generator, cmd/loadtest/main.go, exits.
use ledger_service.Prelude.{
  ℕ, zero, suc, ◌≡◌, ◌≤◌, ◌<◌, ◌==◌, refl, sym, ap, ◌∙◌, Bool, true, ◌&&◌, ◌||◌, not, Bool-cases,
  inl, inr, Option-cases, String, none, some, List, [], ◌∷◌, length, if◌then◌else◌, arith,
}
use ledger_service.Loadtest.Program.{
  Schedule, Exit, has_failed, any_failed, numbered, output_of, conclude, scheduled, measure,
  measured_runs, warmed_up, warmup_options, main,
}
use ledger_service.Loadtest.Report.{Percentile, Summary, is_successful, summarize}
use ledger_service.Loadtest.Tally.{successes, summarize-successful}
use ledger_service.Loadtest.Workers.Reports.{benchmark-counted}
use ledger_service.Loadtest.Workers.{executed}
use ledger_service.Loadtest.{Options, Measured, validate}
use ledger_service.Prelude.Int.{ℤ, pos, pos_part, leb_ℤ, ltb_ℤ, ◌-ℤ◌, -ℤ_parts}

abbrev pub are_successful : List Measured → Bool
are_successful [] = true
are_successful (m ∷ results) = is_successful m && are_successful results

successes_le : (results : List Measured) → successes results ≤ length results
successes_le [] = omega arith
successes_le (m ∷ results) = ground (arith, successes_le results)

are_successful_lem :
    (results : List Measured) → (successes results == length results) ≡ are_successful results
are_successful_lem [] = refl
are_successful_lem (m ∷ results) = ground (arith, are_successful_lem results, successes_le results)

-- the status of a good end, and that of another
abbrev pub status_of : Bool → ℕ
status_of good = if good then 0 else 1

module _ (show : ℕ → String) (index : Percentile → ℕ → ℕ) where
  abbrev pub is_good : Schedule → Bool
  is_good schedule = are_successful (executed show schedule.moves)

  -- the runs from one on
  abbrev pub are_good : (ℕ → Schedule) → ℕ → ℕ → Bool
  are_good schedules number zero = true
  are_good schedules number (suc runs) =
      is_good (schedules number) && are_good schedules (suc number) runs

  summarize-failed_parts :
      (o : Options) (elapsed : ℤ) (results : List Measured)
      → (summarize show index o elapsed results).failed
        ≡ o.requests -ℤ pos (summarize show index o elapsed results).successful
  unfolding summarize
  summarize-failed_parts o elapsed results = refl

  difference-zero :
      (n k : ℕ)
      → k ≤ n
      → (leb_ℤ (pos n -ℤ pos k) (pos 0) && leb_ℤ (pos 0) (pos n -ℤ pos k)) ≡ (k == n)
  difference-zero n k h = ground (arith, -ℤ_parts (pos n) (pos k))

  -- a benchmark fails if one of its requests does
  benchmark-has_failed :
      (o : Options) (schedule : Schedule) {s : Summary}
      → validate o ≡ none
      → scheduled show index o schedule ≡ some s
      → has_failed s ≡ not (is_good schedule)
  benchmark-has_failed o schedule {s} valid h =
      let results = executed show schedule.moves in
      let (asked, (same, _), _) =
        benchmark-counted show index o schedule.elapsed schedule.moves valid h in
      let failed : s.failed ≡ pos (length results) -ℤ pos (successes results) =
        ap (λ r. r.failed) same
        ∙ summarize-failed_parts o schedule.elapsed results
        ∙ ap (λ n. o.requests -ℤ pos n) (summarize-successful show index o schedule.elapsed results)
        ∙ ap (λ n. n -ℤ pos (successes results)) (sym asked) in
      rw failed (
        ap not (
          difference-zero (length results) (successes results) (successes_le results)
          ∙ are_successful_lem results))

  numbered-has_failed :
      (o : Options) (number : ℕ) (s : Summary) → has_failed (numbered o number s) ≡ has_failed s
  numbered-has_failed o number s = elim (Bool-cases (ltb_ℤ (pos 1) o.runs)) [
    | inl several ↦ rw several refl
    | inr single ↦ rw single refl
  ]

  measure-any_failed :
      (o : Options) (schedules : ℕ → Schedule) (number runs : ℕ) {reports : List Summary}
      → validate o ≡ none
      → measure show index o schedules number runs ≡ some reports
      → (any_failed reports ≡ not (are_good schedules number runs)) × (length reports ≡ runs)
  unfolding measure
  measure-any_failed o schedules number zero {reports} valid h =
      let e : [] ≡ reports = cc in rw (← e) (refl, refl)
  measure-any_failed o schedules number (suc runs) {reports} valid h =
      elim (Option-cases (scheduled show index o (schedules number))) [
        | inl stuck ↦ let h' = (rw (stuck, measure) at h) in cc
        | inr (s, reported) ↦
            elim (Option-cases (measure show index o schedules (suc number) runs)) [
              | inl stuck ↦ let h' = (rw (reported, stuck, measure) at h) in cc
              | inr (rest, measured) ↦
                  let e : numbered o number s ∷ rest ≡ reports =
                    let h' = (rw (reported, measured, measure) at h) in cc in
                  let (failed, counted) =
                    measure-any_failed o schedules (suc number) runs valid measured in
                  rw (← e) (
                    ground (
                      arith,
                      numbered-has_failed o number s,
                      benchmark-has_failed o (schedules number) valid reported,
                      failed,
                    ),
                    ap suc counted,
                  )
            ]
      ]

  conclude-status :
      (written : Bool) (reports : List Summary)
      → 0 < length reports
      → (conclude written reports).status ≡ status_of (written && not (any_failed reports))
  unfolding conclude output_of
  conclude-status written [] h = absurd (omega arith)
  conclude-status written (s ∷ []) h = ground arith
  conclude-status written (s ∷ s' ∷ reports) h = ground arith

  status_of-not :
      (written : Bool) {failed : Bool} (good : Bool)
      → failed ≡ not good
      → status_of (written && not failed) ≡ status_of (written && good)
  status_of-not written good e = ground arith

  validate-runs : (o : Options) → validate o ≡ none → 0 < pos_part o.runs
  unfolding validate
  validate-runs o valid = ground arith

  pub validate-warmup :
      (o : Options)
      → validate o ≡ none
      → ltb_ℤ (pos 0) o.warmup ≡ true
      → validate (warmup_options o) ≡ none
  unfolding validate
  validate-warmup o valid some_warmup = ground arith

  -- every request of the warm-up, if there is one, and of the runs is a success
  abbrev pub all_good : Options → (ℕ → Schedule) → Bool
  all_good o schedules =
      (not (ltb_ℤ (pos 0) o.warmup) || is_good (schedules 0))
      && are_good schedules 1 (pos_part o.runs)

  module _ (o : Options) (schedules : ℕ → Schedule) (written : Bool) {exit : Exit}
      (valid : validate o ≡ none) where
    measured_runs-status :
        measured_runs show index o schedules written ≡ some exit
        → exit.status ≡ status_of (written && are_good schedules 1 (pos_part o.runs))
    unfolding measured_runs
    measured_runs-status h =
        elim (Option-cases (measure show index o schedules 1 (pos_part o.runs))) [
          | inl stuck ↦ let h' = (rw (stuck, measured_runs) at h) in cc
          | inr (reports, measured) ↦
              let e : conclude written reports ≡ exit =
                let h' = (rw (measured, measured_runs) at h) in cc in
              let (failed, counted) =
                measure-any_failed o schedules 1 (pos_part o.runs) valid measured in
              let status =
                conclude-status written reports (omega (arith, counted, validate-runs o valid)) in
              rw (← e) (status ∙ status_of-not written _ failed)
        ]

    warmed_up-status :
        ltb_ℤ (pos 0) o.warmup ≡ true
        → warmed_up show index o schedules written
            (scheduled show index (warmup_options o) (schedules 0))
          ≡ some exit
        → exit.status ≡ status_of (written && all_good o schedules)
    unfolding warmed_up
    warmed_up-status some_warmup h =
        elim (Option-cases (scheduled show index (warmup_options o) (schedules 0))) [
          | inl stuck ↦ let h' = (rw (stuck, warmed_up) at h) in cc
          | inr (warmup, reported) ↦
              let failed =
                benchmark-has_failed (warmup_options o) (schedules 0)
                  (validate-warmup o valid some_warmup) reported in
              elim (Bool-cases (is_good (schedules 0))) [
                | inl good ↦
                    rw (some_warmup, good)
                      (measured_runs-status (rw (reported, warmed_up, failed, good) at h))
                | inr bad ↦
                    let e = (rw (reported, warmed_up, failed, bad) at h) in
                    rw (some_warmup, bad) (ground (arith))
              ]
        ]

    -- With valid flags, once its benchmarks are over, `main` exits with status 0 where every request of the warm-up, if
    -- there is one, and of the runs is a success and the report is written, and with 1 otherwise.
    pub main-status :
        main show index o schedules written ≡ some exit
        → exit.status ≡ status_of (written && all_good o schedules)
    unfolding main
    main-status h = elim (Bool-cases (ltb_ℤ (pos 0) o.warmup)) [
      | inl some_warmup ↦ warmed_up-status some_warmup (rw (valid, some_warmup, main) at h)
      | inr no_warmup ↦ rw no_warmup (measured_runs-status (rw (valid, no_warmup, main) at h))
    ]
