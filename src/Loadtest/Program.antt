-- ===== src/Loadtest/Program.antt =====
-- `main` of cmd/loadtest/main.go: the warm-up, the measured runs, the report and the status of the exit.
pub mod Status
pub mod Finishes
use ledger_service.Prelude.{
  ℕ, zero, suc, Bool, true, false, ◌&&◌, ◌||◌, not, String, Option, none, some, List, [], ◌∷◌,
  if◌then◌else◌,
}
use ledger_service.Loadtest.Report.{Percentile, Summary}
use ledger_service.Loadtest.Workers.{Move, benchmark}
use ledger_service.Loadtest.{Options, validate}
use ledger_service.Prelude.Int.{ℤ, pos, pos_part, leb_ℤ, ltb_ℤ}

-- how a benchmark goes: the steps of its goroutines, and how long it takes
pub record Schedule : Type 0 where
  pub moves : List Move
  pub elapsed : ℤ

-- `output`
pub data Output : Type 0 where
  one_report : Summary → Output
  all_reports : List Summary → Output

-- the status with which the program ends, and what it has encoded
pub record Exit : Type 0 where
  pub status : ℕ
  pub output : Option Output

-- `report.Failed != 0`
abbrev pub has_failed : Summary → Bool
has_failed s = not (leb_ℤ s.failed (pos 0) && leb_ℤ (pos 0) s.failed)

-- `failed`
abbrev pub any_failed : List Summary → Bool
any_failed [] = false
any_failed (s ∷ reports) = has_failed s || any_failed reports

-- `report.Run`, which is set where there are several runs
abbrev pub numbered : Options → ℕ → Summary → Summary
numbered o number report =
    if ltb_ℤ (pos 1) o.runs then record report { run = pos number } else report

-- the output for the reports, none where `reports[0]` is out of range
unfoldable pub output_of : List Summary → Option Output
output_of [] = none
output_of (report ∷ []) = some (one_report report)
output_of (report ∷ reports) = some (all_reports (report ∷ reports))

-- `main` behind the runs; a panic has status 2. `written` says that `Encode` returns no error.
unfoldable pub conclude : Bool → List Summary → Exit
unfolding output_of
conclude written reports = elim (output_of reports) [
  | none ↦ record { status = 2; output = none }
  | some output ↦ record {
    status = if not written || any_failed reports then 1 else 0;
    output = some output;
  }
]

-- the configuration of the warm-up
abbrev pub warmup_options : Options → Options
warmup_options o = record o { requests = o.warmup }

-- `show` is `strconv.Itoa`, and `index` is that of a percentile.
module _ (show : ℕ → String) (index : Percentile → ℕ → ℕ) where
  abbrev pub scheduled : Options → Schedule → Option Summary
  scheduled o schedule = benchmark show index o schedule.elapsed schedule.moves

  -- the loop over the runs, from the run `number` on, with the schedule of each
  unfoldable pub measure : Options → (ℕ → Schedule) → ℕ → ℕ → Option (List Summary)
  measure o schedules number zero = some []
  measure o schedules number (suc runs) = elim (scheduled o (schedules number)) [
    | none ↦ none
    | some report ↦ elim (measure o schedules (suc number) runs) [
      | none ↦ none
      | some reports ↦ some (numbered o number report ∷ reports)
    ]
  ]

  -- `main` from the loop on
  unfoldable pub measured_runs : Options → (ℕ → Schedule) → Bool → Option Exit
  unfolding measure conclude
  measured_runs o schedules written = elim (measure o schedules 1 (pos_part o.runs)) [
    | none ↦ none
    | some reports ↦ some (conclude written reports)
  ]

  -- `main` behind the warm-up
  unfoldable pub warmed_up : Options → (ℕ → Schedule) → Bool → Option Summary → Option Exit
  unfolding measured_runs
  warmed_up o schedules written none = none
  warmed_up o schedules written (some warmup) =
      if has_failed warmup
      then some (record { status = 1; output = none })
      else measured_runs o schedules written

  -- `main`, with the configuration that `parseFlags` returns; none where a benchmark is not over; the schedule of the warm-up is that of 0
  unfoldable pub main : Options → (ℕ → Schedule) → Bool → Option Exit
  unfolding validate warmed_up measured_runs
  main o schedules written = elim (validate o) [
    | some _ ↦ some (record { status = 2; output = none })
    | none ↦
        if ltb_ℤ (pos 0) o.warmup
        then warmed_up o schedules written (scheduled (warmup_options o) (schedules 0))
        else measured_runs o schedules written
  ]
