-- ===== src/Tests/Loadtest.antt =====
-- The load generator's report on two results.
use mathlib.Core.List.{Permᴰ}
use ledger_service.Prelude.{
  ℕ, ◌+◌, ◌*◌, ◌≡◌, ◌↔◌, refl, true, false, ◌&&◌, String, none, some, List, [], ◌∷◌, ◌++◌, length,
  arith,
}
use ledger_service.Loadtest.Report.{Percentile, Summary, summarize}
use ledger_service.Loadtest.Tally.{SameReport, total, summarize-perm}
use ledger_service.Loadtest.Workers.{
  gone, sending, waiting, closed, Pool, new_pool, Move, hands_out, sends, leaves, executes,
  closes_jobs, closes_results, receives, ends, run, executed, benchmark,
}
use ledger_service.Loadtest.Workers.Ends.{run-steps_left}
use ledger_service.Loadtest.Workers.Reports.{IsInRange, benchmark-SameReport}
use ledger_service.Loadtest.Workers.Invariant.{steps_left}
use ledger_service.Loadtest.Workers.Finishes.{benchmark_finishes}
use ledger_service.Loadtest.Program.{Schedule, all_reports, main}
use ledger_service.Loadtest.Program.Status.{all_good, status_of, main-status}
use ledger_service.Prelude.Int.{pos}
use ledger_service.Loadtest.{
  Options, validate, Measured, answered, readable, default_options, measured, failure_reason,
}

abbrev show : ℕ → String
show _ = "503"

-- the last of the sorted latencies, whatever the percentile
abbrev last : Percentile → ℕ → ℕ
last _ n = n

abbrev posted : Measured
posted = record { duration = 4_000; status = "posted"; http_status = 200; error = none }

abbrev busy : Measured
busy = record { duration = 9_000; status = ""; http_status = 503; error = some "HTTP 503" }

measured-busy : measured show (answered 9_000 503 none (readable "error")) ≡ busy
unfolding measured
measured-busy = refl

busy_reason : failure_reason show busy ≡ "http_503"
unfolding failure_reason
busy_reason = refl

summarize-perm_example :
    SameReport
      (summarize show last default_options (pos 2_000_000) (posted ∷ busy ∷ []))
      (summarize show last default_options (pos 2_000_000) (busy ∷ posted ∷ []))
    × ((summarize show last default_options (pos 2_000_000) (posted ∷ busy ∷ [])).successful
          + total
              (summarize show last default_options
                (pos 2_000_000)
                (posted ∷ busy ∷ [])).failure_reasons
        ≡ 2)
summarize-perm_example =
    summarize-perm show last default_options (pos 2_000_000) {results' = busy ∷ posted ∷ []}
      ∣ Permᴰ.swap refl refl ∣₁

-- one worker sends one request, and its result is received
abbrev one_request : Options
one_request = record default_options { requests = pos 1; concurrency = pos 1 }

abbrev first_moves : List Move
first_moves =
    hands_out 0 ∷ closes_jobs ∷ executes 0 (answered 4_000 200 none (readable "posted")) ∷ []

abbrev all_moves : List Move
all_moves = first_moves ++ sends 0 ∷ leaves 0 ∷ closes_results ∷ receives ∷ ends ∷ []

abbrev ended_pool : Pool
ended_pool = record {
  producer = closed;
  workers = gone ∷ [];
  results = [];
  received = posted ∷ [];
  ended = true;
}

abbrev sending_pool : Pool
sending_pool = record {
  producer = waiting;
  workers = sending posted ∷ [];
  results = [];
  received = [];
  ended = false;
}

run-all_moves : run show 1 all_moves (new_pool 1 1) ≡ some ended_pool
unfolding run measured new_pool
run-all_moves = refl

run-first_moves : run show 1 first_moves (new_pool 1 1) ≡ some sending_pool
unfolding run measured new_pool
run-first_moves = refl

one_request_valid : validate one_request ≡ none
unfolding validate
one_request_valid = refl

benchmark-all_moves :
    benchmark show last one_request (pos 2_000_000) all_moves
    ≡ some (summarize show last one_request (pos 2_000_000) (posted ∷ []))
unfolding benchmark measured
benchmark-all_moves = refl

last-IsInRange : IsInRange last
last-IsInRange p n = omega arith

run-steps_left_example :
    (length all_moves + steps_left ended_pool ≡ 4 * 1 + 1 + 3)
    × ((steps_left ended_pool ≡ 0) ↔ (true ≡ true))
run-steps_left_example = run-steps_left show 1 1 all_moves run-all_moves

benchmark-SameReport_example :
    (pos 1 ≡ one_request.requests)
    × SameReport
        (summarize show last one_request (pos 2_000_000) (posted ∷ []))
        (summarize show last one_request (pos 2_000_000) (executed show all_moves))
    × ((summarize show last one_request (pos 2_000_000) (posted ∷ [])).failed
        ≡ pos
            (total (summarize show last one_request (pos 2_000_000) (posted ∷ [])).failure_reasons))
    × ((p : Percentile)
        → (n : ℕ) × ((summarize show last one_request (pos 2_000_000) (posted ∷ [])).percentiles p
            ≡ some n))
benchmark-SameReport_example =
    benchmark-SameReport show last one_request (pos 2_000_000) all_moves last-IsInRange
      one_request_valid benchmark-all_moves

benchmark_finishes_example :
    (more : List Move) × (s : Summary) × (benchmark show last one_request
        (pos 2_000_000)
        (first_moves ++ more)
      ≡ some s)
benchmark_finishes_example =
    benchmark_finishes show last one_request (pos 2_000_000) first_moves one_request_valid
      run-first_moves

-- a warm-up and two runs of one request each
abbrev two_runs : Options
two_runs = record one_request { runs = pos 2; warmup = pos 1 }

abbrev same_schedule : ℕ → Schedule
same_schedule _ = record { moves = all_moves; elapsed = pos 2_000_000 }

abbrev two_reports : List Summary
two_reports =
    let report = summarize show last two_runs (pos 2_000_000) (posted ∷ []) in
    record report { run = pos 1 } ∷ record report { run = pos 2 } ∷ []

two_runs_valid : validate two_runs ≡ none
unfolding validate
two_runs_valid = refl

main-two_runs :
    main show last two_runs same_schedule true
    ≡ some (record { status = 0; output = some (all_reports two_reports) })
unfolding main summarize benchmark measured ledger_service.Prelude.Int.◌-ℤ◌
main-two_runs = refl

main-status_example : 0 ≡ status_of (true && all_good show last two_runs same_schedule)
main-status_example = main-status show last two_runs same_schedule true two_runs_valid main-two_runs
