-- ===== src/Loadtest/Workers.antt =====
-- The goroutines of `benchmark` in cmd/loadtest/main.go: the workers, the producer that feeds them over
-- the unbuffered channel `jobs`, and the loop that receives over the buffered channel `results`, in any
-- interleaving of their steps.
pub mod Steps
pub mod Invariant
pub mod Kept
pub mod Runs
pub mod Ends
pub mod Reports
pub mod Progress
pub mod Finishes
use ledger_service.Prelude.{
  ℕ, zero, suc, ◌+◌, ◌≡◌, ltb, ◌==◌, Bool, true, false, Option, none, some, List, [], ◌∷◌, ◌++◌,
  get_elem?, set, sum_by, replicate, String, if◌then◌else◌, length,
}
use ledger_service.Prelude.Int.{ℤ, pos_part}
use ledger_service.Loadtest.Report.{Percentile, Summary, summarize}
use ledger_service.Loadtest.{Options, Measured, Exchange, measured}

-- A worker: at the receive from `jobs`, in `execute`, at the send to `results`, or behind its loop.
pub data Worker : Type 0 where
  idle executing gone : Worker
  sending : Measured → Worker

-- The producer: in its loop with a number of jobs to send, at `workers.Wait()`, or behind the close of
-- `results`.
pub data Producer : Type 0 where
  feeding : ℕ → Producer
  waiting closed : Producer

-- `results` has the values in the channel, the oldest first, and `received` those that the loop has
-- received; `ended` says that the loop is left.
pub record Pool : Type 0 where
  pub producer : Producer
  pub workers : List Worker
  pub results : List Measured
  pub received : List Measured
  pub ended : Bool

-- the pool before its first step
unfoldable pub new_pool : ℕ → ℕ → Pool
new_pool requests concurrency = record {
  producer = feeding requests;
  workers = replicate concurrency idle;
  results = [];
  received = [];
  ended = false;
}

-- The steps: the producer hands a job to worker `i`; it closes `jobs`; the `execute` of worker `i`
-- returns; worker `i` sends its result; it leaves its loop; the producer closes `results`; the loop
-- receives a result; and it is left.
pub data Move : Type 0 where
  hands_out sends leaves : ℕ → Move
  executes : ℕ → Exchange → Move
  closes_jobs closes_results receives ends : Move

abbrev pub is_gone : Worker → ℕ
is_gone gone = 1
is_gone _ = 0

abbrev pub with_worker : Pool → ℕ → Worker → Pool
with_worker p i worker = record p { workers = set p.workers i worker }

-- `jobs <- struct{}{}`, which waits for a worker that receives
unfoldable pub hand_out : Pool → ℕ → Producer → Option Worker → Option Pool
hand_out p i (feeding (suc n)) (some idle) =
    some (record p { producer = feeding n; workers = set p.workers i executing })
hand_out p i _ _ = none

-- `close(jobs)`, behind the last job
unfoldable pub close_jobs : Pool → Producer → Option Pool
close_jobs p (feeding zero) = some (record p { producer = waiting })
close_jobs p _ = none

-- `results <- …`, which waits while the channel is full
unfoldable pub send_result : ℕ → Pool → ℕ → Option Worker → Option Pool
send_result capacity p i (some (sending m)) =
    if ltb (length p.results) capacity
    then some (record p { workers = set p.workers i idle; results = p.results ++ m ∷ [] })
    else none
send_result capacity p i _ = none

-- the end of `for range jobs`, once `jobs` is closed and has no value
unfoldable pub leave : Pool → ℕ → Producer → Option Worker → Option Pool
leave p i (feeding _) _ = none
leave p i _ (some idle) = some (with_worker p i gone)
leave p i _ _ = none

-- `workers.Wait()` and `close(results)`
unfoldable pub close_results : Pool → Producer → Option Pool
close_results p waiting =
    if sum_by is_gone p.workers == length p.workers
    then some (record p { producer = closed })
    else none
close_results p _ = none

-- a round of `for result := range results`
unfoldable pub receive : Pool → List Measured → Option Pool
receive p (m ∷ rest) = some (record p { results = rest; received = p.received ++ m ∷ [] })
receive p [] = none

-- the end of that loop, once `results` is closed and has no value
unfoldable pub end_loop : Pool → Producer → List Measured → Bool → Option Pool
end_loop p closed [] false = some (record p { ended = true })
end_loop p _ _ _ = none

module _ (show : ℕ → String) where
  -- `execute`, by a worker that has a job
  unfoldable pub finish_execute : Pool → ℕ → Exchange → Option Worker → Option Pool
  finish_execute p i x (some executing) = some (with_worker p i (sending (measured show x)))
  finish_execute p i x _ = none

  -- A step of the pool, none where it has to wait. `capacity` is that of `results`.
  unfoldable pub step : ℕ → Pool → Move → Option Pool
  unfolding hand_out close_jobs finish_execute send_result leave close_results receive end_loop
  step capacity p (hands_out i) = hand_out p i p.producer (get_elem? p.workers i)
  step capacity p (sends i) = send_result capacity p i (get_elem? p.workers i)
  step capacity p (leaves i) = leave p i p.producer (get_elem? p.workers i)
  step capacity p (executes i x) = finish_execute p i x (get_elem? p.workers i)
  step capacity p closes_jobs = close_jobs p p.producer
  step capacity p closes_results = close_results p p.producer
  step capacity p receives = receive p p.results
  step capacity p ends = end_loop p p.producer p.results p.ended

  unfoldable pub run : ℕ → List Move → Pool → Option Pool
  unfolding step
  run capacity [] p = some p
  run capacity (m ∷ moves) p = elim (step capacity p m) [
    | none ↦ none
    | some p' ↦ run capacity moves p'
  ]

  -- the results of `execute`, in the order in which its calls return
  abbrev pub result_of : Move → List Measured
  result_of (executes _ x) = measured show x ∷ []
  result_of _ = []

  abbrev pub executed : List Move → List Measured
  executed [] = []
  executed (m ∷ moves) = result_of m ++ executed moves

  -- `benchmark`: its report, once the loop over the results is left, `elapsed` after its start. The flags are valid, so that the
  -- numbers are positive.
  unfoldable pub benchmark : (Percentile → ℕ → ℕ) → Options → ℤ → List Move → Option Summary
  unfolding run new_pool summarize
  benchmark index o elapsed moves =
      elim (run (pos_part o.concurrency) moves
        (new_pool (pos_part o.requests) (pos_part o.concurrency))) [
          | none ↦ none
          | some p ↦ if p.ended then some (summarize show index o elapsed p.received) else none
        ]
