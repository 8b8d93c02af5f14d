-- ===== src/Loadtest/Report.antt =====
-- `benchmark` of cmd/loadtest/main.go, from the results on.
use ledger_service.Prelude.{
  ℕ, ◌+◌, ◌/◌, Bool, false, ◌||◌, leb, String, str_eq, Option, none, some, List, [], ◌∷◌, ◌++◌,
  if◌then◌else◌, length, get_elem?,
}
use ledger_service.Prelude.Int.{ℤ, pos, ◌-ℤ◌, quot}
use ledger_service.Clock.{millisecond}
use ledger_service.Loadtest.{Options, Measured, failure_reason}
use ledger_service.Service.Text.{is_empty}

-- the counts by reason, `map[string]int`
abbrev pub Counts : Type 0
Counts = List (String × ℕ)

-- `failureReasons[reason]`, 0 where there is none
unfoldable pub count_of : String → Counts → ℕ
count_of reason [] = 0
count_of reason ((key, n) ∷ counts) = if str_eq reason key then n else count_of reason counts

-- `failureReasons[reason]++`
unfoldable pub increment_count : String → Counts → Counts
increment_count reason [] = (reason, 1) ∷ []
increment_count reason ((key, n) ∷ counts) =
    if str_eq reason key then (key, n + 1) ∷ counts else (key, n) ∷ increment_count reason counts

-- the variables of the loop over the results
pub record Totals : Type 0 where
  pub latencies : List ℕ
  pub successful : ℕ
  pub failure_reasons : Counts
  pub sample_error : String

abbrev pub no_totals : Totals
no_totals = record { latencies = []; successful = 0; failure_reasons = []; sample_error = "" }

-- `result.err == nil && (result.status == "posted" || result.status == "approved")`
unfoldable pub is_successful : Measured → Bool
is_successful m = elim m.error [
  | some _ ↦ false
  | none ↦ str_eq m.status "posted" || str_eq m.status "approved"
]

abbrev next_sample : String → Option String → String
next_sample sample none = sample
next_sample sample (some text) = if is_empty sample then text else sample

module _ (show : ℕ → String) where
  -- one round of the loop
  unfoldable pub count_result : Totals → Measured → Totals
  unfolding is_successful failure_reason increment_count
  count_result t m =
      if is_successful m
      then record t { latencies = t.latencies ++ m.duration ∷ []; successful = t.successful + 1 }
      else record {
        latencies = t.latencies ++ m.duration ∷ [];
        successful = t.successful;
        failure_reasons = increment_count (failure_reason show m) t.failure_reasons;
        sample_error = next_sample t.sample_error m.error;
      }

  -- the loop, over the results in the order in which the workers send them
  unfoldable pub tally : Totals → List Measured → Totals
  unfolding count_result
  tally t [] = t
  tally t (m ∷ results) = tally (count_result t m) results

-- `sort.Slice` of the latencies
unfoldable pub insert_sorted : ℕ → List ℕ → List ℕ
insert_sorted n [] = n ∷ []
insert_sorted n (x ∷ xs) = let rest = insert_sorted n xs in if leb n x then n ∷ x ∷ xs else x ∷ rest

unfoldable pub sort : List ℕ → List ℕ
unfolding insert_sorted
sort [] = []
sort (x ∷ xs) = insert_sorted x (sort xs)

-- the percentiles of the report
pub data Percentile : Type 0 where
  p50 p95 p99 highest : Percentile

-- `percentileMS`, in microseconds; the index is `int(float64(last) * percentile)`, and none is out of range
unfoldable pub percentile : (Percentile → ℕ → ℕ) → List ℕ → Percentile → Option ℕ
percentile index [] p = some 0
percentile index (x ∷ xs) p = elim (get_elem? (x ∷ xs) (index p (length xs))) [
  | none ↦ none
  | some ns ↦ some (ns / 1_000)
]

-- `summary`; the rate is a quotient of floating-point numbers, kept as its dividend and the nanoseconds of its
-- divisor
pub record Summary : Type 0 where
  pub run : ℤ
  pub operation : String
  pub requests : ℤ
  pub concurrency : ℤ
  pub warmup_requests : ℤ
  pub successful : ℕ
  pub failed : ℤ
  pub duration_ms : ℤ
  pub requests_per_second : ℤ × ℤ
  pub percentiles : Percentile → Option ℕ
  pub failure_reasons : Counts
  pub sample_error : String

-- `benchmark`, from the results on; `elapsed` is `time.Since(started)`
unfoldable pub summarize :
    (ℕ → String) → (Percentile → ℕ → ℕ) → Options → ℤ → List Measured → Summary
unfolding tally sort percentile ◌-ℤ◌
summarize show index o elapsed results =
    let t = tally show no_totals results in
    let sorted = sort t.latencies in
    record {
      run = pos 0;
      operation = o.operation;
      requests = o.requests;
      concurrency = o.concurrency;
      warmup_requests = o.warmup;
      successful = t.successful;
      failed = o.requests -ℤ pos t.successful;
      duration_ms = quot elapsed millisecond;
      requests_per_second = (o.requests, elapsed);
      percentiles = percentile index sorted;
      failure_reasons = t.failure_reasons;
      sample_error = t.sample_error;
    }
