-- ===== src/Loadtest/Workers/Reports.antt =====
-- What `benchmark` in cmd/loadtest/main.go reports.
use mathlib.Core.List.Perm
use ledger_service.Prelude.{
  ◌/◌, length, get_elem?-lt_length, [], ◌∷◌, ℕ, ◌≤◌, ◌≡◌, refl, ap, ◌∙◌, false, none, some, List,
  [], ◌∷◌, length, arith, String,
}
use ledger_service.Loadtest.Report.{
  Percentile, percentile, Summary, summarize, tally, no_totals, sort,
}
use ledger_service.Loadtest.Tally.{SameReport, summarize-perm, perm-length, total}
use ledger_service.Loadtest.Workers.Runs.{start-IsRunning}
use ledger_service.Loadtest.Workers.{Move, executed, benchmark}
use ledger_service.Loadtest.Workers.Ends.{benchmark-ended, ended-completed, ended-perm}
use ledger_service.Loadtest.{Options, Measured, validate}
use ledger_service.Prelude.Int.{ℤ, pos, negsuc, pos_part, neg_part, leb_ℤ, -ℤ_parts, eq_of_parts}

is_positive : (n : ℤ) → leb_ℤ n (pos 0) ≡ false → pos (pos_part n) ≡ n
is_positive (pos n) h = refl
is_positive (negsuc n) h = absurd (ground arith)

validate-requests : (o : Options) → validate o ≡ none → leb_ℤ o.requests (pos 0) ≡ false
unfolding validate
validate-requests o h = ground arith

summarize-failed :
    (show : ℕ → String) (index : Percentile → ℕ → ℕ) (o : Options) (elapsed : ℤ)
    (results : List Measured) {n : ℕ}
    → pos n ≡ o.requests
    → length results ≡ n
    → (summarize show index o elapsed results).failed
      ≡ pos (total (summarize show index o elapsed results).failure_reasons)
unfolding summarize
summarize-failed show index o elapsed results {n} e same =
    let (_, counted) = summarize-perm show index o elapsed (Perm.refl results) in
    eq_of_parts _ _ (
      omega (
        arith,
        -ℤ_parts o.requests (pos (summarize show index o elapsed results).successful),
        ap pos_part e,
        ap neg_part e,
        counted,
      ))

-- what the report counts
pub benchmark-counted :
    (show : ℕ → String) (index : Percentile → ℕ → ℕ) (o : Options) (elapsed : ℤ) (moves : List Move)
    {s : Summary}
    → validate o ≡ none
    → benchmark show index o elapsed moves ≡ some s
    → (pos (length (executed show moves)) ≡ o.requests)
      × SameReport s (summarize show index o elapsed (executed show moves))
      × (s.failed ≡ pos (total s.failure_reasons))
benchmark-counted show index o elapsed moves valid h =
    let (p, reached, ended, same) = benchmark-ended show index o elapsed moves h in
    let r = start-IsRunning show (pos_part o.requests) (pos_part o.concurrency) moves reached in
    let completed = ended-completed r ended in
    let perm = ended-perm r ended in
    let positive = is_positive o.requests (validate-requests o valid) in
    (
      ap pos completed ∙ positive,
      rw (← same) (summarize-perm show index o elapsed perm).0,
      rw (← same) (
          summarize-failed show index o elapsed p.received positive (perm-length perm ∙ completed)),
    )

-- an index of a percentile that is in range, as `int(float64(last) * percentile)` is
abbrev pub IsInRange : (Percentile → ℕ → ℕ) → Type 0
IsInRange index = (p : Percentile) (last : ℕ) → index p last ≤ last

percentile-some :
    (index : Percentile → ℕ → ℕ) (xs : List ℕ) (p : Percentile)
    → IsInRange index
    → (n : ℕ) × (percentile index xs p ≡ some n)
unfolding percentile
percentile-some index [] p in_range = (0, refl)
percentile-some index (x ∷ xs) p in_range =
    let (ns, found) =
      get_elem?-lt_length (x ∷ xs) (index p (length xs)) (omega (arith, in_range p (length xs))) in
    (ns / 1_000, rw (found, percentile) refl)

summarize-percentiles :
    (show : ℕ → String) (index : Percentile → ℕ → ℕ) (o : Options) (elapsed : ℤ)
    (results : List Measured) (p : Percentile)
    → IsInRange index
    → (n : ℕ) × ((summarize show index o elapsed results).percentiles p ≡ some n)
unfolding summarize
summarize-percentiles show index o elapsed results p in_range =
    percentile-some index (sort (tally show no_totals results).latencies) p in_range

-- What `benchmark` reports once its loop is left, with valid flags: `execute` has returned as often as requests
-- were asked for, the report is that of those results but for the sample of an error and the order of the reasons, the
-- failures that it counts are as many as its counts by reason, and where the indices of the percentiles are in range
-- each percentile is found.
pub benchmark-SameReport :
    (show : ℕ → String) (index : Percentile → ℕ → ℕ) (o : Options) (elapsed : ℤ) (moves : List Move)
    {s : Summary}
    → IsInRange index
    → validate o ≡ none
    → benchmark show index o elapsed moves ≡ some s
    → (pos (length (executed show moves)) ≡ o.requests)
      × SameReport s (summarize show index o elapsed (executed show moves))
      × (s.failed ≡ pos (total s.failure_reasons))
      × ((p : Percentile) → (n : ℕ) × (s.percentiles p ≡ some n))
benchmark-SameReport show index o elapsed moves in_range valid h =
    let (asked, same, failed) = benchmark-counted show index o elapsed moves valid h in
    let (p, _, _, e) = benchmark-ended show index o elapsed moves h in
    (
      asked,
      same,
      failed,
      λ q. rw (← e) (summarize-percentiles show index o elapsed p.received q in_range),
    )
