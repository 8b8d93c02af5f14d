-- ===== src/Loadtest/Tally.antt =====
-- The report of cmd/loadtest/main.go and the order in which the results of the workers arrive.
use mathlib.Core.Logic.{∥∥₁_elim}
use mathlib.Core.List.{Perm, Permᴰ, append_assoc, append-nil}
use ledger_service.Prelude.{
  ℕ, suc, ◌+◌, ◌≡◌, refl, sym, ap, ◌∙◌, Bool-cases, inl, inr, String, str_eq, eq_iff, List, [], ◌∷◌,
  ◌++◌, length, if◌then◌else◌, arith,
}
use ledger_service.Prelude.Int.{ℤ, pos, ◌-ℤ◌}
use ledger_service.Loadtest.Report.{
  Counts, count_of, increment_count, Totals, no_totals, is_successful, count_result, tally,
  insert_sorted, sort, Percentile, percentile, Summary, summarize,
}
use ledger_service.Loadtest.{Options, Measured, failure_reason}

-- the sum of the counts
abbrev pub total : Counts → ℕ
total [] = 0
total ((_, n) ∷ counts) = n + total counts

abbrev durations : List Measured → List ℕ
durations [] = []
durations (m ∷ results) = m.duration ∷ durations results

-- the successes among the results, and the failures for a reason
abbrev pub successes : List Measured → ℕ
successes [] = 0
successes (m ∷ results) = (if is_successful m then 1 else 0) + successes results

count_of-increment_count :
    (reason key : String) (counts : Counts)
    → count_of reason (increment_count key counts)
      ≡ count_of reason counts + (if str_eq reason key then 1 else 0)
unfolding count_of increment_count
count_of-increment_count reason key [] = ground arith
count_of-increment_count reason key ((other, n) ∷ counts) = ground (
  arith,
  count_of-increment_count reason key counts,
  eq_iff reason key,
  eq_iff key other,
  eq_iff reason other,
)

total-increment_count :
    (key : String) (counts : Counts) → total (increment_count key counts) ≡ total counts + 1
unfolding increment_count
total-increment_count key [] = omega arith
total-increment_count key ((other, n) ∷ counts) = ground (arith, total-increment_count key counts)

-- a sorted list does not remember the order
insert_sorted_comm :
    (a b : ℕ) (xs : List ℕ)
    → insert_sorted a (insert_sorted b xs) ≡ insert_sorted b (insert_sorted a xs)
unfolding insert_sorted
insert_sorted_comm a b [] = ground arith
insert_sorted_comm a b (x ∷ xs) = ground (arith, insert_sorted_comm a b xs)

abbrev pub without_reasons : Summary → Summary
without_reasons s = record s { failure_reasons = []; sample_error = "" }

-- Two reports that are the same but for the sample of an error, and for the order of the reasons.
abbrev pub SameReport : Summary → Summary → Type 0
SameReport s s' =
    (without_reasons s ≡ without_reasons s')
    × ((reason : String) → count_of reason s.failure_reasons ≡ count_of reason s'.failure_reasons)

length-perm : {l l' : List Measured} → Permᴰ l l' → length l ≡ length l'
length-perm Permᴰ.nil = refl
length-perm (Permᴰ.cons _ d) = ap suc (length-perm d)
length-perm (Permᴰ.swap _ _) = refl
length-perm (Permᴰ.trans d d') = length-perm d ∙ length-perm d'

pub perm-length : {l l' : List Measured} → Perm l l' → length l ≡ length l'
perm-length p = ∥∥₁_elim p (hlevel) length-perm

module _ (show : ℕ → String) where
  abbrev occurrences : String → List Measured → ℕ
  occurrences reason [] = 0
  occurrences reason (m ∷ results) =
      (if is_successful m then 0 else if str_eq reason (failure_reason show m) then 1 else 0)
      + occurrences reason results

  tally-successful :
      (t : Totals) (results : List Measured)
      → (tally show t results).successful ≡ t.successful + successes results
  unfolding tally count_result
  tally-successful t [] = omega arith
  tally-successful t (m ∷ results) =
      ground (arith, tally-successful (count_result show t m) results)

  pub summarize-successful :
      (index : Percentile → ℕ → ℕ) (o : Options) (elapsed : ℤ) (results : List Measured)
      → (summarize show index o elapsed results).successful ≡ successes results
  unfolding summarize
  summarize-successful index o elapsed results = omega (arith, tally-successful no_totals results)

  count_result-latencies :
      (t : Totals) (m : Measured)
      → (count_result show t m).latencies ≡ t.latencies ++ m.duration ∷ []
  unfolding count_result
  count_result-latencies t m = elim (Bool-cases (is_successful m)) [
    | inl good ↦ rw good refl
    | inr bad ↦ rw bad refl
  ]

  tally-latencies :
      (t : Totals) (results : List Measured)
      → (tally show t results).latencies ≡ t.latencies ++ durations results
  unfolding tally count_result
  tally-latencies t [] = sym (append-nil t.latencies)
  tally-latencies t (m ∷ results) =
      tally-latencies (count_result show t m) results
      ∙ ap (λ l. l ++ durations results) (count_result-latencies t m)
      ∙ append_assoc t.latencies (m.duration ∷ []) (durations results)

  tally-count_of :
      (reason : String) (t : Totals) (results : List Measured)
      → count_of reason (tally show t results).failure_reasons
        ≡ count_of reason t.failure_reasons + occurrences reason results
  unfolding tally count_result
  tally-count_of reason t [] = omega arith
  tally-count_of reason t (m ∷ results) = ground (
    arith,
    tally-count_of reason (count_result show t m) results,
    count_of-increment_count reason (failure_reason show m) t.failure_reasons,
  )

  tally-total :
      (t : Totals) (results : List Measured)
      → (tally show t results).successful + total (tally show t results).failure_reasons
        ≡ t.successful + total t.failure_reasons + length results
  unfolding tally count_result
  tally-total t [] = omega arith
  tally-total t (m ∷ results) = ground (
    arith,
    tally-total (count_result show t m) results,
    total-increment_count (failure_reason show m) t.failure_reasons,
  )

  successes-perm : {l l' : List Measured} → Permᴰ l l' → successes l ≡ successes l'
  successes-perm Permᴰ.nil = refl
  successes-perm (Permᴰ.cons {a} {b} e d) =
      rw e (ap (λ n. (if is_successful b then 1 else 0) + n) (successes-perm d))
  successes-perm (Permᴰ.swap e e') = rw (e, e') (omega arith)
  successes-perm (Permᴰ.trans d d') = successes-perm d ∙ successes-perm d'

  occurrences-perm :
      (reason : String) {l l' : List Measured}
      → Permᴰ l l'
      → occurrences reason l ≡ occurrences reason l'
  occurrences-perm reason Permᴰ.nil = refl
  occurrences-perm reason (Permᴰ.cons e d) = rw e (omega (arith, occurrences-perm reason d))
  occurrences-perm reason (Permᴰ.swap e e') = rw (e, e') (omega arith)
  occurrences-perm reason (Permᴰ.trans d d') =
      occurrences-perm reason d ∙ occurrences-perm reason d'

  sorted-perm : {l l' : List Measured} → Permᴰ l l' → sort (durations l) ≡ sort (durations l')
  unfolding sort
  sorted-perm Permᴰ.nil = refl
  sorted-perm (Permᴰ.cons {b = b} e d) = rw e (ap (insert_sorted b.duration) (sorted-perm d))
  sorted-perm (Permᴰ.swap {a' = a'} {b' = b'} {l = l} e e') =
      rw (e, e') (insert_sorted_comm b'.duration a'.duration (sort (durations l)))
  sorted-perm (Permᴰ.trans d d') = sorted-perm d ∙ sorted-perm d'

  -- the report that has those successes and those latencies
  abbrev report_of : (Percentile → ℕ → ℕ) → Options → ℤ → ℕ → List ℕ → Summary
  report_of index o elapsed successful sorted =
      record (without_reasons (summarize show index o elapsed [])) {
        successful = successful;
        failed = o.requests -ℤ pos successful;
        percentiles = percentile index sorted;
      }

  SameReport-summarize :
      (index : Percentile → ℕ → ℕ) (o : Options) (elapsed : ℤ) (l l' : List Measured)
      → (successes l ≡ successes l')
      → (sort (durations l) ≡ sort (durations l'))
      → ((reason : String) → occurrences reason l ≡ occurrences reason l')
      → SameReport (summarize show index o elapsed l) (summarize show index o elapsed l')
  unfolding summarize
  SameReport-summarize index o elapsed l l' same_successes same_order same_reasons =
      let same : (tally show no_totals l).successful ≡ (tally show no_totals l').successful =
        omega
          (arith, tally-successful no_totals l, same_successes, tally-successful no_totals l') in
      let sorted =
        ap sort (tally-latencies no_totals l)
        ∙ same_order
        ∙ ap sort (sym (tally-latencies no_totals l')) in
      (
        ap (λ n. report_of index o elapsed n (sort (tally show no_totals l).latencies)) same
            ∙ ap (report_of index o elapsed (tally show no_totals l').successful) sorted,
        λ reason. omega (
          arith,
          tally-count_of reason no_totals l,
          same_reasons reason,
          tally-count_of reason no_totals l',
        ),
      )

  -- The report of a benchmark is the same in whatever order the results of the workers arrive, but for the
  -- sample of an error and the order of the reasons, and its successes and its failures by reason are as many as the results.
  pub summarize-perm :
      (index : Percentile → ℕ → ℕ) (o : Options) (elapsed : ℤ) {results results' : List Measured}
      → Perm results results'
      → SameReport
          (summarize show index o elapsed results)
          (summarize show index o elapsed results')
        × ((summarize show index o elapsed results).successful
              + total (summarize show index o elapsed results).failure_reasons
            ≡ length results)
  unfolding summarize
  summarize-perm index o elapsed {results} {results'} p = (
    SameReport-summarize index o elapsed results results' (∥∥₁_elim p (hlevel) successes-perm)
        (∥∥₁_elim p (hlevel) sorted-perm) (λ reason. ∥∥₁_elim p (hlevel) (occurrences-perm reason)),
    omega (arith, tally-total no_totals results),
  )
