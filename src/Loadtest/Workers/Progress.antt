-- ===== src/Loadtest/Workers/Progress.antt =====
-- The steps that the goroutines of `benchmark` in cmd/loadtest/main.go can take.
use ledger_service.Prelude.{
  ℕ, zero, suc, ◌<◌, ◌≡◌, ◌≢◌, ltb, ◌==◌, ==_iff, refl, subst, false, Bool-cases, inl, inr, some,
  List, [], ◌∷◌, get_elem?, get_elem?-lt_length, sum_by, sum_by-le, length, arith, String,
}
use ledger_service.Loadtest.Workers.Invariant.{is_here, Staffed, IsRunning}
use ledger_service.Loadtest.Workers.Runs.{start-IsRunning}
use ledger_service.Loadtest.Workers.Steps.{
  Steps, handed, jobs_closed, executed_one, sent, left_waiting, results_closed, received_one,
  loop_ended, Steps-step,
}
use ledger_service.Loadtest.Workers.{
  Worker, idle, executing, sending, gone, Producer, feeding, waiting, closed, Pool, new_pool, Move,
  is_gone, step, run,
}
use ledger_service.Loadtest.{Measured, unsent}

-- a step that the pool can take
abbrev pub CanStep : (ℕ → String) → ℕ → Pool → Type 0
CanStep show capacity p = (m : Move) × (p' : Pool) × (step show capacity p m ≡ some p')

find_here :
    (workers : List Worker)
    → sum_by is_gone workers ≢ length workers
    → (i : ℕ) × (w : Worker) × (get_elem? workers i ≡ some w) × (is_here w ≡ 1)
find_here [] h = absurd (h refl)
find_here (gone ∷ workers) h =
    let (i, w, found, here) = find_here workers (λ e. h (omega (arith, e))) in
    (suc i, w, found, here)
find_here (idle ∷ workers) h = (0, idle, refl, refl)
find_here (executing ∷ workers) h = (0, executing, refl, refl)
find_here (sending m ∷ workers) h = (0, sending m, refl, refl)

here_or_gone : (w : Worker) → is_gone w ≡ 0 → is_here w ≡ 1
here_or_gone gone h = absurd (omega arith)
here_or_gone _ h = refl

module _ (show : ℕ → String) (capacity : ℕ) (some_capacity : 0 < capacity) (p : Pool) where
  taken : {m : Move} {p' : Pool} → Steps show capacity p m p' → CanStep show capacity p
  taken {m} {p'} s = (m, p', Steps-step show capacity p s)

  receives-CanStep :
      (results : List Measured) → p.results ≡ results → 0 < length results → CanStep show capacity p
  receives-CanStep [] e h = absurd (omega arith)
  receives-CanStep (m ∷ rest) e h = taken (received_one m rest e)

  -- a worker in its loop can step, if one that waits for a job can; where `results` is full, the receiving loop can
  worker-CanStep :
      (i : ℕ) (w : Worker)
      → get_elem? p.workers i ≡ some w
      → is_here w ≡ 1
      → (get_elem? p.workers i ≡ some idle → CanStep show capacity p)
      → CanStep show capacity p
  worker-CanStep i idle found here waits = waits found
  worker-CanStep i executing found here waits = taken (executed_one i (unsent "") found)
  worker-CanStep i gone found here waits = absurd (omega arith)
  worker-CanStep i (sending m) found here waits =
      elim (Bool-cases (ltb (length p.results) capacity)) [
        | inl free ↦ taken (sent i m found (ground arith))
        | inr full ↦ receives-CanStep p.results refl (ground arith)
      ]

  module _ {requests steps : ℕ} {completed : List Measured}
      (r : IsRunning requests capacity steps completed p) (going : p.ended ≡ false) where
    producer-CanStep : (producer : Producer) → p.producer ≡ producer → CanStep show capacity p
    producer-CanStep (feeding zero) e = taken (jobs_closed e)
    producer-CanStep (feeding (suc n)) e =
        let (w, found) = get_elem?-lt_length p.workers 0 (omega (arith, r.sized)) in
        let staff = subst (λ q. Staffed q p.workers) e r.staffed in
        worker-CanStep 0 w found
          (here_or_gone w (omega (arith, sum_by-le is_gone p.workers 0 found, staff)))
          (λ waits. taken (handed 0 n e waits))
    producer-CanStep waiting e = elim (Bool-cases (sum_by is_gone p.workers == length p.workers)) [
      | inl all ↦ taken (results_closed e ((==_iff _ _).0 all))
      | inr some_left ↦
          let (i, w, found, here) = find_here p.workers (ground arith) in
          worker-CanStep i w found here (λ waits. taken (left_waiting i e waits))
    ]
    producer-CanStep closed e = results-CanStep p.results refl
      where
        results-CanStep : (results : List Measured) → p.results ≡ results → CanStep show capacity p
        results-CanStep [] f = taken (loop_ended e f going)
        results-CanStep (m ∷ rest) f = taken (received_one m rest f)

-- While the receiving loop is not left, some goroutine of `benchmark` can step: with at least one worker it never
-- deadlocks.
pub run-CanStep :
    (show : ℕ → String) (requests capacity : ℕ) (moves : List Move) {p : Pool}
    → 0 < capacity
    → run show capacity moves (new_pool requests capacity) ≡ some p
    → p.ended ≡ false
    → CanStep show capacity p
run-CanStep show requests capacity moves {p} some_capacity h going =
    producer-CanStep show capacity some_capacity p (start-IsRunning show requests capacity moves h)
      going p.producer refl
