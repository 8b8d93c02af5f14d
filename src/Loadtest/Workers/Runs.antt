-- ===== src/Loadtest/Workers/Runs.antt =====
-- The runs of `benchmark` in cmd/loadtest/main.go, as steps that keep the invariant.
use mathlib.Core.List.Perm
use mathlib.Core.List.{append-nil, append_assoc}
use ledger_service.Prelude.{
  ℕ, zero, suc, ◌+◌, ◌≡◌, refl, subst, inl, inr, Option-cases, some, List, [], ◌∷◌, ◌++◌,
  sum_by-replicate, length, length-replicate, replicate, arith, String,
}
use ledger_service.Loadtest.Workers.Invariant.{is_executing, worker_left, held, IsRunning}
use ledger_service.Loadtest.Workers.Kept.{Steps-IsRunning}
use ledger_service.Loadtest.Workers.Steps.{step-Steps}
use ledger_service.Loadtest.Workers.{
  idle, Pool, new_pool, Move, is_gone, step, run, result_of, executed,
}
use ledger_service.Loadtest.{Measured}

held-idle : (n : ℕ) → held (replicate n idle) ≡ []
held-idle zero = refl
held-idle (suc n) = held-idle n

new_pool-IsRunning :
    (requests capacity : ℕ) → IsRunning requests capacity 0 [] (new_pool requests capacity)
unfolding new_pool
new_pool-IsRunning requests capacity = record {
  counted = omega (arith, sum_by-replicate is_executing capacity idle);
  accounted = rw (held-idle capacity) (Perm.refl []);
  staffed = omega (arith, sum_by-replicate is_gone capacity idle);
  sized = length-replicate capacity idle;
  bounded = omega arith;
  left = omega (arith, sum_by-replicate worker_left capacity idle);
  at_end = λ ended. cc;
}

module _ (show : ℕ → String) (requests capacity : ℕ) where
  run-IsRunning :
      (moves : List Move) {steps : ℕ} {completed : List Measured} {p p' : Pool}
      → IsRunning requests capacity steps completed p
      → run show capacity moves p ≡ some p'
      → IsRunning requests capacity (length moves + steps) (completed ++ executed show moves) p'
  unfolding run
  run-IsRunning [] {steps} {completed} r h =
      let e : 0 + steps ≡ steps = omega arith in
      rw (append-nil completed, e) (subst (IsRunning requests capacity steps completed) (cc) r)
  run-IsRunning (m ∷ moves) {steps} {completed} {p} r h =
      elim (Option-cases (step show capacity p m)) [
        | inl stuck ↦ let h' = (rw (stuck, run) at h) in cc
        | inr (q, taken) ↦
            let e : suc (length moves) + steps ≡ length moves + suc steps = omega arith in
            rw (e, ← append_assoc completed (result_of show m) (executed show moves))
              (run-IsRunning moves (Steps-IsRunning r show (step-Steps show capacity p m taken))
                (rw (taken, run) at h))
      ]

  pub start-IsRunning :
      (moves : List Move) {p : Pool}
      → run show capacity moves (new_pool requests capacity) ≡ some p
      → IsRunning requests capacity (length moves + 0) (executed show moves) p
  start-IsRunning moves h = run-IsRunning moves (new_pool-IsRunning requests capacity) h
