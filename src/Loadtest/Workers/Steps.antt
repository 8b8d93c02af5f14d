-- ===== src/Loadtest/Workers/Steps.antt =====
-- The steps of the goroutines of `benchmark` (cmd/loadtest/main.go) as a relation, with what each step waits for.
use ledger_service.Prelude.{
  ℕ, zero, suc, ◌<◌, ◌≡◌, refl, ltb, ◌==◌, Bool, true, false, Bool-cases, inl, inr, Option, some,
  List, [], ◌∷◌, ◌++◌, get_elem?, set, sum_by, length, arith, String, subst, ==_iff,
}
use ledger_service.Loadtest.Workers.{
  Worker, idle, executing, sending, gone, Producer, feeding, waiting, closed, Pool, Move, hands_out,
  sends, leaves, executes, closes_jobs, closes_results, receives, ends, is_gone, with_worker, step,
  hand_out, close_jobs, send_result, leave, close_results, receive, end_loop, finish_execute,
}
use ledger_service.Loadtest.{Measured, Exchange, measured}

-- a step that the pool can take, and the pool behind it
pub data Steps (show : ℕ → String) (capacity : ℕ) (p : Pool) : Move → Pool → Type 0 where
  handed :
      (i n : ℕ)
      → p.producer ≡ feeding (suc n)
      → get_elem? p.workers i ≡ some idle
      → Steps show capacity p
          (hands_out i)
          (record p { producer = feeding n; workers = set p.workers i executing })
  jobs_closed :
      p.producer ≡ feeding zero
      → Steps show capacity p closes_jobs (record p { producer = waiting })
  executed_one :
      (i : ℕ) (x : Exchange)
      → get_elem? p.workers i ≡ some executing
      → Steps show capacity p (executes i x) (with_worker p i (sending (measured show x)))
  sent :
      (i : ℕ) (m : Measured)
      → get_elem? p.workers i ≡ some (sending m)
      → length p.results < capacity
      → Steps show capacity p
          (sends i)
          (record p { workers = set p.workers i idle; results = p.results ++ m ∷ [] })
  left_waiting :
      (i : ℕ)
      → p.producer ≡ waiting
      → get_elem? p.workers i ≡ some idle
      → Steps show capacity p (leaves i) (with_worker p i gone)
  left_closed :
      (i : ℕ)
      → p.producer ≡ closed
      → get_elem? p.workers i ≡ some idle
      → Steps show capacity p (leaves i) (with_worker p i gone)
  results_closed :
      p.producer ≡ waiting
      → sum_by is_gone p.workers ≡ length p.workers
      → Steps show capacity p closes_results (record p { producer = closed })
  received_one :
      (m : Measured) (rest : List Measured)
      → p.results ≡ m ∷ rest
      → Steps show capacity p receives
          (record p { results = rest; received = p.received ++ m ∷ [] })
  loop_ended :
      p.producer ≡ closed
      → p.results ≡ []
      → p.ended ≡ false
      → Steps show capacity p ends (record p { ended = true })

module _ (show : ℕ → String) (capacity : ℕ) (p : Pool) where
  Steps-some :
      {m : Move} {q p' : Pool}
      → Steps show capacity p m q
      → ◌≡◌ {A = Option Pool} (some q) (some p')
      → Steps show capacity p m p'
  Steps-some {m} {q} {p'} taken h = let e : q ≡ p' = cc in subst (Steps show capacity p m) e taken

  module _ {p' : Pool} where
    hand_out-Steps :
        (i : ℕ) (producer : Producer) (w : Option Worker)
        → p.producer ≡ producer
        → get_elem? p.workers i ≡ w
        → hand_out p i producer w ≡ some p'
        → Steps show capacity p (hands_out i) p'
    unfolding hand_out
    hand_out-Steps i (feeding (suc n)) (some idle) e f h = Steps-some (handed i n e f) h
    hand_out-Steps i _ _ e f h = cc

    close_jobs-Steps :
        (producer : Producer)
        → p.producer ≡ producer
        → close_jobs p producer ≡ some p'
        → Steps show capacity p closes_jobs p'
    unfolding close_jobs
    close_jobs-Steps (feeding zero) e h = Steps-some (jobs_closed e) h
    close_jobs-Steps _ e h = cc

    finish_execute-Steps :
        (i : ℕ) (x : Exchange) (w : Option Worker)
        → get_elem? p.workers i ≡ w
        → finish_execute show p i x w ≡ some p'
        → Steps show capacity p (executes i x) p'
    unfolding finish_execute
    finish_execute-Steps i x (some executing) f h = Steps-some (executed_one i x f) h
    finish_execute-Steps i x _ f h = cc

    send_result-Steps :
        (i : ℕ) (w : Option Worker)
        → get_elem? p.workers i ≡ w
        → send_result capacity p i w ≡ some p'
        → Steps show capacity p (sends i) p'
    unfolding send_result
    send_result-Steps i (some (sending m)) f h =
        elim (Bool-cases (ltb (length p.results) capacity)) [
          | inl free ↦ Steps-some (sent i m f (ground arith)) (rw free at h)
          | inr full ↦ let h' = (rw full at h) in cc
        ]
    send_result-Steps i _ f h = cc

    leave-Steps :
        (i : ℕ) (producer : Producer) (w : Option Worker)
        → p.producer ≡ producer
        → get_elem? p.workers i ≡ w
        → leave p i producer w ≡ some p'
        → Steps show capacity p (leaves i) p'
    unfolding leave
    leave-Steps i waiting (some idle) e f h = Steps-some (left_waiting i e f) h
    leave-Steps i closed (some idle) e f h = Steps-some (left_closed i e f) h
    leave-Steps i _ _ e f h = cc

    close_results-Steps :
        (producer : Producer)
        → p.producer ≡ producer
        → close_results p producer ≡ some p'
        → Steps show capacity p closes_results p'
    unfolding close_results
    close_results-Steps waiting e h =
        elim (Bool-cases (sum_by is_gone p.workers == length p.workers)) [
          | inl all ↦ Steps-some (results_closed e ((==_iff _ _).0 all)) (rw all at h)
          | inr some_left ↦ let h' = (rw some_left at h) in cc
        ]
    close_results-Steps _ e h = cc

    receive-Steps :
        (results : List Measured)
        → p.results ≡ results
        → receive p results ≡ some p'
        → Steps show capacity p receives p'
    unfolding receive
    receive-Steps (m ∷ rest) e h = Steps-some (received_one m rest e) h
    receive-Steps [] e h = cc

    end_loop-Steps :
        (producer : Producer) (results : List Measured) (ended : Bool)
        → p.producer ≡ producer
        → p.results ≡ results
        → p.ended ≡ ended
        → end_loop p producer results ended ≡ some p'
        → Steps show capacity p ends p'
    unfolding end_loop
    end_loop-Steps closed [] false e f g h = Steps-some (loop_ended e f g) h
    end_loop-Steps _ _ _ e f g h = cc

    -- every step that the pool takes is one of the relation
    pub step-Steps : (m : Move) → step show capacity p m ≡ some p' → Steps show capacity p m p'
    unfolding step
    step-Steps (hands_out i) h = hand_out-Steps i p.producer (get_elem? p.workers i) refl refl h
    step-Steps (sends i) h = send_result-Steps i (get_elem? p.workers i) refl h
    step-Steps (leaves i) h = leave-Steps i p.producer (get_elem? p.workers i) refl refl h
    step-Steps (executes i x) h = finish_execute-Steps i x (get_elem? p.workers i) refl h
    step-Steps closes_jobs h = close_jobs-Steps p.producer refl h
    step-Steps closes_results h = close_results-Steps p.producer refl h
    step-Steps receives h = receive-Steps p.results refl h
    step-Steps ends h = end_loop-Steps p.producer p.results p.ended refl refl refl h

  -- the pool takes every step of the relation
  pub Steps-step :
      {m : Move} {p' : Pool} → Steps show capacity p m p' → step show capacity p m ≡ some p'
  unfolding step
  Steps-step (handed i n e f) = rw (e, f) refl
  Steps-step (jobs_closed e) = rw e refl
  Steps-step (executed_one i x f) = rw f refl
  Steps-step (sent i m f free) = rw f (ground arith)
  Steps-step (left_waiting i e f) = rw (e, f) refl
  Steps-step (left_closed i e f) = rw (e, f) refl
  Steps-step (results_closed e all) = rw (e, all) (ground arith)
  Steps-step (received_one m rest e) = rw e refl
  Steps-step (loop_ended e f g) = rw (e, f, g) refl
