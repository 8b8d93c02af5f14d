-- ===== src/Loadtest/Workers/Kept.antt =====
-- The steps of the goroutines of `benchmark` (cmd/loadtest/main.go) and the invariant.
use mathlib.Core.List.Perm
use mathlib.Core.List.{append-nil, append_assoc, perm_append_singleton, Perm}
use ledger_service.Prelude.{
  ℕ, suc, ◌<◌, ◌≡◌, refl, sym, ap, ◌∙◌, subst, some, List, [], ◌∷◌, ◌++◌, get_elem?, set,
  sum_by-set, sum_by-le, length, length-append, length-set, arith, String,
}
use ledger_service.Loadtest.Workers.Invariant.{
  jobs_left, is_executing, is_here, producer_left, worker_left, loop_left, held, Staffed, IsRunning,
  held-set, Perm-front, sum_by-is_here, Staffed-set,
}
use ledger_service.Loadtest.Workers.Steps.{
  Steps, handed, jobs_closed, executed_one, sent, left_waiting, left_closed, results_closed,
  received_one, loop_ended,
}
use ledger_service.Loadtest.Workers.{
  Worker, idle, executing, sending, gone, feeding, waiting, closed, Pool, Move, with_worker,
  result_of,
}
use ledger_service.Loadtest.{Measured, Exchange, measured}

module _ {requests capacity steps : ℕ} {completed : List Measured} {p : Pool}
    (r : IsRunning requests capacity steps completed p) where
  -- a worker in its loop keeps the receiving loop going
  not-ended :
      (i : ℕ) {w : Worker}
      → get_elem? p.workers i ≡ some w
      → is_here w ≡ 1
      → p.producer ≡ closed
      → {A : Type 0} → A
  not-ended i h j e =
      let staff = subst (λ q. Staffed q p.workers) e r.staffed in
      absurd (omega (arith, sum_by-le is_here p.workers i h, staff))

  hand_out-IsRunning :
      (i n : ℕ)
      → p.producer ≡ feeding (suc n)
      → get_elem? p.workers i ≡ some idle
      → IsRunning requests capacity
          (suc steps)
          completed
          (record p { producer = feeding n; workers = set p.workers i executing })
  hand_out-IsRunning i n e h =
      let c = sum_by-set is_executing p.workers i executing h in
      let l = sum_by-set worker_left p.workers i executing h in
      record {
        counted = omega (arith, r.counted, ap jobs_left e, c);
        accounted = Perm.trans r.accounted (
            Perm.append_left p.received
              (Perm.append_left p.results (held-set p.workers i executing h)));
        staffed =
            Staffed-set (feeding (suc n)) p.workers i executing h refl refl
              (subst (λ q. Staffed q p.workers) e r.staffed);
        sized = length-set p.workers i executing ∙ r.sized;
        bounded = r.bounded;
        left = omega (arith, r.left, ap producer_left e, l);
        at_end = λ ended. not-ended i h refl (r.at_end ended).0;
      }

  finish_execute-IsRunning :
      (show : ℕ → String) (i : ℕ) (x : Exchange)
      → get_elem? p.workers i ≡ some executing
      → IsRunning requests capacity
          (suc steps)
          (completed ++ measured show x ∷ [])
          (with_worker p i (sending (measured show x)))
  finish_execute-IsRunning show i x h =
      let m = measured show x in
      let c = sum_by-set is_executing p.workers i (sending m) h in
      let l = sum_by-set worker_left p.workers i (sending m) h in
      record {
        counted = omega (arith, r.counted, length-append completed (m ∷ []), c);
        accounted = Perm.trans (perm_append_singleton m completed) (
            Perm.trans (Perm.cons m r.accounted) (
              Perm.trans (Perm-front m p.received p.results (held p.workers)) (
                Perm.append_left p.received
                  (Perm.append_left p.results (held-set p.workers i (sending m) h)))));
        staffed = Staffed-set p.producer p.workers i (sending m) h refl refl r.staffed;
        sized = length-set p.workers i (sending m) ∙ r.sized;
        bounded = r.bounded;
        left = omega (arith, r.left, l);
        at_end = r.at_end;
      }

  send_result-IsRunning :
      (i : ℕ) (m : Measured)
      → get_elem? p.workers i ≡ some (sending m)
      → length p.results < capacity
      → IsRunning requests capacity
          (suc steps)
          completed
          (record p { workers = set p.workers i idle; results = p.results ++ m ∷ [] })
  send_result-IsRunning i m h free =
      let c = sum_by-set is_executing p.workers i idle h in
      let l = sum_by-set worker_left p.workers i idle h in
      record {
        counted = omega (arith, r.counted, c);
        accounted = rw (append_assoc p.results (m ∷ []) (held (set p.workers i idle))) (
            Perm.trans r.accounted (
              Perm.append_left p.received
                (Perm.append_left p.results (held-set p.workers i idle h))));
        staffed = Staffed-set p.producer p.workers i idle h refl refl r.staffed;
        sized = length-set p.workers i idle ∙ r.sized;
        bounded = omega (arith, length-append p.results (m ∷ []));
        left = omega (arith, r.left, l, length-append p.results (m ∷ []));
        at_end = λ ended. not-ended i h refl (r.at_end ended).0;
      }

  leave-IsRunning :
      (i : ℕ)
      → p.producer ≡ waiting
      → get_elem? p.workers i ≡ some idle
      → IsRunning requests capacity (suc steps) completed (with_worker p i gone)
  leave-IsRunning i e h =
      let c = sum_by-set is_executing p.workers i gone h in
      let l = sum_by-set worker_left p.workers i gone h in
      record {
        counted = omega (arith, r.counted, c);
        accounted = Perm.trans r.accounted (
            Perm.append_left p.received (Perm.append_left p.results (held-set p.workers i gone h)));
        staffed = subst (λ q. Staffed q (set p.workers i gone)) (sym e) tt;
        sized = length-set p.workers i gone ∙ r.sized;
        bounded = r.bounded;
        left = omega (arith, r.left, l);
        at_end = r.at_end;
      }

  -- every step keeps all of it
  pub Steps-IsRunning :
      (show : ℕ → String) {m : Move} {p' : Pool}
      → Steps show capacity p m p'
      → IsRunning requests capacity (suc steps) (completed ++ result_of show m) p'
  Steps-IsRunning show (handed i n e h) = rw append-nil (hand_out-IsRunning i n e h)
  Steps-IsRunning show (jobs_closed e) = rw append-nil (record {
    counted = omega (arith, r.counted, ap jobs_left e);
    accounted = r.accounted;
    staffed = tt;
    sized = r.sized;
    bounded = r.bounded;
    left = omega (arith, r.left, ap producer_left e);
    at_end = λ ended. let closed_too = (r.at_end ended).0 in cc;
  })
  Steps-IsRunning show (executed_one i x h) = finish_execute-IsRunning show i x h
  Steps-IsRunning show (sent i m h free) = rw append-nil (send_result-IsRunning i m h free)
  Steps-IsRunning show (left_waiting i e h) = rw append-nil (leave-IsRunning i e h)
  Steps-IsRunning show (left_closed i e h) = not-ended i h refl e
  Steps-IsRunning show (results_closed e all) = rw append-nil (record {
    counted = omega (arith, r.counted, ap jobs_left e);
    accounted = r.accounted;
    staffed = omega (arith, all, sum_by-is_here p.workers);
    sized = r.sized;
    bounded = r.bounded;
    left = omega (arith, r.left, ap producer_left e);
    at_end = λ ended. (refl, (r.at_end ended).1);
  })
  Steps-IsRunning show (received_one m rest e) = rw append-nil (record {
    counted = r.counted;
    accounted =
        rw (append_assoc p.received (m ∷ []) (rest ++ held p.workers))
          (subst (λ xs. Perm completed (p.received ++ (xs ++ held p.workers))) e r.accounted);
    staffed = r.staffed;
    sized = r.sized;
    bounded = omega (arith, r.bounded, ap length e);
    left = omega (arith, r.left, ap length e);
    at_end = λ ended. let none_left = (r.at_end ended).1 in cc;
  })
  Steps-IsRunning show (loop_ended e f g) = rw append-nil (record {
    counted = r.counted;
    accounted = r.accounted;
    staffed = r.staffed;
    sized = r.sized;
    bounded = r.bounded;
    left = omega (arith, r.left, ap loop_left g);
    at_end = λ _. (e, f);
  })
