-- ===== src/Loadtest/Workers/Invariant.antt =====
-- The invariant of the goroutines of `benchmark` (cmd/loadtest/main.go): where the results and the jobs are.
use mathlib.Core.List.Perm
use mathlib.Core.List.{Perm, append_assoc, perm_middle, perm_append_comm}
use ledger_service.Prelude.{
  ℕ, zero, suc, ◌+◌, ◌*◌, ◌≤◌, ◌≡◌, refl, Bool, true, false, some, List, [], ◌∷◌, ◌++◌, get_elem?,
  set, sum_by, sum_by-set, sum_by-le, length, arith,
}
use ledger_service.Loadtest.Workers.{
  Worker, idle, executing, sending, gone, Producer, feeding, waiting, closed, Pool, is_gone,
}
use ledger_service.Loadtest.{Measured}

-- the jobs that the producer has left, and the workers in `execute` and in their loops
abbrev pub jobs_left : Producer → ℕ
jobs_left (feeding n) = n
jobs_left _ = 0

abbrev pub is_executing : Worker → ℕ
is_executing executing = 1
is_executing _ = 0

abbrev pub is_here : Worker → ℕ
is_here gone = 0
is_here _ = 1

-- the steps left to the producer, to a worker, and to the pool
abbrev pub producer_left : Producer → ℕ
producer_left (feeding n) = 4 * n + 2
producer_left waiting = 1
producer_left closed = 0

abbrev pub worker_left : Worker → ℕ
worker_left idle = 1
worker_left executing = 4
worker_left (sending _) = 3
worker_left gone = 0

abbrev pub loop_left : Bool → ℕ
loop_left true = 0
loop_left false = 1

abbrev pub steps_left : Pool → ℕ
steps_left p =
    producer_left p.producer + sum_by worker_left p.workers + length p.results + loop_left p.ended

-- the results at the sends of the workers
abbrev pub held_by : Worker → List Measured
held_by (sending m) = m ∷ []
held_by _ = []

abbrev pub held : List Worker → List Measured
held [] = []
held (w ∷ workers) = held_by w ++ held workers

-- No worker leaves before `jobs` is closed, and none is left when `results` is.
abbrev pub Staffed : Producer → List Worker → Type 0
Staffed (feeding _) workers = sum_by is_gone workers ≡ 0
Staffed waiting workers = Unit {0}
Staffed closed workers = sum_by is_here workers ≡ 0

-- `completed` has the results of the calls of `execute` that have returned.
pub record IsRunning (requests capacity steps : ℕ) (completed : List Measured) (p : Pool)
    : Type 0 where
  pub counted : jobs_left p.producer + sum_by is_executing p.workers + length completed ≡ requests
  pub accounted : Perm completed (p.received ++ (p.results ++ held p.workers))
  pub staffed : Staffed p.producer p.workers
  pub sized : length p.workers ≡ capacity
  pub bounded : length p.results ≤ capacity
  pub left : steps + steps_left p ≡ 4 * requests + capacity + 3
  pub at_end : p.ended ≡ true → (p.producer ≡ closed) × (p.results ≡ [])

swap_front : (xs ys zs : List Measured) → Perm (xs ++ (ys ++ zs)) (ys ++ (xs ++ zs))
swap_front xs ys zs =
    rw (← append_assoc xs ys zs, ← append_assoc ys xs zs)
      (Perm.append_right zs (perm_append_comm xs ys))

pub held-set :
    (workers : List Worker) (i : ℕ) (y : Worker) {w : Worker}
    → get_elem? workers i ≡ some w
    → Perm (held_by y ++ held workers) (held_by w ++ held (set workers i y))
held-set [] i y h = cc
held-set (z ∷ workers) zero y {w} h =
    let e : z ≡ w = cc in rw e (swap_front (held_by y) (held_by w) (held workers))
held-set (z ∷ workers) (suc i) y {w} h =
    Perm.trans (swap_front (held_by y) (held_by z) (held workers)) (
      Perm.trans (Perm.append_left (held_by z) (held-set workers i y h))
        (swap_front (held_by z) (held_by w) (held (set workers i y))))

pub Perm-front :
    (m : Measured) (xs ys zs : List Measured) → Perm (m ∷ (xs ++ (ys ++ zs))) (xs ++ (ys ++ m ∷ zs))
Perm-front m xs ys zs =
    rw (← append_assoc xs ys zs, ← append_assoc xs ys (m ∷ zs))
      (Perm.symm (perm_middle (xs ++ ys) zs))

pub sum_by-is_here :
    (workers : List Worker) → sum_by is_gone workers + sum_by is_here workers ≡ length workers
sum_by-is_here [] = refl
sum_by-is_here (w ∷ workers) = let rest = sum_by-is_here workers in ground arith

-- a worker that stays in its loop leaves the staff as it is
pub Staffed-set :
    (producer : Producer) (workers : List Worker) (i : ℕ) (y : Worker) {w : Worker}
    → get_elem? workers i ≡ some w
    → is_here w ≡ 1
    → is_gone y ≡ 0
    → Staffed producer workers
    → Staffed producer (set workers i y)
Staffed-set (feeding n) workers i y h j k s = omega (arith, sum_by-set is_gone workers i y h)
Staffed-set waiting workers i y h j k s = tt
Staffed-set closed workers i y h j k s = absurd (omega (arith, sum_by-le is_here workers i h))
