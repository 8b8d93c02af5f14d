-- ===== src/Http/Admission/Invariant.antt =====
-- Admission keeps its bound, its channel and its gauge (internal/httpapi/admission.go).
use ledger_service.Prelude.{
  ℕ, ◌+◌, ◌≤◌, ◌<◌, ◌≡◌, ◌↔◌, refl, Bool, true, false, ltb, some, List, [], ◌∷◌, get_elem?, set,
  sum_by, sum_by-set, sum_by-le, arith, Bool-cases, inl, inr,
}
use ledger_service.Http.Admission.{
  Phase, arrived, holding, running, released, finished, rejected, Shared, advance, is_open, Reach,
  start, arrives, advances, holds_slot, is_counted, is_running,
}

sum_by-running : (xs : List Phase) → sum_by is_running xs ≤ sum_by holds_slot xs
sum_by-running [] = omega arith
sum_by-running (x ∷ xs) = let rest = sum_by-running xs in ground arith

record IsConsistent (limit : ℕ) (requests : List Phase) (σ : Shared) : Type 0 where
  slots : σ.slots ≡ sum_by holds_slot requests
  counted : σ.in_flight ≡ sum_by is_counted requests
  bounded : σ.slots ≤ limit

-- what a step changes is the same in the request and in the shared state
advance-counts :
    (limit : ℕ) (ready : Bool) (phase : Phase) (σ : Shared)
    → is_open phase ≡ true
    → σ.slots ≤ limit
    → holds_slot phase ≤ σ.slots
    → is_counted phase ≤ σ.in_flight
    → let (phase', σ') = advance limit ready phase σ in
      (σ'.slots + holds_slot phase ≡ σ.slots + holds_slot phase')
      × (σ'.in_flight + is_counted phase ≡ σ.in_flight + is_counted phase')
      × (σ'.slots ≤ limit)
unfolding advance
advance-counts limit true arrived σ unfinished bounded slot counted = ground arith
advance-counts limit false arrived σ unfinished bounded slot counted = (refl, refl, bounded)
advance-counts limit ready holding σ unfinished bounded slot counted = (refl, omega arith, bounded)
advance-counts limit ready running σ unfinished bounded slot counted =
    (omega arith, refl, omega arith)
advance-counts limit ready released σ unfinished bounded slot counted = (refl, omega arith, bounded)
advance-counts limit ready finished σ unfinished bounded slot counted = cc
advance-counts limit ready rejected σ unfinished bounded slot counted = cc

advances-IsConsistent :
    {limit : ℕ} {requests : List Phase} {σ : Shared} {phase : Phase} (i : ℕ) (ready : Bool)
    → IsConsistent limit requests σ
    → get_elem? requests i ≡ some phase
    → is_open phase ≡ true
    → IsConsistent limit
        (set requests i (advance limit ready phase σ).0)
        (advance limit ready phase σ).1
advances-IsConsistent {limit} {requests = requests} {σ = σ} {phase} i ready c found unfinished =
    let next = (advance limit ready phase σ).0 in
    let slot = sum_by-le holds_slot requests i found in
    let gauge = sum_by-le is_counted requests i found in
    let (slots, counted, bounded) =
      advance-counts limit ready phase σ unfinished c.bounded (omega (arith, c.slots))
        (omega (arith, c.counted)) in
    record {
      slots = omega (arith, slots, c.slots, slot, sum_by-set holds_slot requests i next found);
      counted =
          omega (arith, counted, c.counted, gauge, sum_by-set is_counted requests i next found);
      bounded = bounded;
    }

Reach-IsConsistent :
    {limit arrivals steps : ℕ} {requests : List Phase} {σ : Shared}
    → Reach limit arrivals steps requests σ
    → IsConsistent limit requests σ
Reach-IsConsistent start = record { slots = refl; counted = refl; bounded = omega arith }
Reach-IsConsistent (arrives r) =
    let c = Reach-IsConsistent r in
    record {
      slots = omega (arith, c.slots);
      counted = omega (arith, c.counted);
      bounded = c.bounded;
    }
Reach-IsConsistent (advances i ready r found unfinished e e') =
    rw (e, e') (advances-IsConsistent i ready (Reach-IsConsistent r) found unfinished)

-- In every interleaving of the requests at most `limit` of them are in the handler; the channel holds
-- one value for each request that has sent and not received, and the gauge counts those between
-- its two updates, so that neither leaks.
pub Reach-running_le :
    {limit arrivals steps : ℕ} {requests : List Phase} {σ : Shared}
    → Reach limit arrivals steps requests σ
    → (sum_by is_running requests ≤ limit)
      × (σ.slots ≡ sum_by holds_slot requests)
      × (σ.in_flight ≡ sum_by is_counted requests)
Reach-running_le {requests = requests} r =
    let c = Reach-IsConsistent r in
    (omega (arith, c.bounded, c.slots, sum_by-running requests), c.slots, c.counted)

advance-arrived_iff :
    (limit n : ℕ) (ready : Bool) (σ : Shared)
    → σ.slots ≡ n
    → ((advance limit ready arrived σ).0 ≡ holding) ↔ ((ready ≡ true) × (n < limit))
unfolding advance
advance-arrived_iff limit n false σ same = (λ h. cc, λ (h, _). cc)
advance-arrived_iff limit n true σ same = elim (Bool-cases (ltb σ.slots limit)) [
  | inl free ↦ (λ _. (refl, ground arith), λ _. rw free refl)
  | inr full ↦ (λ h. cc, λ (_, free). absurd (ground arith))
]

-- A request that arrives in a reachable state is admitted exactly when the ledger is ready and fewer
-- than `limit` requests hold a slot.
pub Reach-admitted_iff :
    {limit arrivals steps : ℕ} {requests : List Phase} {σ : Shared} (ready : Bool)
    → Reach limit arrivals steps requests σ
    → ((advance limit ready arrived σ).0 ≡ holding)
      ↔ ((ready ≡ true) × (sum_by holds_slot requests < limit))
Reach-admitted_iff {limit} {σ = σ} ready r =
    advance-arrived_iff limit _ ready σ (Reach-IsConsistent r).slots
