-- ===== src/Health/Readiness.antt =====
-- What `Health` reports of a watched state: readiness is about every call in flight.
use ledger_service.Prelude.{ℕ, ◌≤◌, ◌≡◌, ◌↔◌, inl, inr, true, some, [], ◌∷◌, arith, Bool-cases}
use ledger_service.Prelude.Int.{ℤ, pos, ltb_ℤ, ◌≤ℤ◌}
use ledger_service.Assoc.{Map, lookup}
use ledger_service.Clock.{is_zero, time_sub}
use ledger_service.Health.{ObservedLedger, health}
use ledger_service.Health.Invariant.{AllSince, IsWatched, active_of_zero}

-- Every call in flight is younger than the threshold at the time `now`.
abbrev pub AllYoung : ℤ → ℕ → Map ℕ → Type 0
AllYoung threshold now [] = Unit
AllYoung threshold now ((_, t) ∷ m) =
    (ltb_ℤ (time_sub now t) threshold ≡ true) × AllYoung threshold now m

time_sub_antitone : (now t u : ℕ) → u ≤ t → time_sub now t ≤ℤ time_sub now u
time_sub_antitone now t u h = ground arith

ltb_ℤ-mono : (a b c : ℤ) → a ≤ℤ b → ltb_ℤ b c ≡ true → ltb_ℤ a c ≡ true
ltb_ℤ-mono a b c h k = ground arith

young_of_oldest :
    (threshold : ℤ) (now s top : ℕ) (m : Map ℕ)
    → AllSince s top m
    → ltb_ℤ (time_sub now s) threshold ≡ true
    → AllYoung threshold now m
young_of_oldest threshold now s top [] a h = tt
young_of_oldest threshold now s top ((id, t) ∷ m) a h =
    let order : time_sub now t ≤ℤ time_sub now s = time_sub_antitone now t s a.0.1 in
    (
      ltb_ℤ-mono (time_sub now t) (time_sub now s) threshold order h,
      young_of_oldest threshold now s top m a.1 h,
    )

lookup-AllYoung :
    (threshold : ℤ) (now id t : ℕ) (m : Map ℕ)
    → AllYoung threshold now m
    → lookup id m ≡ some t
    → ltb_ℤ (time_sub now t) threshold ≡ true
unfolding lookup
lookup-AllYoung threshold now id t [] a h = cc
lookup-AllYoung threshold now id t (e ∷ m) a h =
    ground (arith, lookup-AllYoung threshold now id t m a.1)

-- With a positive threshold, and a record of the calls in flight whose oldest start is the right one,
-- the service is ready exactly when every call in flight is younger than the threshold.
pub health_ready_iff :
    (l : ObservedLedger) (now : ℕ)
    → IsWatched l
    → ltb_ℤ (pos 0) l.stall_threshold ≡ true
    → ((health l now).ready ≡ true) ↔ AllYoung l.stall_threshold now l.active
unfolding health
health_ready_iff l now w positive = (ready-AllYoung, AllYoung-ready)
  where
    open l use {stall_threshold, next_id, active, oldest_id, oldest_started}

    ready-AllYoung : (health l now).ready ≡ true → AllYoung stall_threshold now active
    ready-AllYoung h = elim (Bool-cases (is_zero oldest_started)) [
      | inl z ↦ rw (active_of_zero l w (ground arith)) tt
      | inr nz ↦
          young_of_oldest stall_threshold now oldest_started next_id active w.since (ground arith)
    ]

    AllYoung-ready : AllYoung stall_threshold now active → (health l now).ready ≡ true
    AllYoung-ready all = elim w.attained [
      | inl (_, z) ↦ ground arith
      | inr found ↦
          ground
            (arith, lookup-AllYoung stall_threshold now oldest_id oldest_started active all found)
    ]
