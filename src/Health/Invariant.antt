-- ===== src/Health/Invariant.antt =====
-- The invariant of the calls in flight: the recorded start is the earliest of them, and a call of
-- that start is the recorded one.
use ledger_service.Prelude.{
  ℕ, ◌+◌, ◌%◌, ◌^◌, ◌≤◌, ◌<◌, ◌≡◌, ◌≢◌, ◌⊎◌, inl, inr, refl, Bool, true, false, none, some, [], ◌∷◌,
  arith, ◌==◌, Bool-cases, ltb, ◌||◌, if◌then◌else◌,
}
use ledger_service.Prelude.Int.{ℤ}
use ledger_service.Assoc.{
  Map, lookup, insert, erase, IsMap, erase-nil, lookup-insert, lookup-erase, insert-IsMap,
  erase-IsMap,
}
use ledger_service.Clock.{is_zero}
use ledger_service.Health.{ObservedLedger, new_observed_ledger, scan, find_oldest, begin, finish}

-- Every call in flight has a start that is not the zero time, at or after `started`, and an ID from
-- 1 to `top`.
abbrev pub AllSince : ℕ → ℕ → Map ℕ → Type 0
AllSince started top [] = Unit
AllSince started top ((id, t) ∷ m) =
    ((t ≢ 0) × (started ≤ t) × (0 < id) × (id ≤ top)) × AllSince started top m

pub record IsWatched (l : ObservedLedger) : Type 0 where
  pub is_map : IsMap l.active
  pub since : AllSince l.oldest_started l.next_id l.active
  pub attained :
      ((l.active ≡ []) × (l.oldest_started ≡ 0))
      ⊎ (lookup l.oldest_id l.active ≡ some l.oldest_started)

AllSince-weaken :
    (s s' top top' : ℕ) (m : Map ℕ) → s' ≤ s → top ≤ top' → AllSince s top m → AllSince s' top' m
AllSince-weaken s s' top top' [] h k a = tt
AllSince-weaken s s' top top' ((id, t) ∷ m) h k a =
    (omega arith, AllSince-weaken s s' top top' m h k a.1)

AllSince-insert :
    (s top id t : ℕ) (m : Map ℕ)
    → t ≢ 0
    → s ≤ t
    → 0 < id
    → id ≤ top
    → AllSince s top m
    → AllSince s top (insert id t m)
unfolding insert
AllSince-insert s top id t [] a b c d h = ((a, b, c, d), tt)
AllSince-insert s top id t (e ∷ m) a b c d h = ground (arith, AllSince-insert s top id t m a b c d)

AllSince-erase : (s top id : ℕ) (m : Map ℕ) → AllSince s top m → AllSince s top (erase id m)
unfolding erase
AllSince-erase s top id [] h = tt
AllSince-erase s top id (e ∷ m) h = ground (arith, AllSince-erase s top id m)

pub lookup-AllSince :
    (s top id : ℕ) (m : Map ℕ) {t : ℕ}
    → AllSince s top m
    → lookup id m ≡ some t
    → (t ≢ 0) × (s ≤ t) × (0 < id) × (id ≤ top)
unfolding lookup
lookup-AllSince s top id [] a h = cc
lookup-AllSince s top id (e ∷ m) {t} a h = ground (arith, lookup-AllSince s top id m {t = t} a.1)

-- IDs above the last one are free.
pub lookup_above : (s top id : ℕ) (m : Map ℕ) → AllSince s top m → top < id → lookup id m ≡ none
unfolding lookup
lookup_above s top id [] a h = refl
lookup_above s top id (e ∷ m) a h = ground (arith, lookup_above s top id m)

-- The scan from a call found so far: the result is at or before it and every call of the list.
module _ (s top : ℕ) where
  scan-le :
      (m : Map ℕ) (id t : ℕ)
      → AllSince s top m
      → t ≢ 0
      → let (_, t') = scan m (id, t) in (t' ≤ t) × (t' ≢ 0) × AllSince t' top m
  unfolding scan
  scan-le [] id t a h = (omega arith, h, tt)
  scan-le ((j, u) ∷ m) id t a h = elim (Bool-cases (ltb u t)) [
    | inl earlier ↦ ground (arith, scan-le m j u)
    | inr later ↦ ground (arith, scan-le m id t)
  ]

  scan-lookup :
      (m : Map ℕ) (id t : ℕ)
      → AllSince s top m
      → IsMap m
      → t ≢ 0
      → (scan m (id, t) ≡ (id, t)) ⊎ (lookup (scan m (id, t)).0 m ≡ some (scan m (id, t)).1)
  unfolding scan lookup
  scan-lookup [] id t a d h = inl refl
  scan-lookup ((j, u) ∷ m) id t a d h = elim (Bool-cases (ltb u t)) [
    | inl earlier ↦ ground (arith, scan-lookup m j u)
    | inr later ↦ ground (arith, scan-lookup m id t)
  ]

scan_earliest :
    (top : ℕ) (m : Map ℕ)
    → IsMap m
    → AllSince 0 top m
    → let (id, t) = scan m (0, 0) in
      AllSince t top m × (((m ≡ []) × (t ≡ 0)) ⊎ (lookup id m ≡ some t))
unfolding scan lookup
scan_earliest top [] d a = (tt, inl (refl, refl))
scan_earliest top ((id, t) ∷ m) d a = ground (arith, scan-le 0 top m id t, scan-lookup 0 top m id t)

-- `findOldest` on any calls in flight finds the earliest.
pub find_oldest-IsWatched :
    (l : ObservedLedger)
    → IsMap l.active
    → AllSince 0 l.next_id l.active
    → IsWatched (find_oldest l)
unfolding find_oldest
find_oldest-IsWatched l d a =
    let (since, attained) = scan_earliest l.next_id l.active d a in
    record { is_map = d; since = since; attained = attained }

pub new_observed_ledger-IsWatched : (threshold : ℤ) → IsWatched (new_observed_ledger threshold)
unfolding new_observed_ledger
new_observed_ledger-IsWatched threshold = record {
  is_map = tt;
  since = tt;
  attained = inl (refl, refl);
}

module _ (l : ObservedLedger) (w : IsWatched l) where
  -- the recorded start is the zero time only if nothing is in flight
  pub active_of_zero : l.oldest_started ≡ 0 → l.active ≡ []
  active_of_zero z = elim w.attained [
    | inl (idle, _) ↦ idle
    | inr found ↦
        absurd ((lookup-AllSince l.oldest_started l.next_id l.oldest_id l.active w.since found).0 z)
  ]

  module _ (started : ℕ) (nonzero : started ≢ 0) (room : l.next_id + 1 < 2 ^ 64) where
    since_first :
        (is_zero l.oldest_started || ltb started l.oldest_started) ≡ true
        → AllSince started ((l.next_id + 1) % 2 ^ 64) l.active
    since_first h = elim (Bool-cases (is_zero l.oldest_started)) [
      | inl z ↦ rw (active_of_zero (ground arith)) tt
      | inr nz ↦
          AllSince-weaken l.oldest_started started l.next_id _ l.active (ground arith) (omega arith)
            w.since
    ]

    later_lookup :
        (is_zero l.oldest_started || ltb started l.oldest_started) ≡ false
        → lookup l.oldest_id (insert ((l.next_id + 1) % 2 ^ 64) started l.active)
          ≡ some l.oldest_started
    later_lookup h = elim w.attained [
      | inl (_, z) ↦ absurd (ground arith)
      | inr found ↦
          let (_, _, _, below) =
            lookup-AllSince l.oldest_started l.next_id l.oldest_id l.active w.since found in
          let apart : l.oldest_id ≢ (l.next_id + 1) % 2 ^ 64 = omega arith in
          ground (arith, lookup-insert l.oldest_id ((l.next_id + 1) % 2 ^ 64) started l.active)
    ]

    -- `begin` keeps the invariant, unless the counter of IDs wraps or the clock reads the zero time.
    pub begin-IsWatched : IsWatched (begin l started).0
    unfolding begin
    begin-IsWatched =
        let id = (l.next_id + 1) % 2 ^ 64 in
        elim (Bool-cases (is_zero l.oldest_started || ltb started l.oldest_started)) [
          | inl first ↦ rw first (record {
            is_map = insert-IsMap id started l.active w.is_map;
            since =
                AllSince-insert started id id started l.active nonzero (omega arith) (omega arith)
                  (omega arith) (since_first first);
            attained = inr (ground (arith, lookup-insert id id started l.active));
          })
          | inr later ↦ rw later (record {
            is_map = insert-IsMap id started l.active w.is_map;
            since =
                AllSince-insert l.oldest_started id id started l.active nonzero (ground arith)
                  (omega arith) (omega arith)
                  (AllSince-weaken l.oldest_started l.oldest_started l.next_id id l.active
                    (omega arith) (omega arith) w.since);
            attained = inr (later_lookup later);
          })
        ]

  -- `finish` keeps it, of any call in flight and at any time.
  pub finish-IsWatched :
      (id completed : ℕ) (failed : Bool) → IsWatched (finish l id completed failed)
  unfolding finish
  finish-IsWatched id completed failed =
      let d = erase-IsMap id l.active w.is_map in
      let a = AllSince-erase l.oldest_started l.next_id id l.active w.since in
      elim (Bool-cases (id == l.oldest_id)) [
        | inl oldest ↦ rw oldest (
            find_oldest-IsWatched
              (record l {
                active = erase id l.active;
                last_success = if failed then l.last_success else completed;
              })
              d
              (AllSince-weaken l.oldest_started 0 l.next_id l.next_id (erase id l.active)
                (omega arith) (omega arith) a))
        | inr other ↦ rw other (record {
          is_map = d;
          since = a;
          attained = elim w.attained [
            | inl (idle, z) ↦ inl (rw idle (erase-nil id), z)
            | inr found ↦ inr (ground (arith, lookup-erase l.oldest_id id l.active w.is_map))
          ];
        })
      ]
