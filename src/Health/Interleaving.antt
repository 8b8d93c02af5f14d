-- ===== src/Health/Interleaving.antt =====
-- The SDK calls of all requests, begun and ended in any order by any goroutines.
use ledger_service.Prelude.{
  ℕ, suc, ◌+◌, ◌%◌, ◌^◌, ◌<◌, ◌≡◌, ◌≢◌, ◌↔◌, refl, Bool, true, some, arith, length,
}
use ledger_service.Prelude.Int.{ℤ, pos, ltb_ℤ}
use ledger_service.Assoc.{lookup, length-insert_new, length-erase}
use ledger_service.Health.{ObservedLedger, new_observed_ledger, begin, find_oldest, finish, health}
use ledger_service.Health.Invariant.{
  IsWatched, new_observed_ledger-IsWatched, begin-IsWatched, finish-IsWatched, lookup_above,
}
use ledger_service.Health.Readiness.{AllYoung, health_ready_iff}

-- The states after `begun` calls have begun and `ended` of them have ended, in some interleaving. A
-- start is a reading of the clock, which is not the zero time, and only a call in flight ends.
pub data Reach (threshold : ℤ) : ℕ → ℕ → ObservedLedger → Type 0 where
  start : Reach threshold 0 0 (new_observed_ledger threshold)
  begins :
      {begun ended : ℕ} {l l' : ObservedLedger} (started : ℕ)
      → Reach threshold begun ended l
      → started ≢ 0
      → suc begun < 2 ^ 64
      → l' ≡ (begin l started).0
      → Reach threshold (suc begun) ended l'
  ends :
      {begun ended : ℕ} {l l' : ObservedLedger} (id completed : ℕ) (failed : Bool) {started : ℕ}
      → Reach threshold begun ended l
      → lookup id l.active ≡ some started
      → l' ≡ finish l id completed failed
      → Reach threshold begun (suc ended) l'

record Counts (begun ended : ℕ) (l : ObservedLedger) : Type 0 where
  counted : length l.active + ended ≡ begun
  numbered : l.next_id ≡ begun
  positive : ltb_ℤ (pos 0) l.stall_threshold ≡ true
  watched : IsWatched l

begin-Counts :
    {begun ended : ℕ} {l : ObservedLedger} (started : ℕ)
    → Counts begun ended l
    → started ≢ 0
    → suc begun < 2 ^ 64
    → Counts (suc begun) ended (begin l started).0
unfolding begin
begin-Counts {begun} {ended} {l} started c nonzero room =
    let id : ℕ = (l.next_id + 1) % 2 ^ 64 in
    let fresh =
      lookup_above l.oldest_started l.next_id id l.active c.watched.since
        (omega (arith, c.numbered)) in
    let size = length-insert_new id started l.active fresh in
    record {
      counted = ground (arith, c.counted, size);
      numbered = ground (arith, c.numbered);
      positive = ground (arith, c.positive);
      watched = begin-IsWatched l c.watched started nonzero (omega (arith, c.numbered));
    }

finish-Counts :
    {begun ended : ℕ} {l : ObservedLedger} (id completed : ℕ) (failed : Bool) {started : ℕ}
    → Counts begun ended l
    → lookup id l.active ≡ some started
    → Counts begun (suc ended) (finish l id completed failed)
unfolding finish find_oldest
finish-Counts {begun} {ended} {l} id completed failed {started} c found =
    let size = length-erase id started l.active found in
    record {
      counted = ground (arith, c.counted, size);
      numbered = ground (arith, c.numbered);
      positive = ground (arith, c.positive);
      watched = finish-IsWatched l c.watched id completed failed;
    }

new-Counts : (threshold : ℤ) → Counts 0 0 (new_observed_ledger threshold)
unfolding new_observed_ledger
new-Counts threshold = record {
  counted = omega arith;
  numbered = refl;
  positive = ground arith;
  watched = new_observed_ledger-IsWatched threshold;
}

Reach-Counts :
    {threshold : ℤ} {begun ended : ℕ} {l : ObservedLedger}
    → Reach threshold begun ended l
    → Counts begun ended l
Reach-Counts {threshold} start = new-Counts threshold
Reach-Counts (begins started r nonzero room e) =
    rw e (begin-Counts started (Reach-Counts r) nonzero room)
Reach-Counts (ends id completed failed r found e) =
    rw e (finish-Counts id completed failed (Reach-Counts r) found)

-- In every interleaving of fewer than 2^64 calls, `Health` counts the calls that have begun and not
-- ended, and reports ready exactly when each of them is younger than the stall threshold.
pub Reach-health :
    {threshold : ℤ} {begun ended : ℕ} {l : ObservedLedger} (now : ℕ)
    → Reach threshold begun ended l
    → ((health l now).in_flight + ended ≡ begun)
      × (((health l now).ready ≡ true) ↔ AllYoung l.stall_threshold now l.active)
unfolding health
Reach-health {l = l} now r =
    let c = Reach-Counts r in (c.counted, health_ready_iff l now c.watched c.positive)
