-- ===== src/Health.antt =====
-- internal/service/health.go: the record that `observedLedger` keeps of the SDK calls in flight. The
-- lock is held throughout each step; the clock is read outside it and is an argument.
pub mod Invariant
pub mod Readiness
pub mod Interleaving
use ledger_service.Prelude.{
  ℕ, ◌+◌, ◌*◌, ◌%◌, ◌^◌, Bool, ◌||◌, List, [], ◌∷◌, ◌==◌, ltb, if◌then◌else◌, length,
}
use ledger_service.Prelude.Int.{ℤ, pos, leb_ℤ, ltb_ℤ}
use ledger_service.Assoc.{Map, insert, erase}
use ledger_service.Clock.{second, is_zero, time_sub}

pub record LedgerHealth : Type 0 where
  pub ready : Bool
  pub in_flight : ℕ
  pub oldest : ℤ
  pub last_success : ℕ

pub record ObservedLedger : Type 0 where
  pub stall_threshold : ℤ
  pub next_id : ℕ
  pub active : Map ℕ
  pub oldest_id : ℕ
  pub oldest_started : ℕ
  pub last_success : ℕ

-- `newObservedLedger`
unfoldable pub new_observed_ledger : ℤ → ObservedLedger
new_observed_ledger stall_threshold = record {
  stall_threshold = if leb_ℤ stall_threshold (pos 0) then pos (2 * second) else stall_threshold;
  next_id = 0;
  active = [];
  oldest_id = 0;
  oldest_started = 0;
  last_success = 0;
}

-- one round of the loop of `findOldest`, on the ID and the start found so far
abbrev pub older : ℕ × ℕ → ℕ × ℕ → ℕ × ℕ
older (id, started) (oldest_id, oldest_started) =
    if is_zero oldest_started || ltb started oldest_started
    then (id, started)
    else (oldest_id, oldest_started)

-- The loop of `findOldest`. Go takes the entries of the map in any order; here it is the list's.
unfoldable pub scan : Map ℕ → ℕ × ℕ → ℕ × ℕ
scan [] oldest = oldest
scan (call ∷ calls) oldest = scan calls (older call oldest)

-- `findOldest`
unfoldable pub find_oldest : ObservedLedger → ObservedLedger
unfolding scan
find_oldest l =
    let (id, started) = scan l.active (0, 0) in
    record l { oldest_id = id; oldest_started = started }

-- `begin`: the new state and the ID of the call
unfoldable pub begin : ObservedLedger → ℕ → ObservedLedger × ℕ
begin l started =
    let id = (l.next_id + 1) % 2 ^ 64 in
    let l' = record l { next_id = id; active = insert id started l.active } in
    (
      if is_zero l.oldest_started || ltb started l.oldest_started
          then record l' { oldest_id = id; oldest_started = started }
          else l',
      id,
    )

-- the function that `begin` returns: the call `id` ended at `completed`
unfoldable pub finish : ObservedLedger → ℕ → ℕ → Bool → ObservedLedger
unfolding find_oldest
finish l id completed failed =
    let l' = record l {
      active = erase id l.active;
      last_success = if failed then l.last_success else completed;
    } in
    if id == l.oldest_id then find_oldest l' else l'

-- `Health`
unfoldable pub health : ObservedLedger → ℕ → LedgerHealth
health l now =
    let oldest = if is_zero l.oldest_started then pos 0 else time_sub now l.oldest_started in
    record {
      ready = ltb_ℤ oldest l.stall_threshold;
      in_flight = length l.active;
      oldest = oldest;
      last_success = l.last_success;
    }
