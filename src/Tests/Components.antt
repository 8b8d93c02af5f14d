-- ===== src/Tests/Components.antt =====
-- The metadata cache and the record of the calls in flight (internal/service/cache.go, health.go).
use ledger_service.Prelude.{
  ℕ, ◌*◌, ◌^◌, ◌<◌, ◌≡◌, ◌↔◌, ◌⊎◌, ◌+◌, refl, inl, true, false, some, [], ◌∷◌, arith,
}
use ledger_service.Prelude.Int.{pos, ltb_ℤ}
use ledger_service.Assoc.{lookup, insert, erase}
use ledger_service.Cache.{AccountMetadata, MetadataCache, load, store, replace}
use ledger_service.Cache.Eviction.{load-store}
use ledger_service.Cache.Invariant.{IsValid, store-IsValid}
use ledger_service.Cache.Queue.{queue, enqueue, queue-store}
use ledger_service.Clock.{second}
use ledger_service.Domain.{card_wallet}
use ledger_service.Health.Interleaving.{Reach, start, begins, ends, Reach-health}
use ledger_service.Health.Invariant.{IsWatched, new_observed_ledger-IsWatched, begin-IsWatched}
use ledger_service.Health.Readiness.{AllYoung}
use ledger_service.Health.{ObservedLedger, new_observed_ledger, begin, finish, health}

abbrev entry : ℕ → AccountMetadata
entry parent = record { kind = card_wallet; corporate_account_id = parent }

-- a cache of two places, full
abbrev full_cache : MetadataCache
full_cache = record {
  entries = (11, entry 10) ∷ (12, entry 10) ∷ [];
  keys = 11 ∷ 12 ∷ [];
  next = 0;
  limit = 2;
}

full_cache-IsValid : IsValid full_cache
unfolding lookup
full_cache-IsValid = record {
  is_map = (refl, (refl, tt));
  distinct = (refl, (refl, tt));
  same = λ k. ground arith;
  sized = refl;
  bounded = omega arith;
  cursor = inl refl;
  filling = λ _. refl;
}

-- 13 takes the place of 11
abbrev next_cache : MetadataCache
next_cache = record {
  entries = (12, entry 10) ∷ (13, entry 10) ∷ [];
  keys = 13 ∷ 12 ∷ [];
  next = 1;
  limit = 2;
}

store_full : store full_cache 13 (entry 10) ≡ some next_cache
unfolding store replace lookup insert erase
store_full = refl

queue-store_example : queue next_cache ≡ enqueue 2 (queue full_cache) 13
queue-store_example =
    queue-store full_cache 13 (entry 10) full_cache-IsValid (ground arith) store_full

store-IsValid_example :
    (c' : MetadataCache) × (store full_cache 13 (entry 10) ≡ some c') × IsValid c' × (c'.limit ≡ 2)
store-IsValid_example = store-IsValid full_cache 13 (entry 10) full_cache-IsValid

abbrev kept_id : ℕ
kept_id = 12

load_kept : load next_cache 12 ≡ some (entry 10)
unfolding load lookup
load_kept = refl

load-store_example :
    ((kept_id ≡ 13) × (entry 10 ≡ entry 10)) ⊎ (load full_cache 12 ≡ some (entry 10))
load-store_example = load-store full_cache 13 (entry 10) full_cache-IsValid store_full 12 load_kept

-- Two calls begin, at 5 and 9 seconds, and the first ends.
abbrev idle : ObservedLedger
idle = new_observed_ledger (pos (2 * second))

abbrev one_call : ObservedLedger
one_call = (begin idle (5 * second)).0

abbrev two_calls : ObservedLedger
two_calls = (begin one_call (9 * second)).0

abbrev last_call : ObservedLedger
last_call = finish two_calls 1 (10 * second) false

first_in_flight : lookup 1 two_calls.active ≡ some (5 * second)
unfolding new_observed_ledger begin lookup insert
first_in_flight = refl

Reach-last_call : Reach (pos (2 * second)) 2 1 last_call
Reach-last_call =
    ends 1 (10 * second) false
      (begins (9 * second) (begins (5 * second) start (ground arith) (omega arith) refl)
        (ground arith) (omega arith) refl)
      first_in_flight refl

Reach-health_example :
    ((health last_call (10 * second)).in_flight + 1 ≡ 2)
    × (((health last_call (10 * second)).ready ≡ true)
        ↔ AllYoung last_call.stall_threshold (10 * second) last_call.active)
Reach-health_example = Reach-health (10 * second) Reach-last_call

room : idle.next_id + 1 < 2 ^ 64
unfolding new_observed_ledger
room = omega arith

positive : ltb_ℤ (pos 0) one_call.stall_threshold ≡ true
unfolding new_observed_ledger begin
positive = refl

one_call-IsWatched : IsWatched one_call
one_call-IsWatched =
    begin-IsWatched idle (new_observed_ledger-IsWatched (pos (2 * second))) (5 * second)
      (ground arith) room
