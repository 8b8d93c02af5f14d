-- ===== src/Cache/Queue.antt =====
-- The eviction order of the metadata cache, against a bounded queue: the ring, read from its cursor,
-- is the queue of the cached IDs, oldest first.
use mathlib.Core.List.{append-nil, append_assoc}
use ledger_service.Prelude.{
  ℕ, zero, suc, ◌⊎◌, inl, inr, ◌+◌, ◌%◌, ◌≡◌, refl, ◌≢◌, ◌||◌, some, List, [], ◌∷◌, ◌++◌, arith,
  ltb, if◌then◌else◌, length, set, take, drop, tail, drop-get_elem?, drop-set, take-set,
  take_of_length-le, drop_of_length-le, length-drop-take, length-set, ◌∙◌, sym, ◌<◌, get_elem?,
}
use ledger_service.Assoc.{lookup}
use ledger_service.Cache.{AccountMetadata, MetadataCache, replace, store}
use ledger_service.Cache.Eviction.{off, hit, room, full, Stored-of_store}
use ledger_service.Cache.Invariant.{IsValid, present}
use ledger_service.Cache.Keys.{contains}

-- The ring from its cursor on.
abbrev pub queue : MetadataCache → List ℕ
queue c = drop c.next c.keys ++ take c.next c.keys

-- The specification: a known ID keeps its place; a new one joins at the back, and if the queue is at
-- its limit the front leaves.
abbrev pub enqueue : ℕ → List ℕ → ℕ → List ℕ
enqueue limit ids id =
    if contains id ids
    then ids
    else if ltb (length ids) limit
    then ids ++ id ∷ []
    else tail ids ++ id ∷ []

contains-append :
    (k : ℕ) (xs ys : List ℕ) → contains k (xs ++ ys) ≡ (contains k xs || contains k ys)
contains-append k [] ys = refl
contains-append k (x ∷ xs) ys = ground (arith, contains-append k xs ys)

contains-drop-take : (k n : ℕ) (xs : List ℕ) → contains k (drop n xs ++ take n xs) ≡ contains k xs
contains-drop-take k zero xs = ground (arith, contains-append k xs [])
contains-drop-take k (suc n) [] = refl
contains-drop-take k (suc n) (x ∷ xs) = ground (
  arith,
  contains-append k (drop n xs) (take n xs),
  contains-append k (drop n xs) (x ∷ take n xs),
  contains-drop-take k n xs,
)

module _ (ks : List ℕ) (n id : ℕ) {old : ℕ} (at : get_elem? ks n ≡ some old) where
  -- overwriting the place under the cursor, with the cursor moved past it
  advance_inside :
      suc n < length ks
      → drop (suc n) (set ks n id) ++ take (suc n) (set ks n id)
        ≡ tail (drop n ks ++ take n ks) ++ id ∷ []
  advance_inside inside =
      rw (drop-set ks n id, take-set ks n id (omega arith), drop-get_elem? ks n at)
        (sym (append_assoc (drop (suc n) ks) (take n ks) (id ∷ [])))

  -- the same at the last place, where the cursor goes back to the start
  advance_end : suc n ≡ length ks → set ks n id ++ [] ≡ tail (drop n ks ++ take n ks) ++ id ∷ []
  advance_end last = rw (
    append-nil,
    drop-get_elem? ks n at,
    drop_of_length-le (suc n) ks (omega arith),
    ← take-set ks n id (omega arith),
    take_of_length-le (suc n) (set ks n id) (omega (arith, length-set ks n id)),
  )

  advance :
      (n' : ℕ)
      → ((suc n < length ks) × (n' ≡ suc n)) ⊎ ((suc n ≡ length ks) × (n' ≡ 0))
      → drop n' (set ks n id) ++ take n' (set ks n id) ≡ tail (drop n ks ++ take n ks) ++ id ∷ []
  advance n' (inl (inside, e)) = rw e (advance_inside inside)
  advance n' (inr (last, e)) = rw e (advance_end last)

queue_start : (n : ℕ) (ks : List ℕ) → n ≡ 0 → drop n ks ++ take n ks ≡ ks
queue_start n ks e = rw e (append-nil ks)

next_place :
    (n k : ℕ) → n < k → ((suc n < k) × ((n + 1) % k ≡ suc n)) ⊎ ((suc n ≡ k) × ((n + 1) % k ≡ 0))
next_place n k h = grind arith

module _ (c : MetadataCache) (id : ℕ) (m : AccountMetadata) {c' : MetadataCache} (v : IsValid c)
    (on : c.limit ≢ 0) (e : store c id m ≡ some c') where
  contains-queue : contains id (queue c) ≡ present (lookup id c.entries)
  contains-queue = contains-drop-take id c.next c.keys ∙ v.same id

  length-queue : length (queue c) ≡ length c.entries
  length-queue = length-drop-take c.next c.keys ∙ v.sized

  -- While it is enabled, a valid cache evicts first in, first out: a `Store` acts on its IDs as on a
  -- queue of at most `limit` places.
  pub queue-store : queue c' ≡ enqueue c.limit (queue c) id
  unfolding replace
  queue-store = elim (Stored-of_store c id m v e) [
    | off z _ ↦ absurd (on z)
    | hit _ known same ↦ rw same (ground (arith, contains-queue))
    | room new fits same ↦
        let start : c.next ≡ 0 = v.filling (omega (arith, v.sized)) in
        rw same (
          ground (
            arith,
            contains-queue,
            length-queue,
            queue_start c.next c.keys start,
            queue_start c.next (c.keys ++ id ∷ []) start,
          ))
    | full old new _ at_limit at same ↦
        let inside : c.next < length c.keys = omega (arith, v.sized, v.cursor) in
        let size : length c.keys ≡ c.limit = omega (arith, v.sized) in
        rw same (
          ground (
            arith,
            contains-queue,
            length-queue,
            advance c.keys c.next id at ((c.next + 1) % c.limit)
                (rw (← size) (next_place c.next (length c.keys) inside)),
          ))
  ]
