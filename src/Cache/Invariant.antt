-- ===== src/Cache/Invariant.antt =====
-- The invariant of the metadata cache, and that every operation keeps it and never panics.
use ledger_service.Prelude.{
  ℕ, ◌+◌, ◌%◌, ◌≤◌, ◌<◌, ◌≡◌, refl, ◌≢◌, ◌⊎◌, inl, inr, Bool, true, false, Option, none, some,
  arith, ◌==◌, length, length-append, length-set, get_elem?, get_elem?-lt_length, Option-cases,
  Bool-cases, sym, ◌∙◌, ◌++◌, [], ◌∷◌, ltb,
}
use native.Mathlib.Nat.{mod-lt}
use ledger_service.Prelude.Int.{ℤ}
use ledger_service.Assoc.{
  lookup, insert, erase, IsMap, lookup-insert, lookup-erase, insert-IsMap, erase-IsMap,
  length-insert_new, length-insert_old, length-erase,
}
use ledger_service.Cache.{AccountMetadata, MetadataCache, new_metadata_cache, evict, replace, store}
use ledger_service.Cache.Keys.{
  contains, IsDistinct, contains-append_one, append_one-IsDistinct, contains-get_elem?,
  contains-set, set-IsDistinct,
}

abbrev pub present {ℓ} : {A : Type ℓ} → Option A → Bool
present none = false
present (some _) = true

-- The ring of keys lists every cached ID once; it is no longer than the limit, and the cursor stands
-- on a key, or at the start while the ring is not full.
pub record IsValid (c : MetadataCache) : Type 0 where
  pub is_map : IsMap c.entries
  pub distinct : IsDistinct c.keys
  pub same : (k : ℕ) → contains k c.keys ≡ present (lookup k c.entries)
  pub sized : length c.keys ≡ length c.entries
  pub bounded : length c.entries ≤ c.limit
  pub cursor : (c.next ≡ 0) ⊎ (c.next < length c.keys)
  pub filling : length c.keys < c.limit → c.next ≡ 0

pub new_metadata_cache-IsValid : (limit : ℤ) → IsValid (new_metadata_cache limit)
unfolding new_metadata_cache lookup
new_metadata_cache-IsValid limit = record {
  is_map = tt;
  distinct = tt;
  same = λ k. refl;
  sized = refl;
  bounded = omega arith;
  cursor = inl refl;
  filling = λ _. refl;
}

module _ (c : MetadataCache) (id : ℕ) (m : AccountMetadata) (v : IsValid c) where
  replace-IsValid :
      (w : AccountMetadata)
      → lookup id c.entries ≡ some w
      → IsValid (record c { entries = insert id m c.entries })
  replace-IsValid w e = record {
    is_map = insert-IsMap id m c.entries v.is_map;
    distinct = v.distinct;
    same = λ k. ground (arith, v.same k, lookup-insert k id m c.entries);
    sized = v.sized ∙ sym (length-insert_old id m w c.entries e);
    bounded = omega (arith, v.bounded, length-insert_old id m w c.entries e);
    cursor = v.cursor;
    filling = v.filling;
  }

  append-IsValid :
      lookup id c.entries ≡ none
      → length c.entries < c.limit
      → IsValid (record c { entries = insert id m c.entries; keys = c.keys ++ id ∷ [] })
  append-IsValid e room = record {
    is_map = insert-IsMap id m c.entries v.is_map;
    distinct = append_one-IsDistinct id c.keys (ground (arith, v.same id)) v.distinct;
    same = λ k.
        ground (arith, v.same k, lookup-insert k id m c.entries, contains-append_one k id c.keys);
    sized =
        omega (arith, v.sized, length-append c.keys (id ∷ []), length-insert_new id m c.entries e);
    bounded = omega (arith, length-insert_new id m c.entries e);
    cursor = inl (v.filling (omega (arith, v.sized)));
    filling = λ _. v.filling (omega (arith, v.sized));
  }

  replace_cursor :
      c.limit ≢ 0
      → length c.entries ≡ c.limit
      → ((c.next + 1) % c.limit ≡ 0) ⊎ ((c.next + 1) % c.limit < c.limit)
  replace_cursor nonzero full = inr (mod-lt _ (omega arith))

  evict-IsValid :
      (old : ℕ)
      → get_elem? c.keys c.next ≡ some old
      → lookup id c.entries ≡ none
      → c.limit ≢ 0
      → length c.entries ≡ c.limit
      → IsValid (replace c id m old)
  unfolding replace
  evict-IsValid old at e nonzero full =
      let rest = erase old c.entries in
      let gone : lookup id rest ≡ none = ground (arith, lookup-erase id old c.entries v.is_map) in
      let (w, held) = held_entry in
      let size : length (insert id m rest) ≡ length c.entries =
        omega (arith, length-insert_new id m rest gone, length-erase old w c.entries held) in
      record {
        is_map = insert-IsMap id m rest (erase-IsMap old c.entries v.is_map);
        distinct = set-IsDistinct id old c.keys c.next v.distinct at (ground (arith, v.same id));
        same = λ k. ground (
          arith,
          v.same k,
          lookup-insert k id m rest,
          lookup-erase k old c.entries v.is_map,
          contains-set k id old c.keys c.next v.distinct at,
        );
        sized = omega (arith, v.sized, length-set c.keys c.next id);
        bounded = omega arith;
        cursor = omega (arith, v.sized, length-set c.keys c.next id, replace_cursor nonzero full);
        filling = λ h. absurd (omega (arith, v.sized, length-set c.keys c.next id));
      }
    where
      held_entry : (w : AccountMetadata) × (lookup old c.entries ≡ some w)
      held_entry = elim (Option-cases (lookup old c.entries)) [
        | inl missing ↦ absurd (ground (arith, v.same old, contains-get_elem? c.keys c.next at))
        | inr found ↦ found
      ]

  -- `Store` on a valid cache never panics, and leaves a valid cache of the same limit.
  pub store-IsValid :
      (c' : MetadataCache) × (store c id m ≡ some c') × IsValid c' × (c'.limit ≡ c.limit)
  unfolding store
  store-IsValid = elim (Bool-cases (c.limit == 0)) [
    | inl off ↦ (c, rw off, v, refl)
    | inr on ↦ elim (Option-cases (lookup id c.entries)) [
      | inr (w, hit) ↦ (_, rw (on, hit, store), replace-IsValid w hit, refl)
      | inl miss ↦ elim (Bool-cases (ltb (length c.entries) c.limit)) [
        | inl room ↦ (_, rw (on, miss, room, store), append-IsValid miss (ground arith), refl)
        | inr full ↦
            let (old, at) = get_elem?-lt_length c.keys c.next (ground (arith, v.sized, v.cursor)) in
            (
              replace c id m old,
              rw (on, miss, full, evict, at),
              evict-IsValid old at miss (ground arith) (ground (arith, v.bounded)),
              refl,
            )
      ]
    ]
  ]
