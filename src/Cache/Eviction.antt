-- ===== src/Cache/Eviction.antt =====
-- What a client of the cache can see: `Store` against `Load`, and the order of eviction.
use ledger_service.Prelude.{
  ℕ, ◌≡◌, ◌≢◌, ◌⊎◌, inl, inr, none, some, [], ◌∷◌, ◌++◌, arith, ◌==◌, ltb, length, get_elem?,
  Option-cases, Bool-cases, ◌<◌,
}
use ledger_service.Assoc.{lookup, insert, erase, lookup-insert, lookup-erase}
use ledger_service.Cache.{AccountMetadata, MetadataCache, load, replace, store}
use ledger_service.Cache.Invariant.{IsValid}

-- What `Store` did to a valid cache, by the branch that it took.
pub data Stored (c : MetadataCache) (id : ℕ) (m : AccountMetadata) (c' : MetadataCache)
    : Type 0 where
  off : c.limit ≡ 0 → c' ≡ c → Stored c id m c'
  hit :
      c.limit ≢ 0
      → lookup id c.entries ≢ none
      → c' ≡ record c { entries = insert id m c.entries }
      → Stored c id m c'
  room :
      lookup id c.entries ≡ none
      → length c.entries < c.limit
      → c' ≡ record c { entries = insert id m c.entries; keys = c.keys ++ id ∷ [] }
      → Stored c id m c'
  full :
      (old : ℕ)
      → lookup id c.entries ≡ none
      → c.limit ≢ 0
      → length c.entries ≡ c.limit
      → get_elem? c.keys c.next ≡ some old
      → c' ≡ replace c id m old
      → Stored c id m c'

module _ (c : MetadataCache) (id : ℕ) (m : AccountMetadata) {c' : MetadataCache} (v : IsValid c)
    (e : store c id m ≡ some c') where
  pub Stored-of_store : Stored c id m c'
  unfolding store
  Stored-of_store = elim (Bool-cases (c.limit == 0)) [
    | inl none_kept ↦ off (ground arith) (ground arith)
    | inr kept ↦ elim (Option-cases (lookup id c.entries)) [
      | inr (w, found) ↦ hit (ground arith) (ground arith) (ground arith)
      | inl miss ↦ elim (Bool-cases (ltb (length c.entries) c.limit)) [
        | inl fits ↦ room miss (ground arith) (ground arith)
        | inr fits_not ↦ elim (Option-cases (get_elem? c.keys c.next)) [
          | inl panics ↦ absurd (ground arith)
          | inr (old, at) ↦
              full old miss (ground arith) (ground (arith, v.bounded)) at (ground arith)
        ]
      ]
    ]
  ]

  -- A `Load` after a `Store` on a valid cache finds the stored metadata, unless the cache is disabled.
  pub load-store_self : c.limit ≢ 0 → load c' id ≡ some m
  unfolding load replace
  load-store_self on = elim Stored-of_store [
    | off z same ↦ absurd (on z)
    | hit _ _ same ↦ rw same (ground (arith, lookup-insert id id m c.entries))
    | room _ _ same ↦ rw same (ground (arith, lookup-insert id id m c.entries))
    | full old _ _ _ _ same ↦ rw same (ground (arith, lookup-insert id id m (erase old c.entries)))
  ]

  -- Whatever a `Load` finds after a `Store` on a valid cache is what was stored, or was found before it.
  pub load-store :
      (k : ℕ) {w : AccountMetadata}
      → load c' k ≡ some w
      → ((k ≡ id) × (w ≡ m)) ⊎ (load c k ≡ some w)
  unfolding load replace
  load-store k found = elim Stored-of_store [
    | off z same ↦ inr (rw same at found)
    | hit on _ same ↦ ground (arith, rw same at found, lookup-insert k id m c.entries)
    | room _ _ same ↦ ground (arith, rw same at found, lookup-insert k id m c.entries)
    | full old _ _ _ _ same ↦ ground (
      arith,
      rw same at found,
      lookup-insert k id m (erase old c.entries),
      lookup-erase k old c.entries v.is_map,
    )
  ]
