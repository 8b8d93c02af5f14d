-- ===== src/Service/Rules/Backing.antt =====
-- Stores into the cache of metadata (internal/service/cache.go), of this request and of others.
use ledger_service.Prelude.{ℕ, ◌≡◌, refl, inl, inr, some, List, [], ◌∷◌, Option-cases}
use ledger_service.Cache.{AccountMetadata, MetadataCache, load, store}
use ledger_service.Cache.Eviction.{load-store}
use ledger_service.Cache.Invariant.{IsValid, store-IsValid}
use ledger_service.Sdk.{Account}
use ledger_service.Service.Metadata.{metadata_for_account}
use ledger_service.Service.Reporting.{IsReported}
use ledger_service.Service.Rules.{
  LedgerLaws, Each, account_entry, Backed, Backed-Later, Later, IsSound,
}
use ledger_service.Service.World.{Service, World, remember_other, remember_others}

module _ {S : Type 0} (s : Service S) (laws : LedgerLaws s.env) where
  -- a valid cache whose metadata the ledger backs
  abbrev pub IsBacked : S → MetadataCache → Type 0
  IsBacked e c =
      IsValid c × ((id : ℕ) (m : AccountMetadata) → load c id ≡ some m → Backed s laws e id m)

  -- a store of metadata that the ledger backs
  pub store-IsBacked :
      (e : S) (c : MetadataCache) (id : ℕ) (m : AccountMetadata)
      → Backed s laws e id m
      → IsBacked e c
      → (c' : MetadataCache) × (store c id m ≡ some c') × IsBacked e c'
  store-IsBacked e c id m new (valid, backed) =
      let (c', stored, valid', _) = store-IsValid c id m valid in
      (
        c',
        stored,
        (
          valid',
          λ k n hit. elim (load-store c id m valid stored k hit) [
            | inl (same, same_metadata) ↦ rw (same, same_metadata) new
            | inr old ↦ backed k n old
          ],
        ),
      )

  remember_other-IsBacked :
      (e : S) (a : Account) (c : MetadataCache)
      → laws.Holds e (account_entry a)
      → IsBacked e c
      → IsBacked e (remember_other s a c)
  unfolding remember_other
  remember_other-IsBacked e a c held b =
      elim (Option-cases (metadata_for_account s.sdk s.ledger_id a)) [
        | inl unknown ↦ rw (unknown, remember_other) b
        | inr (m, reads) ↦
            let (c', stored, b') = store-IsBacked e c a.id m (a, held, refl, reads) b in
            rw (reads, remember_other, stored) b'
      ]

  pub remember_others-IsBacked :
      (e : S) (accounts : List Account) (c : MetadataCache)
      → Each (λ a. laws.Holds e (account_entry a)) accounts
      → IsBacked e c
      → IsBacked e (remember_others s accounts c)
  unfolding remember_others
  remember_others-IsBacked e [] c held b = b
  remember_others-IsBacked e (a ∷ accounts) c (held, rest) b =
      remember_others-IsBacked e accounts (remember_other s a c) rest
        (remember_other-IsBacked e a c held b)

  -- A state with a later ledger and the same cache, but for what other requests have stored, is sound if it is
  -- reported.
  pub IsSound-Later :
      {w w' : World S}
      → IsSound s laws w
      → Later s laws w.env w'.env
      → w'.cache ≡ remember_others s (s.env.others w'.env) w.cache
      → IsReported s w'
      → IsSound s laws w'
  IsSound-Later {w} {w'} sound later same reported =
      let (valid, backed) =
        remember_others-IsBacked w'.env (s.env.others w'.env) w.cache (laws.others_held w'.env)
          (sound.cache_valid, λ id m hit. Backed-Later s laws id m later (sound.backed id m hit)) in
      record {
        cache_valid = rw same valid;
        backed = λ id m hit. backed id m (rw same at hit);
        reported = reported;
      }
