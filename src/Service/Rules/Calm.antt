-- ===== src/Service/Rules/Calm.antt =====
-- When a call of the service does not panic, from every state with a valid metadata cache
-- (internal/service/cache.go), and the rules for chains of such calls.
pub mod Calls
use ledger_service.Prelude.{
  ℕ, Bool, true, false, not, ◌≡◌, refl, Bool-cases, inl, inr, Option, Option-cases, none, some,
  String, List, [], ◌∷◌, if◌then◌else◌,
}
use ledger_service.Prelude.Int.{ltb_ℤ, pos, pos_part}
use ledger_service.Cache.{AccountMetadata, MetadataCache, load, store}
use ledger_service.Cache.Invariant.{IsValid, store-IsValid}
use ledger_service.Client.{
  one_result, at_most_one, create_account, create_transfer, lookup_account, lookup_transfer,
}
use ledger_service.Domain.{AccountKind, kind_eq, OperationKind, Error, panicked, Result, ok, err}
use ledger_service.Sdk.{Account, ContextError, Reply, done, failed, Transfer}
use ledger_service.Service.Calls.{
  context_error, ledger_create_account, ledger_create_transfer, ledger_lookup_account,
  ledger_lookup_transfer, store_metadata, remember_account, admit_account, require_account_kind,
  evaluate_risk,
}
use ledger_service.Service.Metadata.{metadata_for_account}
use ledger_service.Service.World.{
  Service, World, M, resume, ◌>>=◌, pure, raise, lift, fail_if, attempt, remember_other,
  remember_others, now, observed_call, observe_completion, Event, Attribute, sent_account,
  sent_transfer, sent_account_lookup, sent_transfer_lookup,
}

abbrev pub is_panic : Error → Bool
is_panic panicked = true
is_panic _ = false

abbrev pub is_calm : {A : Type 0} → Result A → Bool
is_calm (ok _) = true
is_calm (err e) = not (is_panic e)

-- the call did not panic
abbrev pub IsCalm : {A : Type 0} → Result A → Type 0
IsCalm r = is_calm r ≡ true

abbrev pub IsCalmError : Error → Type 0
IsCalmError e = not (is_panic e) ≡ true

-- from every state with a valid cache the call does not panic, and leaves a valid cache
pub record Calm {S A : Type 0} (m : M S A) : Type 0 where
  pub run : (w : World S) → IsValid w.cache → IsValid (m w).1.cache × IsCalm (m w).0

module _ {S : Type 0} where
  pub Calm-lift : {A : Type 0} (r : Result A) → IsCalm r → Calm (lift {S = S} r)
  Calm-lift r calm = record { run = λ w valid. (valid, calm) }

  pub Calm-pure : {A : Type 0} (a : A) → Calm (pure {S = S} a)
  Calm-pure a = record { run = λ w valid. (valid, refl) }

  pub Calm-raise : {A : Type 0} (e : Error) → IsCalmError e → Calm (raise {S = S} {A = A} e)
  Calm-raise e calm = record { run = λ w valid. (valid, calm) }

  pub Calm-fail_if : (b : Bool) (e : Error) → IsCalmError e → Calm (fail_if {S = S} b e)
  Calm-fail_if true e calm = Calm-raise e calm
  Calm-fail_if false e calm = Calm-pure tt

  pub Calm-if : {A : Type 0} (b : Bool) {m k : M S A} → Calm m → Calm k → Calm (if b then m else k)
  Calm-if true h j = h
  Calm-if false h j = j

  resume-IsCalm :
      {A B : Type 0} (f : A → M S B)
      → ((a : A) → Calm (f a))
      → (r : Result A) (w : World S) → IsValid w.cache
      → IsCalm r
      → IsValid (resume f r w).1.cache × IsCalm (resume f r w).0
  resume-IsCalm f k (ok a) w valid calm = (k a).run w valid
  resume-IsCalm f k (err panicked) w valid calm = cc
  resume-IsCalm f k (err e) w valid calm = (valid, refl)

  pub Calm-bind :
      {A B : Type 0} {m : M S A} {f : A → M S B} → Calm m → ((a : A) → Calm (f a)) → Calm (m >>= f)
  unfolding ◌>>=◌
  Calm-bind {m = m} {f} h k = record {
    run = λ w valid.
        let (valid', calm) = h.run w valid in resume-IsCalm f k (m w).0 (m w).1 valid' calm;
  }

  -- a call whose error is inspected
  pub Calm-attempt :
      {A B : Type 0} {m : M S A} {f : Result A → M S B}
      → Calm m
      → ((r : Result A) → IsCalm r → Calm (f r))
      → Calm (attempt m >>= f)
  unfolding ◌>>=◌
  Calm-attempt {m = m} h k = record {
    run = λ w valid. let (valid', calm) = h.run w valid in (k (m w).0 calm).run (m w).1 valid';
  }
