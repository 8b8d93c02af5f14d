-- ===== src/Service/Rules/Calm/Calls.antt =====
-- The calls that the service's methods share and panics: the metadata cache is the one part that could panic.
use ledger_service.Prelude.{
  ℕ, ◌≡◌, refl, Bool-cases, inl, inr, Option, Option-cases, none, some, String, List, [], ◌∷◌,
}
use ledger_service.Prelude.Int.{ltb_ℤ, pos, pos_part}
use ledger_service.Cache.{AccountMetadata, MetadataCache, load, store}
use ledger_service.Cache.Invariant.{IsValid, store-IsValid}
use ledger_service.Client.{
  one_result, at_most_one, create_account, create_transfer, lookup_account, lookup_transfer,
}
use ledger_service.Domain.{AccountKind, kind_eq, OperationKind, Result}
use ledger_service.Sdk.{Account, ContextError, Reply, done, failed, Transfer}
use ledger_service.Service.Calls.{
  context_error, ledger_create_account, ledger_create_transfer, ledger_lookup_account,
  ledger_lookup_transfer, store_metadata, remember_account, admit_account, require_account_kind,
  evaluate_risk,
}
use ledger_service.Service.Metadata.{metadata_for_account}
use ledger_service.Service.World.{
  Service, remember_other, remember_others, now, observed_call, observe_completion, Event,
  Attribute, sent_account, sent_transfer, sent_account_lookup, sent_transfer_lookup,
}
use ledger_service.Service.Rules.Calm.{
  IsCalm, IsCalmError, Calm, Calm-pure, Calm-raise, Calm-if, Calm-bind,
}

module _ {S : Type 0} (s : Service S) where
  store-some :
      (c : MetadataCache) (id : ℕ) (m : AccountMetadata)
      → IsValid c
      → (c' : MetadataCache) × (store c id m ≡ some c') × IsValid c'
  store-some c id m valid =
      let (c', stored, valid', _) = store-IsValid c id m valid in (c', stored, valid')

  remember_other-IsValid :
      (a : Account) (c : MetadataCache) → IsValid c → IsValid (remember_other s a c)
  unfolding remember_other
  remember_other-IsValid a c valid =
      elim (Option-cases (metadata_for_account s.sdk s.ledger_id a)) [
        | inl unknown ↦ rw (unknown, remember_other) valid
        | inr (m, reads) ↦
            let (c', stored, valid') = store-some c a.id m valid in
            rw (reads, remember_other, stored) valid'
      ]

  remember_others-IsValid :
      (accounts : List Account) (c : MetadataCache)
      → IsValid c
      → IsValid (remember_others s accounts c)
  unfolding remember_others
  remember_others-IsValid [] c valid = valid
  remember_others-IsValid (a ∷ accounts) c valid =
      remember_others-IsValid accounts (remember_other s a c) (remember_other-IsValid a c valid)

  pub Calm-now : Calm (now s)
  unfolding now
  Calm-now = record {
    run =
        λ w valid. (remember_others-IsValid (s.env.others (s.env.now w.env).1) w.cache valid, refl);
  }

  Calm-observed_call :
      {A : Type 0} (kind : String) (event : Event) (call : S → Result A × S)
      → ((e : S) → IsCalm (call e).0)
      → Calm (observed_call s kind event call)
  unfolding observed_call
  Calm-observed_call kind event call calm = record {
    run = λ w valid. (
      remember_others-IsValid (s.env.others (s.env.now (call (s.env.now w.env).1).1).1) w.cache
          valid,
      calm (s.env.now w.env).1,
    );
  }

  pub Calm-observe_completion :
      (kind : OperationKind) (request_id status : String) (amount started : ℕ)
      (ledger_status : String) (attributes : List (String × Attribute))
      → Calm (observe_completion s kind request_id status amount started ledger_status attributes)
  unfolding observe_completion
  Calm-observe_completion kind request_id status amount started ledger_status attributes = record {
    run =
        λ w valid. (remember_others-IsValid (s.env.others (s.env.now w.env).1) w.cache valid, refl);
  }

  one_result-IsCalm : {A : Type 0} (name : String) (r : Reply (List A)) → IsCalm (one_result name r)
  unfolding one_result
  one_result-IsCalm name (failed e) = refl
  one_result-IsCalm name (done []) = refl
  one_result-IsCalm name (done (r ∷ [])) = refl
  one_result-IsCalm name (done (r ∷ q ∷ rs)) = refl

  at_most_one-IsCalm :
      {A : Type 0} (name : String) (r : Reply (List A)) → IsCalm (at_most_one name r)
  unfolding at_most_one
  at_most_one-IsCalm name (failed e) = refl
  at_most_one-IsCalm name (done []) = refl
  at_most_one-IsCalm name (done (r ∷ [])) = refl
  at_most_one-IsCalm name (done (r ∷ q ∷ rs)) = refl

  pub Calm-ledger_create_account : (a : Account) → Calm (ledger_create_account s a)
  unfolding ledger_create_account create_account
  Calm-ledger_create_account a =
      Calm-observed_call "create_account" (sent_account a) (create_account s.env a)
        (λ e. one_result-IsCalm "create account" (s.env.create_accounts (a ∷ []) e).0)

  pub Calm-ledger_create_transfer : (t : Transfer) → Calm (ledger_create_transfer s t)
  unfolding ledger_create_transfer create_transfer
  Calm-ledger_create_transfer t =
      Calm-observed_call "create_transfer" (sent_transfer t) (create_transfer s.env t)
        (λ e. one_result-IsCalm "create transfer" (s.env.create_transfers (t ∷ []) e).0)

  pub Calm-ledger_lookup_account : (id : ℕ) → Calm (ledger_lookup_account s id)
  unfolding ledger_lookup_account lookup_account
  Calm-ledger_lookup_account id =
      Calm-observed_call "lookup_account" (sent_account_lookup id) (lookup_account s.env id)
        (λ e. at_most_one-IsCalm "lookup account" (s.env.lookup_accounts (id ∷ []) e).0)

  pub Calm-ledger_lookup_transfer : (id : ℕ) → Calm (ledger_lookup_transfer s id)
  unfolding ledger_lookup_transfer lookup_transfer
  Calm-ledger_lookup_transfer id =
      Calm-observed_call "lookup_transfer" (sent_transfer_lookup id) (lookup_transfer s.env id)
        (λ e. at_most_one-IsCalm "lookup transfer" (s.env.lookup_transfers (id ∷ []) e).0)

  Calm-store_metadata : (id : ℕ) (m : AccountMetadata) → Calm (store_metadata s id m)
  unfolding store_metadata
  Calm-store_metadata id m = record {
    run = λ w valid.
        let (c, stored, valid') = store-some w.cache id m valid in
        rw (stored, store_metadata) (valid', refl);
  }

  pub Calm-remember_account : (a : Account) → Calm (remember_account s a)
  unfolding remember_account
  Calm-remember_account a = elim (Option-cases (metadata_for_account s.sdk s.ledger_id a)) [
    | inl unknown ↦ rw (unknown, remember_account) (Calm-pure tt)
    | inr (m, reads) ↦ rw (reads, remember_account) (Calm-store_metadata a.id m)
  ]

  Calm-admit_account :
      (id : ℕ) (expected : AccountKind) (found : Option Account)
      → Calm (admit_account s id expected found)
  unfolding admit_account
  Calm-admit_account id expected none = Calm-raise _ refl
  Calm-admit_account id expected (some a) =
      elim (Option-cases (metadata_for_account s.sdk s.ledger_id a)) [
        | inl unknown ↦ rw (unknown, admit_account) (Calm-raise _ refl)
        | inr (m, reads) ↦
            rw (reads, admit_account)
              (Calm-if (kind_eq m.kind expected)
                (Calm-bind (Calm-store_metadata id m) (λ _. Calm-pure m)) (Calm-raise _ refl))
      ]

  pub Calm-require_account_kind :
      (id : ℕ) (expected : AccountKind) → Calm (require_account_kind s id expected)
  unfolding require_account_kind
  Calm-require_account_kind id expected = record {
    run = λ w valid. elim (Option-cases (load w.cache id)) [
      | inl miss ↦
          rw (miss, require_account_kind)
            ((Calm-bind (Calm-ledger_lookup_account id)
                (λ found. Calm-admit_account id expected found)).run
              w valid)
      | inr (m, hit) ↦
          rw (hit, require_account_kind)
            ((Calm-if (kind_eq m.kind expected) (Calm-pure m) (Calm-raise _ refl)).run w valid)
    ];
  }

  context_error-IsCalm : (reason : ContextError) → IsCalmError (context_error reason)
  context_error-IsCalm ContextError.canceled = refl
  context_error-IsCalm ContextError.deadline_exceeded = refl

  pub Calm-evaluate_risk : (amount : ℕ) → Calm (evaluate_risk s amount)
  unfolding evaluate_risk
  Calm-evaluate_risk amount = record {
    run = λ w valid. elim (Bool-cases (ltb_ℤ (pos 0) s.risk_delay)) [
      | inr at_once ↦ rw (at_once, evaluate_risk) (valid, refl)
      | inl delayed ↦ elim (Option-cases (s.env.wait (pos_part s.risk_delay) w.env).0) [
        | inl elapsed ↦
            rw (delayed, elapsed, evaluate_risk)
              (
                remember_others-IsValid (s.env.others (s.env.wait (pos_part s.risk_delay) w.env).1)
                    w.cache valid,
                refl,
              )
        | inr (reason, ended) ↦
            rw (delayed, ended, evaluate_risk)
              (
                remember_others-IsValid (s.env.others (s.env.wait (pos_part s.risk_delay) w.env).1)
                    w.cache valid,
                context_error-IsCalm reason,
              )
      ]
    ];
  }
