-- ===== src/Service/Rules/Calls.antt =====
-- What the calls that the service's methods share ensure of the ledger and of the cache, and what they send.
use ledger_service.Prelude.{
  ℕ, Bool, true, ◌≡◌, refl, ◌∙◌, ap, leb, inl, inr, Option, none, some, List, Bool-cases,
  Option-cases, String,
}
use ledger_service.Prelude.Int.{ltb_ℤ, pos, pos_part}
use ledger_service.Cache.{AccountMetadata, load}
use ledger_service.Domain.{AccountKind, kind_eq, OperationKind, Result, ok}
use ledger_service.Sdk.{Account, Transfer, TransferResult}
use ledger_service.Service.Calls.{
  ledger_create_transfer, ledger_lookup_account, store_metadata, remember_account, admit_account,
  require_account_kind, evaluate_risk,
}
use ledger_service.Service.Metadata.{metadata_for_account}
use ledger_service.Service.Rules.{
  LedgerLaws, account_entry, Backed, Backed-Later, Later, IsSound, Wp, Wp-bind-Quiet, Quiet,
  Submits,
}
use ledger_service.Service.World.{
  Service, World, M, ◌>>=◌, ◌>>◌, pure, lift, attempt, observe_completion, Attribute,
}
use ledger_service.Service.Rules.Backing.{store-IsBacked, IsSound-Later}
use ledger_service.Service.Rules.Ledger.{
  Wp-observe_completion, Wp-ledger_lookup_account, Wp-ledger_create_transfer,
}

module _ {S : Type 0} (s : Service S) (laws : LedgerLaws s.env) where
  -- metadata that the ledger backs, and of the expected kind
  abbrev pub Admitted : ℕ → AccountKind → Result AccountMetadata → S → Type 0
  Admitted id expected r e =
      (m : AccountMetadata) → r ≡ ok m → Backed s laws e id m × (kind_eq m.kind expected ≡ true)

  module _ (w : World S) (sound : IsSound s laws w) where
    -- Storing metadata that the ledger backs never fails, and keeps the cache sound.
    pub Wp-store_metadata :
        (id : ℕ) (m : AccountMetadata)
        → Backed s laws w.env id m
        → Wp s laws (store_metadata s id m) w (Quiet w (λ r _. r ≡ ok tt))
    unfolding store_metadata
    Wp-store_metadata id m new =
        let (c, stored, b) =
          store-IsBacked s laws w.env w.cache id m new (sound.cache_valid, sound.backed) in
        rw (stored, store_metadata)
          (
            record {
              cache_valid = b.0;
              backed = b.1;
              reported = record { metered = sound.reported.metered; idle = sound.reported.idle };
            },
            λ a h. h,
            (refl, refl),
          )

    pub Wp-evaluate_risk :
        (amount : ℕ)
        → Wp s laws
            (evaluate_risk s amount)
            w
            (Quiet w (λ r _. (b : Bool) → r ≡ ok b → leb amount s.risk_limit_cents ≡ b))
    unfolding evaluate_risk
    Wp-evaluate_risk amount = elim (Bool-cases (ltb_ℤ (pos 0) s.risk_delay)) [
      | inr at_once ↦ rw (at_once, evaluate_risk) (sound, λ a h. h, (refl, λ b h. cc))
      | inl delayed ↦
          let later = laws.kept_wait (pos_part s.risk_delay) w.env in
          let sound' =
            IsSound-Later s laws sound later refl
              (record { metered = sound.reported.metered; idle = sound.reported.idle }) in
          elim (Option-cases (s.env.wait (pos_part s.risk_delay) w.env).0) [
            | inl elapsed ↦ rw (delayed, elapsed, evaluate_risk) (sound', later, (refl, λ b h. cc))
            | inr (reason, ended) ↦
                rw (delayed, ended, evaluate_risk) (sound', later, (refl, λ b h. cc))
          ]
    ]

    pub Wp-admit_account :
        (id : ℕ) (expected : AccountKind) (found : Option Account)
        → ((a : Account) → found ≡ some a → laws.Holds w.env (account_entry a) × (a.id ≡ id))
        → Wp s laws (admit_account s id expected found) w (Quiet w (Admitted id expected))
    unfolding admit_account
    Wp-admit_account id expected none held = (sound, λ a h. h, (refl, λ m h. cc))
    Wp-admit_account id expected (some a) held =
        elim (Option-cases (metadata_for_account s.sdk s.ledger_id a)) [
          | inl unknown ↦ rw (unknown, admit_account) (sound, λ a h. h, (refl, λ m h. cc))
          | inr (n, reads) ↦ elim (Bool-cases (kind_eq n.kind expected)) [
            | inr other ↦ rw (reads, admit_account, other) (sound, λ a h. h, (refl, λ m h. cc))
            | inl same ↦
                let backed : Backed s laws w.env id n =
                  (a, (held a refl).0, (held a refl).1, reads) in
                rw (reads, admit_account, same)
                  (Wp-bind-Quiet s laws (store_metadata s id n) (λ _. pure n) w (λ r _. r ≡ ok tt)
                    (Admitted id expected) (Wp-store_metadata id n backed)
                    (λ _ w' sound' later _. (
                      sound',
                      λ a h. h,
                      (
                        refl,
                        λ m h.
                            let e : n ≡ m = cc in
                            rw (← e) (Backed-Later s laws id n later backed, same),
                      ),
                    ))
                    (λ e _ q. cc))
          ]
        ]

    pub Wp-remember_account :
        (a : Account)
        → laws.Holds w.env (account_entry a)
        → Wp s laws (remember_account s a) w (Quiet w (λ r _. r ≡ ok tt))
    unfolding remember_account
    Wp-remember_account a held = elim (Option-cases (metadata_for_account s.sdk s.ledger_id a)) [
      | inl unknown ↦ rw (unknown, remember_account) (sound, λ a h. h, (refl, refl))
      | inr (n, reads) ↦
          rw (reads, remember_account) (Wp-store_metadata a.id n (a, held, refl, reads))
    ]

  -- From a sound state `requireAccountKind` leaves a sound state, loses nothing that the ledger has,
  -- and sends no transfer; what it returns, from the cache or from the ledger, is backed by the
  -- ledger and of the expected kind.
  pub Wp-require_account_kind :
      (w : World S)
      → IsSound s laws w
      → (id : ℕ) (expected : AccountKind)
      → Wp s laws (require_account_kind s id expected) w (Quiet w (Admitted id expected))
  unfolding require_account_kind
  Wp-require_account_kind w sound id expected = elim (Option-cases (load w.cache id)) [
    | inr (n, hit) ↦ elim (Bool-cases (kind_eq n.kind expected)) [
      | inr other ↦ rw (hit, require_account_kind, other) (sound, λ a h. h, (refl, λ m h. cc))
      | inl same ↦
          rw (hit, require_account_kind, same)
            (
              sound,
              λ a h. h,
              (refl, λ m h. let e : n ≡ m = cc in rw (← e) (sound.backed id n hit, same)),
            )
    ]
    | inl miss ↦
        rw (miss, require_account_kind)
          (Wp-bind-Quiet s laws (ledger_lookup_account s id)
            (λ found. admit_account s id expected found) w
            (λ r e. (a : Account) → r ≡ ok (some a) → laws.Holds e (account_entry a) × (a.id ≡ id))
            (Admitted id expected) (Wp-ledger_lookup_account s laws w sound id)
            (λ found w' sound' later held.
              Wp-admit_account w' sound' id expected found (λ a e. held a (ap ok e)))
            (λ e env q m h. cc))
  ]

  -- a report, and then an answer
  pub Wp-report-Later :
      {B : Type 0} (w : World S) (sound : IsSound s laws w) (kind : OperationKind)
      (request_id status : String) (amount started : ℕ) (ledger_status : String)
      (attributes : List (String × Attribute)) (r : Result B) (Q : Result B → S → Type 0)
      → ((e : S) → Later s laws w.env e → Q r e)
      → Wp s laws
          (observe_completion s kind request_id status amount started ledger_status attributes
            >> lift r)
          w
          (Quiet w Q)
  Wp-report-Later w sound kind request_id status amount started ledger_status attributes r Q holds =
      Wp-bind-Quiet s laws
        (observe_completion s kind request_id status amount started ledger_status attributes)
        (λ _. lift r) w (λ r _. r ≡ ok tt) Q
        (Wp-observe_completion s laws w sound kind request_id status amount started ledger_status
          attributes)
        (λ _ w' sound' later _. (sound', λ a h. h, (refl, holds w'.env later))) (λ e env q. cc)

  pub Wp-report :
      {B : Type 0} (w : World S) (sound : IsSound s laws w) (kind : OperationKind)
      (request_id status : String) (amount started : ℕ) (ledger_status : String)
      (attributes : List (String × Attribute)) (r : Result B) (Q : Result B → S → Type 0)
      → ((e : S) → Q r e)
      → Wp s laws
          (observe_completion s kind request_id status amount started ledger_status attributes
            >> lift r)
          w
          (Quiet w Q)
  Wp-report w sound kind request_id status amount started ledger_status attributes r Q holds =
      Wp-report-Later w sound kind request_id status amount started ledger_status attributes r Q
        (λ e _. holds e)

  -- The submission of a transfer, whose error the caller inspects, and what follows it: of the transfer
  -- that is sent `P` holds.
  pub Wp-submission :
      {B : Type 0} (N : Result B → S → Type 0) (P : S → Transfer → Type 0) (w : World S)
      (sound : IsSound s laws w) (t : Transfer) (f : Result TransferResult → M S B)
      → ((e : S) → Later s laws w.env e → P e t)
      → ((r : Result TransferResult) (w' : World S)
          → IsSound s laws w'
          → Wp s laws (f r) w' (Quiet w' (λ _ _. Unit {0})))
      → Wp s laws (attempt (ledger_create_transfer s t) >>= f) w (Submits w N P)
  unfolding ◌>>=◌
  Wp-submission N P w sound t f holds rest =
      let (r, w') = ledger_create_transfer s t w in
      let (sound', later', (sent, _)) = Wp-ledger_create_transfer s laws w sound t in
      let (sound'', later'', (same, _)) = rest r w' sound' in
      let later : Later s laws w.env (f r w').1.env = λ a h. later'' a (later' a h) in
      (sound'', later, inr (t, holds (f r w').1.env later, same ∙ sent))
