-- ===== src/Service/Increment/Increments.antt =====
-- What `IncrementAuthorization` (internal/service/operations.go) may send to the ledger, and what it may answer where
-- it sends nothing.
use ledger_service.Prelude.{
  ℕ, ◌*◌, true, false, ◌≡◌, ◌≢◌, refl, ◌⊎◌, inl, inr, ◌≤◌, String, some, arith,
}
use ledger_service.Prelude.Int.{ℤ, pos, leb_ℤ}
use ledger_service.Cache.{AccountMetadata}
use ledger_service.Clock.{time_add, time_sub, unix_time}
use ledger_service.Recipe.{
  card_settlement_payable_account_id, transfer_code_authorization,
  transfer_code_authorization_increment,
}
use ledger_service.Domain.{
  card_wallet, IncrementAuthorizationRequest, IncrementAuthorizationResponse, Error, Result, ok,
  err,
}
use ledger_service.Sdk.{Transfer, zero_transfer, TransferStatus}
use ledger_service.Service.Authorization.Same.{same_transfer_except_timeout_iff}
use ledger_service.Service.Authorization.{same_transfer_except_timeout}
use ledger_service.Service.Increment.{
  increment_timeout, is_not_open, increment_failure, replayed_increment, increment_transfer,
}
use ledger_service.Service.Ids.{parse_public_id, request_id}
use ledger_service.Service.Rules.{LedgerLaws, transfer_entry, Backed, Backed-Later, Later}
use ledger_service.Service.World.{Service}

module _ {S : Type 0} (s : Service S) (laws : LedgerLaws s.env)
    (request : IncrementAuthorizationRequest) where
  -- An open authorization of the service's ledger: a pending transfer to the settlement account, with the code of an
  -- authorization, which is the first of its group and has a timeout.
  pub record IsOpen (t : Transfer) : Type 0 where
    pub is_pending : t.flags ≡ s.sdk.pending
    pub is_authorization : t.code ≡ transfer_code_authorization
    pub of_ledger : t.ledger ≡ s.ledger_id
    pub to_settlement : t.credit_account_id ≡ card_settlement_payable_account_id
    pub is_first : (t.user_data_128 ≡ t.id) × (t.pending_id ≡ 0)
    pub is_timed : t.timeout ≢ 0

  -- the increment of an authorization, a pending transfer of its group between the same accounts
  abbrev pub increment_of : Transfer → ℕ → ℕ → ℕ → Transfer
  increment_of original increment_id authorization_id timeout = record zero_transfer {
    id = increment_id;
    debit_account_id = original.debit_account_id;
    credit_account_id = original.credit_account_id;
    amount = request.increment_cents;
    user_data_128 = authorization_id;
    user_data_64 = original.user_data_64;
    user_data_32 = original.user_data_32;
    timeout = timeout;
    ledger = s.ledger_id;
    code = transfer_code_authorization_increment;
    flags = s.sdk.pending;
  }

  -- the time that is left of an authorization at a reading of the clock
  abbrev pub time_left_of : Transfer → ℕ → ℤ
  time_left_of original read_at =
      time_sub (time_add (unix_time original.timestamp) (pos (original.timeout * 1_000_000_000)))
        read_at

  -- the original that a request names, an open authorization that the ledger has
  pub record IsOriginal (e : S) (authorization_id : ℕ) (original : Transfer) : Type 0 where
    pub authorization_named : parse_public_id s.sdk request.authorization_id ≡ some authorization_id
    pub original_held : laws.Holds e (transfer_entry original) × (original.id ≡ authorization_id)
    pub original_open : IsOpen original

  -- The increment that is sent: a pending transfer of the group of an open authorization that the
  -- ledger has, from its card, which the ledger has too, with an amount within the limit of the risk
  -- evaluation, and with the timeout for the time that was left of the original when it was read.
  pub record IsIncrement (e : S) (t : Transfer) : Type 0 where
    pub authorization_id : ℕ
    pub increment_id : ℕ
    pub original : Transfer
    pub card : AccountMetadata
    pub read_at : ℕ
    pub original_named : IsOriginal e authorization_id original
    pub increment_named : request_id s.sdk request.request_id ≡ ok increment_id
    pub ids_differ : increment_id ≢ authorization_id
    pub amount_positive : request.increment_cents ≢ 0
    pub amount_within : request.increment_cents ≤ s.risk_limit_cents
    pub card_backed : Backed s laws e original.debit_account_id card
    pub card_kind : card.kind ≡ card_wallet
    pub read_in : S
    pub read_now : read_at ≡ (s.env.now read_in).0
    pub time_left : leb_ℤ (time_left_of original read_at) (pos 0) ≡ false
    pub built :
        t
        ≡ increment_of original increment_id authorization_id
            (increment_timeout (time_left_of original read_at) original.timeout)

  -- The refusal of an increment, with nothing sent: of an amount above the limit of the risk evaluation, or for an
  -- authorization that is not open.
  pub record IsRefusal (response : IncrementAuthorizationResponse) (http_status : ℕ) : Type 0 where
    pub declined : (response.status ≡ "declined") × (response.ledger_status ≡ "not_submitted")
    pub nothing_held : response.hold_transfer_id ≡ ""
    pub reason :
        ((response.error_code ≡ "risk_limit_exceeded")
          × (http_status ≡ 200)
          × ¬ (request.increment_cents ≤ s.risk_limit_cents))
        ⊎ ((response.error_code ≡ "authorization_not_open") × (http_status ≡ 409))

  -- The approval of an increment that the ledger has under the ID of the request, and that is the one asked for of an
  -- open authorization that the ledger has, whatever the timeout, and the time at which the ledger took it.
  pub record IsReplay (response : IncrementAuthorizationResponse) (e : S) : Type 0 where
    pub authorization_id : ℕ
    pub increment_id : ℕ
    pub original : Transfer
    pub existing : Transfer
    pub original_named : IsOriginal e authorization_id original
    pub increment_named : request_id s.sdk request.request_id ≡ ok increment_id
    pub held : laws.Holds e (transfer_entry existing) × (existing.id ≡ increment_id)
    pub same :
        record existing { timeout = 0; timestamp = 0 }
        ≡ increment_of original increment_id authorization_id 0
    pub approved :
        (response.status ≡ "approved")
        × (response.ledger_status ≡ s.sdk.transfer_status_string TransferStatus.exists)
    pub hold_named : response.hold_transfer_id ≡ request.request_id
    pub taken_at : response.timestamp ≡ existing.timestamp

  -- What `IncrementAuthorization` returns where it sends nothing: an error, a refusal, or the approval
  -- of the increment asked for, whatever its timeout, which the ledger has already.
  pub IsUnsent : Result (IncrementAuthorizationResponse × ℕ) → S → Type 0
  IsUnsent (err _) e = Unit
  IsUnsent (ok (response, http_status)) e =
      IsRefusal response http_status ⊎ ((http_status ≡ 200) × IsReplay response e)

  pub IsUnsent-err : (error : Error) (e : S) → IsUnsent (err error) e
  unfolding IsUnsent
  IsUnsent-err error e = tt

  pub IsUnsent-above :
      (ms : ℤ) (message : String)
      → ¬ (request.increment_cents ≤ s.risk_limit_cents)
      → (e : S) → IsUnsent (ok (increment_failure s request ms "risk_limit_exceeded" message 200)) e
  unfolding IsUnsent increment_failure
  IsUnsent-above ms message above e =
      inl
        (record { declined = (refl, refl); nothing_held = refl; reason = inl (refl, refl, above) })

  pub IsUnsent-not_open :
      (ms : ℤ) (message : String) (e : S)
      → IsUnsent (ok (increment_failure s request ms "authorization_not_open" message 409)) e
  unfolding IsUnsent increment_failure
  IsUnsent-not_open ms message e =
      inl (record { declined = (refl, refl); nothing_held = refl; reason = inr (refl, refl) })

  pub increment_transfer-increment_of :
      (original : Transfer) (increment_id authorization_id timeout : ℕ)
      → increment_transfer s request original increment_id authorization_id timeout
        ≡ increment_of original increment_id authorization_id timeout
  unfolding increment_transfer
  increment_transfer-increment_of original increment_id authorization_id timeout = refl

  same_increment :
      (existing original : Transfer) (increment_id authorization_id : ℕ)
      → same_transfer_except_timeout existing
          (increment_transfer s request original increment_id authorization_id 0)
        ≡ true
      → record existing { timeout = 0; timestamp = 0 }
        ≡ increment_of original increment_id authorization_id 0
  unfolding increment_transfer
  same_increment existing original increment_id authorization_id same =
      (same_transfer_except_timeout_iff existing
          (increment_transfer s request original increment_id authorization_id 0)).0
        same

  pub IsUnsent-replayed_increment :
      (ms : ℤ) (existing original : Transfer) (increment_id authorization_id : ℕ) (e : S)
      → request_id s.sdk request.request_id ≡ ok increment_id
      → IsOriginal e authorization_id original
      → laws.Holds e (transfer_entry existing) × (existing.id ≡ increment_id)
      → same_transfer_except_timeout existing
          (increment_transfer s request original increment_id authorization_id 0)
        ≡ true
      → IsUnsent (ok (replayed_increment s request ms existing, 200)) e
  unfolding IsUnsent replayed_increment
  IsUnsent-replayed_increment ms existing original increment_id authorization_id e named known held
        same =
      inr (
        refl,
        record {
          authorization_id = authorization_id;
          increment_id = increment_id;
          original = original;
          existing = existing;
          original_named = known;
          increment_named = named;
          held = held;
          same = same_increment existing original increment_id authorization_id same;
          approved = (refl, refl);
          hold_named = refl;
          taken_at = refl;
        },
      )

  pub IsOriginal-Later :
      {e e' : S} (authorization_id : ℕ) (original : Transfer)
      → Later s laws e e'
      → IsOriginal e authorization_id original
      → IsOriginal e' authorization_id original
  IsOriginal-Later authorization_id original later known = record {
    authorization_named = known.authorization_named;
    original_held = (later (transfer_entry original) known.original_held.0, known.original_held.1);
    original_open = known.original_open;
  }

  -- an increment stays one as long as nothing is lost
  pub IsIncrement-Later :
      {e e' : S} {t : Transfer} → Later s laws e e' → IsIncrement e t → IsIncrement e' t
  IsIncrement-Later later sent = record {
    authorization_id = sent.authorization_id;
    increment_id = sent.increment_id;
    original = sent.original;
    card = sent.card;
    read_at = sent.read_at;
    original_named = IsOriginal-Later sent.authorization_id sent.original later sent.original_named;
    increment_named = sent.increment_named;
    ids_differ = sent.ids_differ;
    amount_positive = sent.amount_positive;
    amount_within = sent.amount_within;
    card_backed =
        Backed-Later s laws sent.original.debit_account_id sent.card later sent.card_backed;
    card_kind = sent.card_kind;
    read_in = sent.read_in;
    read_now = sent.read_now;
    time_left = sent.time_left;
    built = sent.built;
  }

  pub is_not_open-IsOpen : (t : Transfer) → is_not_open s t ≡ false → IsOpen t
  unfolding is_not_open
  is_not_open-IsOpen t opened = record {
    is_pending = ground arith;
    is_authorization = ground arith;
    of_ledger = ground arith;
    to_settlement = ground arith;
    is_first = (ground arith, ground arith);
    is_timed = ground arith;
  }
