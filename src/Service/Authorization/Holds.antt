-- ===== src/Service/Authorization/Holds.antt =====
-- What `Authorize` (internal/service/operations.go) may send to the ledger, and what it may answer where it sends
-- nothing.
use ledger_service.Prelude.{ℕ, true, ◌≡◌, ◌≢◌, refl, take, drop, ◌⊎◌, ◌≤◌, none, some}
use ledger_service.Prelude.Int.{ℤ}
use ledger_service.Cache.{AccountMetadata}
use ledger_service.Clock.{time_add, unix_time, whole_seconds}
use Prim.Native.String.{◌++◌}
use ledger_service.Recipe.{card_settlement_payable_account_id, transfer_code_authorization}
use ledger_service.Service.Authorization.Same.{same_transfer_iff}
use ledger_service.Domain.{
  card_wallet, AuthorizationRequest, AuthorizationResponse, Error, Result, ok, err,
}
use ledger_service.Sdk.{Transfer, zero_transfer, TransferStatus}
use ledger_service.Service.Authorization.{
  little_endian_value, merchant_fingerprint, same_transfer, authorization_transfer,
  replayed_authorization, declined_authorization,
}
use ledger_service.Service.Ids.{account_id, request_id, validate_external_id}
use ledger_service.Service.Rules.{LedgerLaws, transfer_entry, Backed, Backed-Later, Later}
use ledger_service.Service.World.{Service}

module _ {S : Type 0} (s : Service S) (laws : LedgerLaws s.env)
    (request : AuthorizationRequest) where
  -- the hold that the request asks for, a pending transfer from the card to the settlement account
  abbrev pub hold_of : ℕ → ℕ → Transfer
  hold_of id card =
      let sum = s.sdk.sum256 ("ledger-service:v1:merchant:" ++ request.merchant_id) in
      record zero_transfer {
        id = id;
        debit_account_id = card;
        credit_account_id = card_settlement_payable_account_id;
        amount = request.amount_cents;
        user_data_128 = id;
        user_data_64 = little_endian_value (take 8 sum);
        user_data_32 = little_endian_value (take 4 (drop 8 sum));
        timeout = whole_seconds s.authorization_timeout;
        ledger = s.ledger_id;
        code = transfer_code_authorization;
        flags = s.sdk.pending;
      }

  -- the refusal of an amount above the limit
  pub record IsRefusal (response : AuthorizationResponse) : Type 0 where
    pub request_kept : response.request_id ≡ request.request_id
    pub nothing_held : (response.hold_transfer_id ≡ "") × (response.expires_at ≡ none)
    pub declined : (response.status ≡ "declined") × (response.ledger_status ≡ "not_submitted")
    pub reason : response.error_code ≡ "risk_limit_exceeded"

  -- The approval of a hold that the ledger has under the ID of the request, and that is the one asked for, but for
  -- the time at which the ledger took it.
  pub record IsReplay (response : AuthorizationResponse) (e : S) : Type 0 where
    pub id : ℕ
    pub card : ℕ
    pub existing : Transfer
    pub id_named : request_id s.sdk request.request_id ≡ ok id
    pub card_named : account_id s.sdk "card_id" request.card_id ≡ ok card
    pub held : laws.Holds e (transfer_entry existing) × (existing.id ≡ id)
    pub same : record existing { timestamp = 0 } ≡ hold_of id card
    pub request_kept : response.request_id ≡ request.request_id
    pub hold_named : response.hold_transfer_id ≡ request.request_id
    pub approved :
        (response.status ≡ "approved")
        × (response.ledger_status ≡ s.sdk.transfer_status_string TransferStatus.exists)
    pub taken_at : response.timestamp ≡ existing.timestamp
    pub expires :
        response.expires_at ≡ some (time_add (unix_time existing.timestamp) s.authorization_timeout)

  -- What `Authorize` returns where it sends nothing: an error, or the answer to an amount above the
  -- limit, which is a refusal, or the approval of the hold asked for, which the ledger has already.
  unfoldable pub IsUnsent : Result (AuthorizationResponse × ℕ) → S → Type 0
  IsUnsent (err _) e = Unit
  IsUnsent (ok (response, http_status)) e =
      ¬ (request.amount_cents ≤ s.risk_limit_cents)
      × (http_status ≡ 200)
      × (IsRefusal response ⊎ IsReplay response e)

  pub IsUnsent-err : (error : Error) (e : S) → IsUnsent (err error) e
  unfolding IsUnsent
  IsUnsent-err error e = tt

  pub declined_authorization-IsRefusal : (ms : ℤ) → IsRefusal (declined_authorization s request ms)
  unfolding declined_authorization
  declined_authorization-IsRefusal ms = record {
    request_kept = refl;
    nothing_held = (refl, refl);
    declined = (refl, refl);
    reason = refl;
  }

  pub authorization_transfer-hold_of :
      (id card : ℕ) → authorization_transfer s id card request ≡ hold_of id card
  unfolding authorization_transfer merchant_fingerprint
  authorization_transfer-hold_of id card = refl

  same_hold :
      (existing : Transfer) (id card : ℕ)
      → same_transfer existing (authorization_transfer s id card request) ≡ true
      → record existing { timestamp = 0 } ≡ hold_of id card
  unfolding authorization_transfer merchant_fingerprint
  same_hold existing id card same =
      (same_transfer_iff existing (authorization_transfer s id card request)).0 same

  pub replayed_authorization-IsReplay :
      (ms : ℤ) (id card : ℕ) (existing : Transfer) (e : S)
      → request_id s.sdk request.request_id ≡ ok id
      → account_id s.sdk "card_id" request.card_id ≡ ok card
      → same_transfer existing (authorization_transfer s id card request) ≡ true
      → laws.Holds e (transfer_entry existing) × (existing.id ≡ id)
      → IsReplay (replayed_authorization s request ms existing) e
  unfolding replayed_authorization
  replayed_authorization-IsReplay ms id card existing e id_named card_named same held = record {
    id = id;
    card = card;
    existing = existing;
    id_named = id_named;
    card_named = card_named;
    held = held;
    same = same_hold existing id card same;
    request_kept = refl;
    hold_named = refl;
    approved = (refl, refl);
    taken_at = refl;
    expires = refl;
  }

  -- The hold that is sent: the pending transfer of the request, from a card that the ledger has, with
  -- an amount within the limit of the risk evaluation.
  pub record IsHold (e : S) (t : Transfer) : Type 0 where
    pub id : ℕ
    pub card : ℕ
    pub wallet : AccountMetadata
    pub id_named : request_id s.sdk request.request_id ≡ ok id
    pub card_named : account_id s.sdk "card_id" request.card_id ≡ ok card
    pub merchant_valid : validate_external_id "merchant_id" request.merchant_id ≡ ok tt
    pub amount_positive : request.amount_cents ≢ 0
    pub amount_within : request.amount_cents ≤ s.risk_limit_cents
    pub card_backed : Backed s laws e card wallet
    pub card_kind : wallet.kind ≡ card_wallet
    pub built : t ≡ hold_of id card

  -- a hold stays one as long as no account is lost
  pub IsHold-Later : {e e' : S} {t : Transfer} → Later s laws e e' → IsHold e t → IsHold e' t
  IsHold-Later later hold = record {
    id = hold.id;
    card = hold.card;
    wallet = hold.wallet;
    id_named = hold.id_named;
    card_named = hold.card_named;
    merchant_valid = hold.merchant_valid;
    amount_positive = hold.amount_positive;
    amount_within = hold.amount_within;
    card_backed = Backed-Later s laws hold.card hold.wallet later hold.card_backed;
    card_kind = hold.card_kind;
    built = hold.built;
  }
