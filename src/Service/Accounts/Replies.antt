-- ===== src/Service/Accounts/Replies.antt =====
-- What an answer of `CreateAccount` and of `Balance` (internal/service/service.go) says of the ledger.
use ledger_service.Prelude.{ℕ, ◌≡◌, ◌≢◌, ◌⊎◌, some, String, arith, ◌∷◌, []}
use ledger_service.Cache.{AccountMetadata}
use ledger_service.Domain.{
  card_wallet, corporate_wallet, CreateAccountRequest, AccountResponse, BalanceResponse, Error,
  Result, ok, err,
}
use ledger_service.Recipe.Laws.{IsAccount}
use ledger_service.Sdk.{Account, AccountResult, AccountStatus, Sdk, done}
use ledger_service.Service.Ids.{account_id, parse_public_id, public_id}
use ledger_service.Service.Metadata.Balances.{HasBalances}
use ledger_service.Service.Metadata.Laws.{Follows}
use ledger_service.Service.Rules.Ledger.{Replied}
use ledger_service.Service.Rules.{LedgerLaws, account_entry, Backed, Backed-Later, Later}
use ledger_service.Service.World.{Service}

-- the text of an ID in an answer, empty for none
abbrev pub IsPublicText : Sdk → ℕ → String → Type 0
IsPublicText sdk id text = ((id ≡ 0) × (text ≡ "")) ⊎ ((id ≢ 0) × (text ≡ sdk.uint128_string id))

pub public_id-IsPublicText : (sdk : Sdk) (id : ℕ) → IsPublicText sdk id (public_id sdk id)
unfolding public_id
public_id-IsPublicText sdk id = ground arith

module _ {S : Type 0} (s : Service S) (laws : LedgerLaws s.env) where
  -- The answer is the balance of the account in the ledger's reply to a lookup of the ID that the request names.
  pub record IsBalanceOf (id_value : String) (response : BalanceResponse) (e : S) : Type 0 where
    pub id : ℕ
    pub found : Account
    pub metadata : AccountMetadata
    pub asked : S
    pub id_named : parse_public_id s.sdk id_value ≡ some id
    pub replied : (s.env.lookup_accounts (id ∷ []) asked).0 ≡ done (found ∷ [])
    pub kept : Later s laws (s.env.lookup_accounts (id ∷ []) asked).1 e
    pub held : laws.Holds e (account_entry found) × (found.id ≡ id)
    pub follows : Follows s.sdk s.ledger_id found metadata
    pub answered_id : response.account_id ≡ s.sdk.uint128_string id
    pub answered_kind : response.kind ≡ metadata.kind
    pub answered_parent : IsPublicText s.sdk found.user_data_128 response.corporate_account_id
    pub answered_debits :
        (response.debits_pending ≡ found.debits_pending)
        × (response.debits_posted ≡ found.debits_posted)
    pub answered_credits :
        (response.credits_pending ≡ found.credits_pending)
        × (response.credits_posted ≡ found.credits_posted)
    pub answered_balances :
        HasBalances metadata.kind found response.posted_balance response.available_balance
    pub answered_at : response.timestamp ≡ found.timestamp

  pub IsBalance : String → Result BalanceResponse → S → Type 0
  IsBalance id_value (err _) e = Unit
  IsBalance id_value (ok response) e = IsBalanceOf id_value response e

  pub IsBalance-err : (id_value : String) (error : Error) (e : S) → IsBalance id_value (err error) e
  unfolding IsBalance
  IsBalance-err id_value error e = tt

  pub IsBalance-ok :
      (id_value : String) (response : BalanceResponse) (e : S)
      → IsBalanceOf id_value response e
      → IsBalance id_value (ok response) e
  unfolding IsBalance
  IsBalance-ok id_value response e h = h

  abbrev pub IsWallet : CreateAccountRequest → Type 0
  IsWallet request = (request.kind ≡ corporate_wallet) ⊎ (request.kind ≡ card_wallet)

  -- the parent of a card is the corporate wallet that the request names, which the ledger has
  abbrev pub ParentNamed : CreateAccountRequest → ℕ → S → Type 0
  ParentNamed request parent e =
      request.kind ≡ card_wallet
      → (account_id s.sdk "corporate_account_id" request.corporate_account_id ≡ ok parent)
        × ((m : AccountMetadata) × Backed s laws e parent m × (m.kind ≡ corporate_wallet))

  -- The answer reports the account of the request, and the ledger's reply to its creation.
  pub record IsCreated (request : CreateAccountRequest) (a : Account) (q : AccountResult)
      (id parent : ℕ) (e : S) (response : AccountResponse) : Type 0 where
    pub id_named : account_id s.sdk "account_id" request.account_id ≡ ok id
    pub wallet : IsWallet request
    pub parent_named : ParentNamed request parent e
    pub built : IsAccount s.sdk request.kind id parent s.ledger_id a
    pub replied : Replied s laws a q e
    pub held : laws.Holds e (account_entry a)
    pub answered_id : response.account_id ≡ s.sdk.uint128_string id
    pub answered_kind : response.kind ≡ request.kind
    pub answered_parent : IsPublicText s.sdk parent response.corporate_account_id
    pub answered_at : response.timestamp ≡ q.timestamp

  -- what the answer says of the ledger's result
  abbrev pub IsOutcome : AccountStatus → String → ℕ → Type 0
  IsOutcome status text http_status =
      ((status ≡ AccountStatus.created) × (text ≡ "created") × (http_status ≡ 201))
      ⊎ ((status ≡ AccountStatus.exists) × (text ≡ "exists") × (http_status ≡ 200))

  pub IsCreation : CreateAccountRequest → Result (AccountResponse × ℕ) → S → Type 0
  IsCreation request (err _) e = Unit
  IsCreation request (ok (response, http_status)) e =
      (a : Account) × (q : AccountResult) × (id : ℕ) × (parent : ℕ) × IsCreated request a q id
        parent e response
      × IsOutcome q.status response.status http_status

  pub IsCreation-err :
      (request : CreateAccountRequest) (error : Error) (e : S) → IsCreation request (err error) e
  unfolding IsCreation
  IsCreation-err request error e = tt

  pub IsCreation-ok :
      (request : CreateAccountRequest) (a : Account) (q : AccountResult) (id parent : ℕ) (e : S)
      (response : AccountResponse) (http_status : ℕ)
      → IsCreated request a q id parent e response
      → IsOutcome q.status response.status http_status
      → IsCreation request (ok (response, http_status)) e
  unfolding IsCreation
  IsCreation-ok request a q id parent e response http_status h outcome =
      (a, q, id, parent, h, outcome)

  pub ParentNamed-Later :
      {e e' : S} (request : CreateAccountRequest) (parent : ℕ)
      → Later s laws e e'
      → ParentNamed request parent e
      → ParentNamed request parent e'
  ParentNamed-Later request parent later named card =
      let (read, (m, backed, kind)) = named card in
      (read, (m, Backed-Later s laws parent m later backed, kind))

  pub IsCreated-Later :
      {e e' : S} {request : CreateAccountRequest} {a : Account} {q : AccountResult} {id parent : ℕ}
      {response : AccountResponse}
      → Later s laws e e'
      → IsCreated request a q id parent e response
      → IsCreated request a q id parent e' response
  IsCreated-Later {request = request} {a} {q} {parent = parent} later h = record {
    id_named = h.id_named;
    wallet = h.wallet;
    parent_named = ParentNamed-Later request parent later h.parent_named;
    built = h.built;
    replied = (h.replied.0, h.replied.1, λ x held. later x (h.replied.2 x held));
    held = later (account_entry a) h.held;
    answered_id = h.answered_id;
    answered_kind = h.answered_kind;
    answered_parent = h.answered_parent;
    answered_at = h.answered_at;
  }
