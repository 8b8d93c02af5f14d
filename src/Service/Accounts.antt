-- ===== src/Service/Accounts.antt =====
-- The accounts of the API (internal/service/service.go): the system accounts at the start, the
-- creation of a wallet, and the balance of an account.
pub mod Replies
pub mod Answers
pub mod System
pub mod Provisioning
use ledger_service.Prelude.{
  ℕ, Bool, true, false, not, ◌==◌, ◌&&◌, String, str_eq, Option, none, some, if◌then◌else◌,
}
use ledger_service.Domain.{
  AccountKind, safeguarded_cash, corporate_wallet, card_wallet, card_settlement_payable, kind_eq,
  CreateAccountRequest, AccountResponse, BalanceResponse, invalid_request, account_not_found,
  idempotency_conflict, rejected, Result, ok, err,
}
use ledger_service.Cache.{AccountMetadata}
use ledger_service.Recipe.{account, safeguarded_cash_account_id, card_settlement_payable_account_id}
use ledger_service.Sdk.{Account, AccountResult, AccountStatus}
use ledger_service.Service.Calls.{
  ledger_create_account, ledger_lookup_account, remember_account, require_account_kind,
}
use ledger_service.Service.Ids.{account_id, parse_public_id, validate_external_id, public_id}
use ledger_service.Service.Metadata.{metadata_for_account, balances}
use ledger_service.Service.Status.{is_account_idempotency_conflict}
use ledger_service.Service.World.{Service, M, ◌>>=◌, ◌>>◌, pure, raise, lift, fail_if}

-- `result.Status != tb.AccountCreated && result.Status != tb.AccountExists`
abbrev pub is_provisioned : AccountStatus → Bool
is_provisioned AccountStatus.created = true
is_provisioned AccountStatus.exists = true
is_provisioned _ = false

module _ {S : Type 0} (s : Service S) where
  -- one round of the loop of `EnsureSystemAccounts`
  unfoldable pub ensure_account : AccountKind → ℕ → M S (Unit {0})
  unfolding account ledger_create_account remember_account
  ensure_account kind id = do
    created ← lift (account s.sdk kind id 0 s.ledger_id)
    result ← ledger_create_account s created
    fail_if (not (is_provisioned result.status))
        (rejected (s.sdk.account_status_string result.status))
    remember_account s created

  -- `EnsureSystemAccounts`
  unfoldable pub ensure_system_accounts : M S (Unit {0})
  unfolding ensure_account
  ensure_system_accounts = do
    ensure_account safeguarded_cash safeguarded_cash_account_id
    ensure_account card_settlement_payable card_settlement_payable_account_id

  -- the parent's ID, checked: the `if` of `CreateAccount` on the kind of the request
  unfoldable pub parent_id : ℕ → CreateAccountRequest → M S ℕ
  unfolding account_id require_account_kind
  parent_id id request =
      if kind_eq request.kind card_wallet
      then (do
        corporate ← lift (account_id s.sdk "corporate_account_id" request.corporate_account_id)
        fail_if (corporate == id)
            (invalid_request "card account cannot be its own corporate account")
        wallet ← require_account_kind s corporate corporate_wallet
        pure corporate)
      else if not (str_eq request.corporate_account_id "")
      then raise (invalid_request "corporate_account_id is only valid for card_wallet")
      else pure 0

  -- the `switch` on the ledger's result; the response's status is filled in by the branch
  unfoldable pub answer_creation :
      Account → AccountResponse → AccountResult → M S (AccountResponse × ℕ)
  unfolding remember_account is_account_idempotency_conflict
  answer_creation created response result = elim result.status [
    | AccountStatus.created ↦ do
      remember_account s created
      pure (record response { status = "created" }, 201)
    | AccountStatus.exists ↦ do
      remember_account s created
      pure (record response { status = "exists" }, 200)
    | status ↦
        if is_account_idempotency_conflict status
        then raise idempotency_conflict
        else raise (rejected (s.sdk.account_status_string status))
  ]

  -- `CreateAccount`
  unfoldable pub create_account : CreateAccountRequest → M S (AccountResponse × ℕ)
  unfolding account account_id parent_id ledger_create_account public_id answer_creation
  create_account request = do
    id ← lift (account_id s.sdk "account_id" request.account_id)
    fail_if (not (kind_eq request.kind corporate_wallet) && not (kind_eq request.kind card_wallet))
        (invalid_request "kind must be corporate_wallet or card_wallet")
    corporate ← parent_id id request
    created ← lift (account s.sdk request.kind id corporate s.ledger_id)
    result ← ledger_create_account s created
    answer_creation created
        (record {
          account_id = s.sdk.uint128_string created.id;
          kind = request.kind;
          corporate_account_id = public_id s.sdk corporate;
          status = "";
          timestamp = result.timestamp;
        })
        result

  abbrev account_parsed : Option ℕ → Result ℕ
  account_parsed none =
      err (invalid_request "account_id must be a non-zero 128-bit hexadecimal TigerBeetle ID")
  account_parsed (some id) = ok id

  -- the response of `Balance`; the amounts are the numbers that its texts print
  unfoldable pub balance_response : Account → AccountMetadata → BalanceResponse
  unfolding balances public_id
  balance_response found metadata =
      let (posted, available) = balances found metadata.kind in
      record {
        account_id = s.sdk.uint128_string found.id;
        kind = metadata.kind;
        corporate_account_id = public_id s.sdk found.user_data_128;
        debits_pending = found.debits_pending;
        debits_posted = found.debits_posted;
        credits_pending = found.credits_pending;
        credits_posted = found.credits_posted;
        posted_balance = posted;
        available_balance = available;
        timestamp = found.timestamp;
      }

  -- the end of `Balance`, from what was found
  unfoldable pub balance_found : Option Account → M S BalanceResponse
  unfolding metadata_for_account remember_account balance_response
  balance_found none = raise account_not_found
  balance_found (some found) = elim (metadata_for_account s.sdk s.ledger_id found) [
    | none ↦ raise account_not_found
    | some metadata ↦ do remember_account s found; pure (balance_response found metadata)
  ]

  -- `Balance`
  unfoldable pub balance : String → M S BalanceResponse
  unfolding validate_external_id parse_public_id ledger_lookup_account balance_found
  balance account_id_value = do
    lift (validate_external_id "account_id" account_id_value)
    id ← lift (account_parsed (parse_public_id s.sdk account_id_value))
    found ← ledger_lookup_account s id
    balance_found found
