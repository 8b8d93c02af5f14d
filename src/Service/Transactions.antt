-- ===== src/Service/Transactions.antt =====
-- The posted transfers (internal/service/operations.go): top-ups, withdrawals, and the moves of funds
-- to a card and back.
pub mod Submission
use ledger_service.Prelude.{ℕ, Bool, true, false, not, ◌==◌, String, List, [], ◌∷◌, if◌then◌else◌}
use ledger_service.Domain.{
  OperationKind, topup, withdrawal, card_allocation, card_return, corporate_wallet, card_wallet,
  TopUpRequest, WithdrawalRequest, CardAllocationRequest, CardReturnRequest, TransactionResponse,
  Error, invalid_request, idempotency_conflict, Result, ok, err,
}
use ledger_service.Recipe.{
  safeguarded_cash_account_id, transfer_code_top_up, transfer_code_withdrawal,
  transfer_code_card_allocation, transfer_code_card_return,
}
use ledger_service.Sdk.{Transfer, zero_transfer, TransferResult}
use ledger_service.Service.Calls.{positive_amount, ledger_create_transfer, require_account_kind}
use ledger_service.Service.Ids.{account_id, request_id}
use ledger_service.Service.Status.{is_idempotency_conflict, is_success, error_code}
use ledger_service.Service.World.{
  Service, M, ◌>>=◌, ◌>>◌, pure, raise, lift, fail_if, attempt, now, observe_completion, Attribute,
  text, error,
}

-- `response` and `httpStatus` of `executeTransaction`, from a result that is no conflict
unfoldable pub transaction_response :
    {S : Type 0} → Service S → String → String → TransferResult → TransactionResponse × ℕ
unfolding error_code
transaction_response s request_id success_status result =
    let response : TransactionResponse = record {
      request_id = request_id;
      transaction_id = request_id;
      status = "";
      ledger_status = s.sdk.transfer_status_string result.status;
      timestamp = result.timestamp;
      error_code = "";
      message = "";
    } in
    if is_success result.status
    then (record response { status = success_status }, 200)
    else (let (code, message, http_status) = error_code result.status in
        (record response { status = "failed"; error_code = code; message = message }, http_status))

module _ {S : Type 0} (s : Service S) where
  abbrev account_attributes : Transfer → List (String × Attribute)
  account_attributes transfer =
      ("debit_account_id", text (s.sdk.uint128_string transfer.debit_account_id))
      ∷ ("credit_account_id", text (s.sdk.uint128_string transfer.credit_account_id))
      ∷ []

  -- what `executeTransaction` does with the ledger's answer
  unfoldable pub complete_transaction :
      OperationKind
      → String
      → Transfer
      → String
      → ℕ
      → Result TransferResult
      → M S (TransactionResponse × ℕ)
  unfolding observe_completion is_idempotency_conflict transaction_response
  complete_transaction kind request_id transfer success_status started (err e) = do
    observe_completion s kind request_id "unknown" (s.sdk.uint128_uint64 transfer.amount) started
        "request_error" (("error", error e) ∷ account_attributes transfer)
    raise e
  complete_transaction kind request_id transfer success_status started (ok result) =
      if is_idempotency_conflict result.status
      then (do
        observe_completion s kind request_id "conflict" (s.sdk.uint128_uint64 transfer.amount)
            started (s.sdk.transfer_status_string result.status) (account_attributes transfer)
        raise idempotency_conflict)
      else (let answer = transaction_response s request_id success_status result in
          do
            observe_completion s kind request_id answer.0.status
                (s.sdk.uint128_uint64 transfer.amount) started
                (s.sdk.transfer_status_string result.status) (account_attributes transfer)
            pure answer)

  -- `executeTransaction`
  unfoldable pub execute_transaction :
      OperationKind → String → Transfer → String → M S (TransactionResponse × ℕ)
  unfolding now ledger_create_transfer complete_transaction
  execute_transaction kind request_id transfer success_status = do
    started ← now s
    result ← attempt (ledger_create_transfer s transfer)
    complete_transaction kind request_id transfer success_status started result

  -- `TopUp`
  unfoldable pub top_up : TopUpRequest → M S (TransactionResponse × ℕ)
  unfolding account_id request_id require_account_kind execute_transaction
  top_up request = do
    account ← lift (account_id s.sdk "account_id" request.account_id)
    fail_if (request.amount_cents == 0) positive_amount
    id ← lift (request_id s.sdk request.request_id)
    wallet ← require_account_kind s account corporate_wallet
    execute_transaction topup request.request_id
        (record zero_transfer {
          id = id;
          debit_account_id = safeguarded_cash_account_id;
          credit_account_id = account;
          amount = request.amount_cents;
          ledger = s.ledger_id;
          code = transfer_code_top_up;
        })
        "posted"

  -- `Withdraw`
  unfoldable pub withdraw : WithdrawalRequest → M S (TransactionResponse × ℕ)
  unfolding account_id request_id require_account_kind execute_transaction
  withdraw request = do
    account ← lift (account_id s.sdk "account_id" request.account_id)
    fail_if (request.amount_cents == 0) positive_amount
    id ← lift (request_id s.sdk request.request_id)
    wallet ← require_account_kind s account corporate_wallet
    execute_transaction withdrawal request.request_id
        (record zero_transfer {
          id = id;
          debit_account_id = account;
          credit_account_id = safeguarded_cash_account_id;
          amount = request.amount_cents;
          ledger = s.ledger_id;
          code = transfer_code_withdrawal;
        })
        "posted"

  -- the transfer that `moveCardFunds` builds
  abbrev pub card_transfer : ℕ → ℕ → ℕ → ℕ → Bool → Transfer
  card_transfer id corporate card amount_cents return_to_corporate = record zero_transfer {
    id = id;
    debit_account_id = if return_to_corporate then card else corporate;
    credit_account_id = if return_to_corporate then corporate else card;
    amount = amount_cents;
    ledger = s.ledger_id;
    code = if return_to_corporate then transfer_code_card_return else transfer_code_card_allocation;
  }

  -- `moveCardFunds`
  unfoldable pub move_card_funds :
      OperationKind → String → String → String → ℕ → Bool → M S (TransactionResponse × ℕ)
  unfolding account_id request_id require_account_kind execute_transaction
  move_card_funds kind request_id_value account_id_value card_id_value amount_cents
        return_to_corporate =
      do
        corporate ← lift (account_id s.sdk "account_id" account_id_value)
        card ← lift (account_id s.sdk "card_id" card_id_value)
        fail_if (amount_cents == 0) positive_amount
        id ← lift (request_id s.sdk request_id_value)
        wallet ← require_account_kind s corporate corporate_wallet
        card_account ← require_account_kind s card card_wallet
        fail_if (not (card_account.corporate_account_id == corporate))
            (invalid_request "card_id is not linked to account_id")
        execute_transaction kind request_id_value
            (card_transfer id corporate card amount_cents return_to_corporate) "posted"

  -- `AllocateToCard`
  unfoldable pub allocate_to_card : CardAllocationRequest → M S (TransactionResponse × ℕ)
  unfolding move_card_funds
  allocate_to_card request =
      move_card_funds card_allocation request.request_id request.account_id request.card_id
        request.amount_cents false

  -- `ReturnFromCard`
  unfoldable pub return_from_card : CardReturnRequest → M S (TransactionResponse × ℕ)
  unfolding move_card_funds
  return_from_card request =
      move_card_funds card_return request.request_id request.account_id request.card_id
        request.amount_cents true
