-- ===== src/Service/Status.antt =====
-- How the service reads the ledger's result codes (internal/service/service.go).
use ledger_service.Prelude.{ℕ, Bool, true, false, String}
use ledger_service.Sdk.{TransferStatus, AccountStatus}

-- `isIdempotencyConflict`
unfoldable pub is_idempotency_conflict : TransferStatus → Bool
is_idempotency_conflict TransferStatus.different_flags = true
is_idempotency_conflict TransferStatus.different_pending_id = true
is_idempotency_conflict TransferStatus.different_timeout = true
is_idempotency_conflict TransferStatus.different_debit_account_id = true
is_idempotency_conflict TransferStatus.different_credit_account_id = true
is_idempotency_conflict TransferStatus.different_amount = true
is_idempotency_conflict TransferStatus.different_user_data_128 = true
is_idempotency_conflict TransferStatus.different_user_data_64 = true
is_idempotency_conflict TransferStatus.different_user_data_32 = true
is_idempotency_conflict TransferStatus.different_ledger = true
is_idempotency_conflict TransferStatus.different_code = true
is_idempotency_conflict _ = false

-- `isAccountIdempotencyConflict`
unfoldable pub is_account_idempotency_conflict : AccountStatus → Bool
is_account_idempotency_conflict AccountStatus.different_flags = true
is_account_idempotency_conflict AccountStatus.different_user_data_128 = true
is_account_idempotency_conflict AccountStatus.different_user_data_64 = true
is_account_idempotency_conflict AccountStatus.different_user_data_32 = true
is_account_idempotency_conflict AccountStatus.different_ledger = true
is_account_idempotency_conflict AccountStatus.different_code = true
is_account_idempotency_conflict _ = false

-- `result.Status == tb.TransferCreated || result.Status == tb.TransferExists`
abbrev pub is_success : TransferStatus → Bool
is_success TransferStatus.created = true
is_success TransferStatus.exists = true
is_success _ = false

-- `result.Status == tb.TransferExistsWithDifferentTimeout`
abbrev pub is_different_timeout : TransferStatus → Bool
is_different_timeout TransferStatus.different_timeout = true
is_different_timeout _ = false

-- `errorCode`: the code, the message and the HTTP status
unfoldable pub error_code : TransferStatus → String × String × ℕ
error_code TransferStatus.exceeds_credits =
    ("insufficient_funds", "the debit account has insufficient available funds", 422)
error_code TransferStatus.exceeds_debits =
    ("insufficient_funds", "the debit account has insufficient available funds", 422)
error_code TransferStatus.debit_account_not_found =
    ("account_not_found", "one or more ledger accounts do not exist", 404)
error_code TransferStatus.credit_account_not_found =
    ("account_not_found", "one or more ledger accounts do not exist", 404)
error_code TransferStatus.id_already_failed = (
  "previous_attempt_failed",
  "this transfer ID was previously rejected and cannot produce a different outcome", 409,
)
error_code _ =
    ("ledger_invariant_violation", "the transfer violated an internal ledger recipe", 500)
