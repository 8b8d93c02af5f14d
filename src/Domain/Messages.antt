-- ===== src/Domain/Messages.antt =====
-- internal/domain/model.go: the requests and the responses of the API. Amounts are `uint64`.
use ledger_service.Prelude.{ℕ, String, Option}
use ledger_service.Prelude.Int.{ℤ}
use ledger_service.Domain.Kinds.{AccountKind}

pub record CreateAccountRequest : Type 0 where
  pub account_id : String
  pub kind : AccountKind
  pub corporate_account_id : String

pub record AccountResponse : Type 0 where
  pub account_id : String
  pub kind : AccountKind
  pub corporate_account_id : String
  pub status : String
  pub timestamp : ℕ

-- The API's decimal texts of the amounts are the numbers here.
pub record BalanceResponse : Type 0 where
  pub account_id : String
  pub kind : AccountKind
  pub corporate_account_id : String
  pub debits_pending : ℕ
  pub debits_posted : ℕ
  pub credits_pending : ℕ
  pub credits_posted : ℕ
  pub posted_balance : ℤ
  pub available_balance : ℤ
  pub timestamp : ℕ

pub record TopUpRequest : Type 0 where
  pub request_id : String
  pub account_id : String
  pub amount_cents : ℕ

pub record WithdrawalRequest : Type 0 where
  pub request_id : String
  pub account_id : String
  pub amount_cents : ℕ

pub record CardAllocationRequest : Type 0 where
  pub request_id : String
  pub account_id : String
  pub card_id : String
  pub amount_cents : ℕ

pub record CardReturnRequest : Type 0 where
  pub request_id : String
  pub account_id : String
  pub card_id : String
  pub amount_cents : ℕ

pub record AuthorizationRequest : Type 0 where
  pub request_id : String
  pub card_id : String
  pub merchant_id : String
  pub amount_cents : ℕ

pub record IncrementAuthorizationRequest : Type 0 where
  pub request_id : String
  pub authorization_id : String
  pub increment_cents : ℕ

pub record TransactionResponse : Type 0 where
  pub request_id : String
  pub transaction_id : String
  pub status : String
  pub ledger_status : String
  pub timestamp : ℕ
  pub error_code : String
  pub message : String

pub record AuthorizationResponse : Type 0 where
  pub request_id : String
  pub authorization_id : String
  pub hold_transfer_id : String
  pub status : String
  pub ledger_status : String
  pub evaluation_time_ms : ℤ
  pub expires_at : Option ℕ
  pub timestamp : ℕ
  pub error_code : String
  pub message : String

pub record IncrementAuthorizationResponse : Type 0 where
  pub request_id : String
  pub authorization_id : String
  pub hold_transfer_id : String
  pub status : String
  pub ledger_status : String
  pub increment_cents : ℕ
  pub evaluation_time_ms : ℤ
  pub timestamp : ℕ
  pub error_code : String
  pub message : String

pub record ErrorResponse : Type 0 where
  pub status : String
  pub error_code : String
  pub message : String
