-- ===== src/Sdk.antt =====
-- What the program uses of the TigerBeetle SDK: its records, its result codes, and as parameters
-- (`Sdk`, `Env`) its functions and its client. A `Uint128` is the number that it stands for.
use ledger_service.Prelude.{ℕ, String, List, Option}

pub record Account : Type 0 where
  pub id : ℕ
  pub debits_pending : ℕ
  pub debits_posted : ℕ
  pub credits_pending : ℕ
  pub credits_posted : ℕ
  pub user_data_128 : ℕ
  pub user_data_64 : ℕ
  pub user_data_32 : ℕ
  pub ledger : ℕ
  pub code : ℕ
  pub flags : ℕ
  pub timestamp : ℕ

-- `tb.Account{}`
abbrev pub zero_account : Account
zero_account = record {
  id = 0;
  debits_pending = 0;
  debits_posted = 0;
  credits_pending = 0;
  credits_posted = 0;
  user_data_128 = 0;
  user_data_64 = 0;
  user_data_32 = 0;
  ledger = 0;
  code = 0;
  flags = 0;
  timestamp = 0;
}

pub record Transfer : Type 0 where
  pub id : ℕ
  pub debit_account_id : ℕ
  pub credit_account_id : ℕ
  pub amount : ℕ
  pub pending_id : ℕ
  pub user_data_128 : ℕ
  pub user_data_64 : ℕ
  pub user_data_32 : ℕ
  pub timeout : ℕ
  pub ledger : ℕ
  pub code : ℕ
  pub flags : ℕ
  pub timestamp : ℕ

-- `tb.Transfer{}`
abbrev pub zero_transfer : Transfer
zero_transfer = record {
  id = 0;
  debit_account_id = 0;
  credit_account_id = 0;
  amount = 0;
  pending_id = 0;
  user_data_128 = 0;
  user_data_64 = 0;
  user_data_32 = 0;
  timeout = 0;
  ledger = 0;
  code = 0;
  flags = 0;
  timestamp = 0;
}

-- `tb.CreateTransferStatus`: the codes that the source names, and every other one.
pub data TransferStatus : Type 0 where
  created exists : TransferStatus
  different_flags different_pending_id different_timeout : TransferStatus
  different_debit_account_id different_credit_account_id different_amount : TransferStatus
  different_user_data_128 different_user_data_64 different_user_data_32 : TransferStatus
  different_ledger different_code : TransferStatus
  exceeds_credits exceeds_debits : TransferStatus
  debit_account_not_found credit_account_not_found id_already_failed : TransferStatus
  other : ℕ → TransferStatus

-- `tb.CreateAccountStatus`, likewise.
pub data AccountStatus : Type 0 where
  created exists : AccountStatus
  different_flags different_user_data_128 different_user_data_64 : AccountStatus
  different_user_data_32 different_ledger different_code : AccountStatus
  other : ℕ → AccountStatus

pub record TransferResult : Type 0 where
  pub status : TransferStatus
  pub timestamp : ℕ

pub record AccountResult : Type 0 where
  pub status : AccountStatus
  pub timestamp : ℕ

-- The pure functions of the SDK and of `crypto/sha256`, and the bits of the flags that it packs.
pub record Sdk : Type 0 where
  pub hex_string_to_uint128 : String → Option ℕ
  pub uint128_string : ℕ → String
  pub uint128_bytes : ℕ → List ℕ
  pub uint128_uint64 : ℕ → ℕ
  pub transfer_status_string : TransferStatus → String
  pub account_status_string : AccountStatus → String
  pub credits_must_not_exceed_debits : ℕ
  pub debits_must_not_exceed_credits : ℕ
  pub pending : ℕ
  pub sum256 : String → List ℕ

-- What a call of the SDK's client returns: a value, or the text of an error.
pub data Reply (A : Type 0) : Type 0 where
  done : A → Reply A
  failed : String → Reply A

-- The end of a request's context, as `ctx.Err()` gives it.
pub data ContextError : Type 0 where
  canceled deadline_exceeded : ContextError

-- The world outside a request, over its own state `S`: the SDK's client, the clock (nanoseconds since the zero
-- `time.Time`), a wait for a timer that the end of the request's context may cut short, and the accounts
-- that other requests of the process have looked up or created by then.
pub record Env (S : Type 0) : Type 0 where
  pub create_accounts : List Account → S → Reply (List AccountResult) × S
  pub create_transfers : List Transfer → S → Reply (List TransferResult) × S
  pub lookup_accounts : List ℕ → S → Reply (List Account) × S
  pub lookup_transfers : List ℕ → S → Reply (List Transfer) × S
  pub now : S → ℕ × S
  pub wait : ℕ → S → Option ContextError × S
  pub others : S → List Account
