-- ===== src/Loadtest.antt =====
-- cmd/loadtest/main.go: the load generator. Its flags, its HTTP client and the floating-point numbers
-- of its report are parameters.
pub mod Report
pub mod Tally
pub mod Workers
pub mod Program
use Prim.Native.String.{◌++◌}
use ledger_service.Prelude.{
  ℕ, ◌*◌, Bool, true, false, not, ◌&&◌, ◌||◌, ltb, leb, ◌==◌, String, str_eq, Option, none, some,
  if◌then◌else◌,
}
use ledger_service.Prelude.Int.{ℤ, pos, leb_ℤ, ltb_ℤ}
use ledger_service.Clock.{second}
use ledger_service.Service.Text.{is_empty}

-- `options`
pub record Options : Type 0 where
  pub base_url : String
  pub operation : String
  pub account_id : String
  pub card_id : String
  pub authorization_id : String
  pub merchant_id : String
  pub amount_cents : ℕ
  pub requests : ℤ
  pub concurrency : ℤ
  pub runs : ℤ
  pub warmup : ℤ
  pub timeout : ℤ

-- `result`; `error` has the text of the error
pub record Measured : Type 0 where
  pub duration : ℕ
  pub status : String
  pub http_status : ℕ
  pub error : Option String

-- the constants of the file
abbrev pub default_corporate_account_id : String
default_corporate_account_id = "19c5d2b61ac27dd55d9c9daff5af441"

abbrev pub default_card_account_id : String
default_card_account_id = "19c5d2b61ac27dd55d9c9daff5af442"

abbrev pub default_authorization_id : String
default_authorization_id = "19c5d2b61ac27dd55d9c9daff5af445"

abbrev pub posted_concurrency : ℕ
posted_concurrency = 256

abbrev pub risk_concurrency : ℕ
risk_concurrency = 4_096

-- the defaults of the flags
abbrev pub default_options : Options
default_options = record {
  base_url = "http://127.0.0.1:8080";
  operation = "authorize";
  account_id = default_corporate_account_id;
  card_id = default_card_account_id;
  authorization_id = default_authorization_id;
  merchant_id = "MRC_009";
  amount_cents = 1;
  requests = pos 10_000;
  concurrency = pos 0;
  runs = pos 3;
  warmup = pos 1_000;
  timeout = pos (15 * second);
}

-- `defaultConcurrency`
unfoldable pub default_concurrency : String → ℤ
default_concurrency operation =
    if str_eq operation "authorize" || str_eq operation "increment"
    then pos risk_concurrency
    else pos posted_concurrency

abbrev is_zero_ℤ : ℤ → Bool
is_zero_ℤ n = leb_ℤ n (pos 0) && leb_ℤ (pos 0) n

-- `parseFlags`, over what the flag package makes of the defaults
unfoldable pub parse_flags : (Options → Options) → Options
unfolding default_concurrency
parse_flags parse =
    let configuration = parse default_options in
    if is_zero_ℤ configuration.concurrency
    then record configuration { concurrency = default_concurrency configuration.operation }
    else configuration

-- `validate`: the text of the error, if any
unfoldable pub validate : Options → Option String
validate o =
    if not (str_eq o.operation "authorize")
      && not (str_eq o.operation "increment")
      && not (str_eq o.operation "topup")
      && not (str_eq o.operation "withdraw")
    then some "operation must be authorize, increment, topup, or withdraw"
    else if str_eq o.operation "authorize" && is_empty o.card_id
    then some "card-id is required for authorize"
    else if (str_eq o.operation "topup" || str_eq o.operation "withdraw") && is_empty o.account_id
    then some "account-id is required for topup and withdraw"
    else if str_eq o.operation "increment" && is_empty o.authorization_id
    then some "authorization-id is required for increment"
    else if o.amount_cents == 0
        || leb_ℤ o.requests (pos 0)
        || leb_ℤ o.concurrency (pos 0)
        || leb_ℤ o.runs (pos 0)
    then some "amount-cents, requests, concurrency, and runs must be positive"
    else if ltb_ℤ o.warmup (pos 0)
    then some "warmup must not be negative"
    else none

-- the payload of a request; a top-up and a withdrawal have the same
pub data Payload : Type 0 where
  authorize_payload : String → String → String → ℕ → Payload
  increment_payload : String → String → ℕ → Payload
  transfer_payload : String → String → ℕ → Payload

-- the path and the payload in `execute`
unfoldable pub request_of : Options → String → String × Payload
request_of o request_id =
    if str_eq o.operation "increment"
    then (
      "/v1/authorizations/increments",
      increment_payload request_id o.authorization_id o.amount_cents,
    )
    else if str_eq o.operation "topup"
    then ("/v1/topups", transfer_payload request_id o.account_id o.amount_cents)
    else if str_eq o.operation "withdraw"
    then ("/v1/withdrawals", transfer_payload request_id o.account_id o.amount_cents)
    else ("/v1/authorizations", authorize_payload request_id o.card_id o.merchant_id o.amount_cents)

-- the `status` of a JSON body, or the text of the decoder's error
pub data BodyStatus : Type 0 where
  unreadable : String → BodyStatus
  readable : String → BodyStatus

-- What comes of a request: it cannot be built; it fails after a time; or it is answered after a time
-- with a status, an error of the reader, if any, and a body.
pub data Exchange : Type 0 where
  unsent : String → Exchange
  lost : ℕ → String → Exchange
  answered : ℕ → ℕ → Option String → BodyStatus → Exchange

abbrev pub is_success_status : ℕ → Bool
is_success_status status = leb 200 status && ltb status 300

module _ (show : ℕ → String) where
  abbrev measured_body : ℕ → ℕ → BodyStatus → Measured
  measured_body duration http_status (unreadable text) = record {
    duration = duration;
    status = "";
    http_status = http_status;
    error = some text;
  }
  measured_body duration http_status (readable status) = record {
    duration = duration;
    status = status;
    http_status = http_status;
    error = none;
  }

  -- what `execute` measures; `show` prints a number
  unfoldable pub measured : Exchange → Measured
  measured (unsent text) = record { duration = 0; status = ""; http_status = 0; error = some text }
  measured (lost duration text) = record {
    duration = duration;
    status = "";
    http_status = 0;
    error = some text;
  }
  measured (answered duration http_status (some text) _) = record {
    duration = duration;
    status = "";
    http_status = http_status;
    error = some text;
  }
  measured (answered duration http_status none body) =
      if not (is_success_status http_status)
      then record {
        duration = duration;
        status = "";
        http_status = http_status;
        error = some ("HTTP " ++ show http_status);
      }
      else measured_body duration http_status body

  -- `failureReason`
  unfoldable pub failure_reason : Measured → String
  failure_reason m = elim m.error [
    | some _ ↦
        if not (m.http_status == 0) && not (is_success_status m.http_status)
        then "http_" ++ show m.http_status
        else "request_error"
    | none ↦ if is_empty m.status then "missing_outcome" else "outcome_" ++ m.status
  ]
