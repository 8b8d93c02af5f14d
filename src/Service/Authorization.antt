-- ===== src/Service/Authorization.antt =====
-- `Authorize` (internal/service/operations.go): a pending transfer from a card to the settlement
-- account, after the risk evaluation.
pub mod Same
pub mod Holds
pub mod Submission
use ledger_service.Prelude.{
  ℕ, zero, suc, ◌+◌, ◌*◌, Bool, true, false, not, ◌==◌, ◌&&◌, String, str_eq, Option, none, some,
  List, [], ◌∷◌, if◌then◌else◌, take, drop,
}
use ledger_service.Prelude.Int.{ℤ}
use Prim.Native.String.{◌++◌}
use ledger_service.Clock.{unix_time, time_add, time_sub, milliseconds, whole_seconds}
use ledger_service.Domain.{
  authorization, card_wallet, AuthorizationRequest, AuthorizationResponse, idempotency_conflict,
  Result, ok, err,
}
use ledger_service.Recipe.{card_settlement_payable_account_id, transfer_code_authorization}
use ledger_service.Sdk.{Sdk, Transfer, zero_transfer, TransferResult, TransferStatus}
use ledger_service.Service.Calls.{
  positive_amount, ledger_create_transfer, ledger_lookup_transfer, require_account_kind,
  evaluate_risk,
}
use ledger_service.Service.Ids.{account_id, request_id, validate_external_id}
use ledger_service.Service.Status.{is_idempotency_conflict, is_success, error_code}
use ledger_service.Service.World.{
  Service, M, ◌>>=◌, ◌>>◌, pure, raise, lift, fail_if, attempt, now, observe_completion, Attribute,
  text, error,
}

-- `binary.LittleEndian`
unfoldable pub little_endian_value : List ℕ → ℕ
little_endian_value [] = 0
little_endian_value (b ∷ bytes) = b + 256 * little_endian_value bytes

-- `merchantFingerprint`
unfoldable pub merchant_fingerprint : Sdk → String → ℕ × ℕ
unfolding little_endian_value
merchant_fingerprint sdk merchant_id =
    let sum = sdk.sum256 ("ledger-service:v1:merchant:" ++ merchant_id) in
    (little_endian_value (take 8 sum), little_endian_value (take 4 (drop 8 sum)))

-- `sameTransferExceptTimeout` and `sameTransfer`
unfoldable pub same_transfer_except_timeout : Transfer → Transfer → Bool
same_transfer_except_timeout left right =
    left.id == right.id
    && left.debit_account_id == right.debit_account_id
    && left.credit_account_id == right.credit_account_id
    && left.amount == right.amount
    && left.pending_id == right.pending_id
    && left.user_data_128 == right.user_data_128
    && left.user_data_64 == right.user_data_64
    && left.user_data_32 == right.user_data_32
    && left.ledger == right.ledger
    && left.code == right.code
    && left.flags == right.flags

unfoldable pub same_transfer : Transfer → Transfer → Bool
unfolding same_transfer_except_timeout
same_transfer left right = left.timeout == right.timeout && same_transfer_except_timeout left right

module _ {S : Type 0} (s : Service S) where
  -- the transfer that `Authorize` builds
  unfoldable pub authorization_transfer : ℕ → ℕ → AuthorizationRequest → Transfer
  authorization_transfer id card request =
      let (merchant_64, merchant_32) = merchant_fingerprint s.sdk request.merchant_id in
      record zero_transfer {
        id = id;
        debit_account_id = card;
        credit_account_id = card_settlement_payable_account_id;
        amount = request.amount_cents;
        user_data_128 = id;
        user_data_64 = merchant_64;
        user_data_32 = merchant_32;
        timeout = whole_seconds s.authorization_timeout;
        ledger = s.ledger_id;
        code = transfer_code_authorization;
        flags = s.sdk.pending;
      }

  -- `time.Unix(0, int64(timestamp)).Add(s.authorizationTimeout)`
  abbrev pub expiry : ℕ → ℕ
  expiry timestamp = time_add (unix_time timestamp) s.authorization_timeout

  module _ (request : AuthorizationRequest) (evaluation_ms : ℤ) where
    abbrev empty_response : AuthorizationResponse
    empty_response = record {
      request_id = request.request_id;
      authorization_id = request.request_id;
      hold_transfer_id = "";
      status = "";
      ledger_status = "";
      evaluation_time_ms = evaluation_ms;
      expires_at = none;
      timestamp = 0;
      error_code = "";
      message = "";
    }

    -- the response to a hold that exists already
    unfoldable pub replayed_authorization : Transfer → AuthorizationResponse
    replayed_authorization existing = record empty_response {
      hold_transfer_id = request.request_id;
      status = "approved";
      ledger_status = s.sdk.transfer_status_string TransferStatus.exists;
      expires_at = some (expiry existing.timestamp);
      timestamp = existing.timestamp;
    }

    -- the response to a refusal of the risk evaluation
    unfoldable pub declined_authorization : AuthorizationResponse
    declined_authorization = record empty_response {
      status = "declined";
      ledger_status = "not_submitted";
      error_code = "risk_limit_exceeded";
      message = "authorization amount exceeds the automatic approval limit";
    }

    -- the response and the HTTP status for a result of the ledger that is no conflict
    unfoldable pub authorization_response : TransferResult → AuthorizationResponse × ℕ
    unfolding error_code
    authorization_response result =
        let response : AuthorizationResponse = record empty_response {
          hold_transfer_id = request.request_id;
          ledger_status = s.sdk.transfer_status_string result.status;
          timestamp = result.timestamp;
        } in
        if is_success result.status
        then (
          record response { status = "approved"; expires_at = some (expiry result.timestamp) },
          200,
        )
        else (let (code, message, http_status) = error_code result.status in
            let refused : AuthorizationResponse = record response {
              error_code = code;
              message = message;
            } in
            if str_eq code "insufficient_funds"
            then (record refused { status = "declined" }, 200)
            else (record refused { status = "failed" }, http_status))

    module _ (transfer : Transfer) (started : ℕ) where
      abbrev merchant_attributes : List (String × Attribute)
      merchant_attributes =
          ("card_id", text request.card_id) ∷ ("merchant_id", text request.merchant_id) ∷ []

      abbrev observe : String → String → List (String × Attribute) → M S (Unit {0})
      observe status ledger_status attributes =
          observe_completion s authorization request.request_id status request.amount_cents started
            ledger_status attributes

      -- what `Authorize` does with a hold found under the ID of a request that risk refuses
      unfoldable pub answer_refused : Option Transfer → M S (AuthorizationResponse × ℕ)
      unfolding observe_completion same_transfer replayed_authorization declined_authorization
      answer_refused none = do
        observe "declined" "not_submitted" merchant_attributes
        pure (declined_authorization, 200)
      answer_refused (some existing) =
          if not (same_transfer existing transfer)
          then (do
            observe "conflict" "existing_transfer_payload_conflict" merchant_attributes
            raise idempotency_conflict)
          else (do
            observe "approved" (s.sdk.transfer_status_string TransferStatus.exists)
                merchant_attributes
            pure (replayed_authorization existing, 200))

      -- what it does with the ledger's answer to a submitted hold
      unfoldable pub complete_authorization :
          Result TransferResult → M S (AuthorizationResponse × ℕ)
      unfolding observe_completion is_idempotency_conflict authorization_response
      complete_authorization (err e) = do
        observe "unknown" "request_error" (("error", error e) ∷ merchant_attributes)
        raise e
      complete_authorization (ok result) =
          if is_idempotency_conflict result.status
          then (do
            observe "conflict" (s.sdk.transfer_status_string result.status) merchant_attributes
            raise idempotency_conflict)
          else (let answer = authorization_response result in
              do
                observe answer.0.status (s.sdk.transfer_status_string result.status)
                    merchant_attributes
                pure answer)

      -- the end of `Authorize`, from the decision of the risk evaluation
      unfoldable pub decide : Bool → M S (AuthorizationResponse × ℕ)
      unfolding ledger_lookup_transfer ledger_create_transfer answer_refused complete_authorization
      decide false = do existing ← ledger_lookup_transfer s transfer.id; answer_refused existing
      decide true = do
        result ← attempt (ledger_create_transfer s transfer)
        complete_authorization result

  -- `Authorize`
  unfoldable pub authorize : AuthorizationRequest → M S (AuthorizationResponse × ℕ)
  unfolding account_id request_id validate_external_id now require_account_kind evaluate_risk
      authorization_transfer decide
  authorize request = do
    card ← lift (account_id s.sdk "card_id" request.card_id)
    lift (validate_external_id "merchant_id" request.merchant_id)
    fail_if (request.amount_cents == 0) positive_amount
    id ← lift (request_id s.sdk request.request_id)
    started ← now s
    wallet ← require_account_kind s card card_wallet
    risk_started ← now s
    approved ← evaluate_risk s request.amount_cents
    risk_ended ← now s
    decide request (milliseconds (time_sub risk_ended risk_started))
        (authorization_transfer id card request) started approved
