-- ===== src/Service/Increment.antt =====
-- `IncrementAuthorization` (internal/service/operations.go): another pending transfer of the group of
-- an authorization, which expires no later than the original.
pub mod Increments
pub mod Answers
pub mod Decision
pub mod Submission
pub mod Timeout
use ledger_service.Prelude.{
  ℕ, ◌*◌, Bool, true, false, not, ◌==◌, ◌&&◌, ◌||◌, ltb, String, str_eq, Option, none, some, List,
  [], ◌∷◌, if◌then◌else◌,
}
use ledger_service.Prelude.Int.{ℤ, pos, negsuc, leb_ℤ, add_int64, quot, to_uint32, ◌+ℤ◌}
use ledger_service.Clock.{second, unix_time, time_add, time_sub, milliseconds}
use ledger_service.Domain.{
  authorization_increment, card_wallet, IncrementAuthorizationRequest,
  IncrementAuthorizationResponse, Error, invalid_request, idempotency_conflict,
  authorization_not_found, is_account_not_found, Result, ok, err,
}
use ledger_service.Cache.{AccountMetadata}
use ledger_service.Recipe.{
  card_settlement_payable_account_id, transfer_code_authorization,
  transfer_code_authorization_increment,
}
use ledger_service.Sdk.{Transfer, zero_transfer, TransferResult, TransferStatus}
use ledger_service.Service.Authorization.{same_transfer_except_timeout}
use ledger_service.Service.Calls.{
  ledger_create_transfer, ledger_lookup_transfer, require_account_kind, evaluate_risk,
}
use ledger_service.Service.Ids.{parse_public_id, request_id, validate_external_id}
use ledger_service.Service.Status.{
  is_idempotency_conflict, is_success, is_different_timeout, error_code,
}
use ledger_service.Service.World.{
  Service, M, ◌>>=◌, ◌>>◌, pure, raise, lift, fail_if, attempt, now, observe_completion, Attribute,
  text, error,
}

-- `uint32((remaining + time.Second - 1) / time.Second)` in `int64`
unfoldable pub seconds_left : ℤ → ℕ
unfolding ◌+ℤ◌
seconds_left remaining =
    to_uint32 (quot (add_int64 (add_int64 remaining (pos second)) (negsuc 0)) second)

-- `remainingSeconds`: at most the timeout of the original
unfoldable pub increment_timeout : ℤ → ℕ → ℕ
unfolding seconds_left
increment_timeout remaining timeout =
    if ltb timeout (seconds_left remaining) then timeout else seconds_left remaining

-- the result of a submission that differs in its timeout alone from what exists
abbrev pub settled : Transfer → TransferResult → Option Transfer → TransferResult
settled transfer result none = result
settled transfer result (some existing) =
    if same_transfer_except_timeout existing transfer
    then record { status = TransferStatus.exists; timestamp = existing.timestamp }
    else result

-- when the original authorization expires
abbrev pub original_expiry : Transfer → ℕ
original_expiry original = time_add (unix_time original.timestamp) (pos (original.timeout * second))

-- the authorization's ID, or the refusal of it
abbrev pub authorization_parsed : Option ℕ → Result ℕ
authorization_parsed none = err (invalid_request "authorization_id must be a TigerBeetle ID")
authorization_parsed (some id) = ok id

module _ {S : Type 0} (s : Service S) where
  -- the test that a transfer is no open authorization of this ledger
  unfoldable pub is_not_open : Transfer → Bool
  is_not_open original =
      not (original.flags == s.sdk.pending)
      || not (original.code == transfer_code_authorization)
      || not (original.ledger == s.ledger_id)
      || not (original.credit_account_id == card_settlement_payable_account_id)
      || not (original.user_data_128 == original.id)
      || not (original.pending_id == 0)
      || original.timeout == 0

  -- The increment's transfer. `user_data_128` is the authorization's ID, which is the original's.
  unfoldable pub increment_transfer :
      IncrementAuthorizationRequest → Transfer → ℕ → ℕ → ℕ → Transfer
  increment_transfer request original increment_id authorization_id timeout = record zero_transfer {
    id = increment_id;
    debit_account_id = original.debit_account_id;
    credit_account_id = original.credit_account_id;
    amount = request.increment_cents;
    user_data_128 = authorization_id;
    user_data_64 = original.user_data_64;
    user_data_32 = original.user_data_32;
    timeout = timeout;
    ledger = s.ledger_id;
    code = transfer_code_authorization_increment;
    flags = s.sdk.pending;
  }

  module _ (request : IncrementAuthorizationRequest) (evaluation_ms : ℤ) where
    abbrev empty_response : IncrementAuthorizationResponse
    empty_response = record {
      request_id = request.request_id;
      authorization_id = request.authorization_id;
      hold_transfer_id = "";
      status = "";
      ledger_status = "";
      increment_cents = request.increment_cents;
      evaluation_time_ms = evaluation_ms;
      timestamp = 0;
      error_code = "";
      message = "";
    }

    -- `incrementFailure`
    unfoldable pub increment_failure : String → String → ℕ → IncrementAuthorizationResponse × ℕ
    increment_failure code message status = (
      record empty_response {
        status = "declined";
        ledger_status = "not_submitted";
        error_code = code;
        message = message;
      },
      status,
    )

    -- the response to an increment that exists already
    unfoldable pub replayed_increment : Transfer → IncrementAuthorizationResponse
    replayed_increment existing = record empty_response {
      hold_transfer_id = request.request_id;
      status = "approved";
      ledger_status = s.sdk.transfer_status_string TransferStatus.exists;
      timestamp = existing.timestamp;
    }

    -- the response and the HTTP status for a result of the ledger that is no conflict
    unfoldable pub increment_response : TransferResult → IncrementAuthorizationResponse × ℕ
    unfolding error_code
    increment_response result =
        let response : IncrementAuthorizationResponse = record empty_response {
          hold_transfer_id = request.request_id;
          ledger_status = s.sdk.transfer_status_string result.status;
          timestamp = result.timestamp;
        } in
        if is_success result.status
        then (record response { status = "approved" }, 200)
        else (let (code, message, http_status) = error_code result.status in
            let refused : IncrementAuthorizationResponse = record response {
              error_code = code;
              message = message;
            } in
            if str_eq code "insufficient_funds"
            then (record refused { status = "declined" }, 200)
            else (record refused { status = "failed" }, http_status))

    module _ (original : Transfer) (increment_id started : ℕ) where
      abbrev increment_attributes : List (String × Attribute)
      increment_attributes =
          ("authorization_id", text request.authorization_id)
          ∷ ("card_id", text (s.sdk.uint128_string original.debit_account_id))
          ∷ []

      abbrev observe : String → String → List (String × Attribute) → M S (Unit {0})
      observe status ledger_status attributes =
          observe_completion s authorization_increment request.request_id status
            request.increment_cents started ledger_status attributes

      -- the end of `lookupExistingIncrement`, on what was found; `none` is "not found"
      unfoldable pub answer_existing :
          ℕ → Option Transfer → M S (Option (IncrementAuthorizationResponse × ℕ))
      unfolding observe_completion same_transfer_except_timeout increment_transfer
          replayed_increment
      answer_existing authorization_id none = pure none
      answer_existing authorization_id (some existing) =
          if not (
            same_transfer_except_timeout existing
              (increment_transfer request original increment_id authorization_id 0))
          then (do
            observe "conflict" "existing_increment_payload_conflict" increment_attributes
            raise idempotency_conflict)
          else (do
            observe "approved" (s.sdk.transfer_status_string TransferStatus.exists)
                increment_attributes
            pure (some (replayed_increment existing, 200)))

      -- `lookupExistingIncrement`
      unfoldable pub lookup_existing_increment :
          ℕ → M S (Option (IncrementAuthorizationResponse × ℕ))
      unfolding ledger_lookup_transfer answer_existing
      lookup_existing_increment authorization_id = do
        existing ← ledger_lookup_transfer s increment_id
        answer_existing authorization_id existing

      -- the check behind the submission: an increment that differs in its timeout alone exists
      unfoldable pub settle_timeout : Transfer → TransferResult → M S TransferResult
      unfolding ledger_lookup_transfer same_transfer_except_timeout
      settle_timeout transfer result =
          if is_different_timeout result.status
          then (do
            existing ← ledger_lookup_transfer s increment_id
            pure (settled transfer result existing))
          else pure result

      -- what `IncrementAuthorization` does with the settled result of the submission
      unfoldable pub complete_increment : TransferResult → M S (IncrementAuthorizationResponse × ℕ)
      unfolding observe_completion is_idempotency_conflict increment_response
      complete_increment result =
          if is_idempotency_conflict result.status
          then (do
            observe "conflict" (s.sdk.transfer_status_string result.status) increment_attributes
            raise idempotency_conflict)
          else (let answer = increment_response result in
              do
                observe answer.0.status (s.sdk.transfer_status_string result.status)
                    increment_attributes
                pure answer)

      -- the submission, and what follows it
      unfoldable pub after_submission :
          Transfer → Result TransferResult → M S (IncrementAuthorizationResponse × ℕ)
      unfolding observe_completion settle_timeout complete_increment
      after_submission transfer (err e) = do
        observe "unknown" "request_error" (("error", error e) ∷ increment_attributes)
        raise e
      after_submission transfer (ok result) = do
        final ← settle_timeout transfer result
        complete_increment final

      unfoldable pub submit_increment : Transfer → M S (IncrementAuthorizationResponse × ℕ)
      unfolding ledger_create_transfer after_submission
      submit_increment transfer = do
        result ← attempt (ledger_create_transfer s transfer)
        after_submission transfer result

      -- the answer where nothing may be submitted: the existing increment's, or else a refusal
      abbrev pub found_or :
          IncrementAuthorizationResponse × ℕ
          → M S (Unit {0})
          → Option (IncrementAuthorizationResponse × ℕ)
          → M S (IncrementAuthorizationResponse × ℕ)
      found_or refusal report (some answer) = pure answer
      found_or refusal report none = do report; pure refusal

      -- from the time that the original has left
      unfoldable pub decide_remaining : ℕ → ℤ → M S (IncrementAuthorizationResponse × ℕ)
      unfolding lookup_existing_increment increment_failure increment_timeout submit_increment
          increment_transfer
      decide_remaining authorization_id remaining =
          if not (original.timeout == 0) && leb_ℤ remaining (pos 0)
          then (do
            existing ← lookup_existing_increment authorization_id
            found_or
                (increment_failure "authorization_not_open" "the authorization has expired" 409)
                (pure tt) existing)
          else submit_increment (
              increment_transfer request original increment_id authorization_id
                (increment_timeout remaining original.timeout))

      -- from the decision of the risk evaluation
      unfoldable pub decide_increment : ℕ → Bool → M S (IncrementAuthorizationResponse × ℕ)
      unfolding lookup_existing_increment observe_completion increment_failure now decide_remaining
      decide_increment authorization_id false = do
        existing ← lookup_existing_increment authorization_id
        found_or
            (increment_failure "risk_limit_exceeded"
              "authorization increment exceeds the automatic approval limit" 200)
            (observe "declined" "not_submitted" increment_attributes) existing
      decide_increment authorization_id true = do
        t ← now s
        decide_remaining authorization_id (time_sub (original_expiry original) t)

  -- from the check of the debited account on
  unfoldable pub increment_checked :
      IncrementAuthorizationRequest
      → ℕ
      → ℕ
      → ℕ
      → Transfer
      → Result AccountMetadata
      → M S (IncrementAuthorizationResponse × ℕ)
  unfolding increment_failure now evaluate_risk decide_increment
  increment_checked request authorization_id increment_id started original (err e) =
      if is_account_not_found e
      then pure (
          increment_failure request (pos 0) "authorization_not_open"
            "the transfer is not an open authorization" 409)
      else raise e
  increment_checked request authorization_id increment_id started original (ok _) = do
    risk_started ← now s
    approved ← evaluate_risk s request.increment_cents
    risk_ended ← now s
    decide_increment request (milliseconds (time_sub risk_ended risk_started)) original increment_id
        started authorization_id approved

  -- from the original found under the authorization's ID
  unfoldable pub increment_found :
      IncrementAuthorizationRequest
      → ℕ
      → ℕ
      → ℕ
      → Option Transfer
      → M S (IncrementAuthorizationResponse × ℕ)
  unfolding is_not_open increment_failure require_account_kind increment_checked
  increment_found request authorization_id increment_id started none = raise authorization_not_found
  increment_found request authorization_id increment_id started (some original) =
      if is_not_open original
      then pure (
          increment_failure request (pos 0) "authorization_not_open"
            "the transfer is not an open authorization" 409)
      else (do
        wallet ← attempt (require_account_kind s original.debit_account_id card_wallet)
        increment_checked request authorization_id increment_id started original wallet)

  -- `IncrementAuthorization`
  unfoldable pub increment_authorization :
      IncrementAuthorizationRequest → M S (IncrementAuthorizationResponse × ℕ)
  unfolding validate_external_id parse_public_id request_id now ledger_lookup_transfer
      increment_found
  increment_authorization request = do
    lift (validate_external_id "authorization_id" request.authorization_id)
    authorization_id ← lift (authorization_parsed (parse_public_id s.sdk request.authorization_id))
    fail_if (request.increment_cents == 0) (invalid_request "increment_cents must be positive")
    increment_id ← lift (request_id s.sdk request.request_id)
    fail_if (increment_id == authorization_id)
        (invalid_request "request_id must differ from authorization_id")
    started ← now s
    original ← ledger_lookup_transfer s authorization_id
    increment_found request authorization_id increment_id started original
