-- ===== src/Service/Panics/Increments.antt =====
-- `IncrementAuthorization` (internal/service/operations.go) and panics, from a valid metadata cache.
use ledger_service.Prelude.{ℕ, Bool, true, false, refl, Option, none, some}
use ledger_service.Prelude.Int.{ℤ}
use ledger_service.Cache.{AccountMetadata}
use ledger_service.Clock.{time_sub}
use ledger_service.Domain.{
  IncrementAuthorizationRequest, IncrementAuthorizationResponse, Result, ok, err,
}
use ledger_service.Sdk.{Transfer, TransferResult}
use ledger_service.Service.Increment.{
  answer_existing, lookup_existing_increment, settle_timeout, complete_increment, after_submission,
  submit_increment, found_or, decide_remaining, decide_increment, increment_checked,
  increment_found, increment_authorization, authorization_parsed, original_expiry,
}
use ledger_service.Service.Panics.{request_id-IsCalm, validate_external_id-IsCalm}
use ledger_service.Service.Rules.Calm.Calls.{
  Calm-now, Calm-observe_completion, Calm-ledger_create_transfer, Calm-ledger_lookup_transfer,
  Calm-require_account_kind, Calm-evaluate_risk,
}
use ledger_service.Service.Rules.Calm.{
  IsCalm, Calm, Calm-lift, Calm-pure, Calm-raise, Calm-fail_if, Calm-if, Calm-bind, Calm-attempt,
}
use ledger_service.Service.World.{Service, M, pure}

module _ {S : Type 0} (s : Service S) where
  ruleset steps = (
    Calm-bind, Calm-lift, Calm-pure, Calm-raise, Calm-fail_if, Calm-if, Calm-now,
    Calm-observe_completion, Calm-evaluate_risk, Calm-ledger_lookup_transfer, request_id-IsCalm,
    validate_external_id-IsCalm,
  )

  authorization_parsed-IsCalm : (o : Option ℕ) → IsCalm (authorization_parsed o)
  authorization_parsed-IsCalm none = refl
  authorization_parsed-IsCalm (some id) = refl

  module _ (request : IncrementAuthorizationRequest) (ms : ℤ) (original : Transfer)
      (increment_id started : ℕ) where
    answer_existing-Calm :
        (authorization_id : ℕ) (existing : Option Transfer)
        → Calm
            (answer_existing s request ms original increment_id started authorization_id existing)
    unfolding answer_existing
    answer_existing-Calm authorization_id none = search steps
    answer_existing-Calm authorization_id (some existing) = search steps

    lookup_existing_increment-Calm :
        (authorization_id : ℕ)
        → Calm
            (lookup_existing_increment s request ms original increment_id started authorization_id)
    unfolding lookup_existing_increment
    lookup_existing_increment-Calm authorization_id = search (steps, answer_existing-Calm)

    settle_timeout-Calm :
        (t : Transfer) (result : TransferResult)
        → Calm (settle_timeout s request ms original increment_id started t result)
    unfolding settle_timeout
    settle_timeout-Calm t result = search steps

    complete_increment-Calm :
        (result : TransferResult)
        → Calm (complete_increment s request ms original increment_id started result)
    unfolding complete_increment
    complete_increment-Calm result = search steps

    after_submission-Calm :
        (t : Transfer) (r : Result TransferResult)
        → IsCalm r
        → Calm (after_submission s request ms original increment_id started t r)
    unfolding after_submission
    after_submission-Calm t (err e) calm = search steps
    after_submission-Calm t (ok result) calm =
        search (steps, settle_timeout-Calm, complete_increment-Calm)

    submit_increment-Calm :
        (t : Transfer) → Calm (submit_increment s request ms original increment_id started t)
    unfolding submit_increment
    submit_increment-Calm t =
        Calm-attempt (Calm-ledger_create_transfer s t) (after_submission-Calm t)

    found_or-Calm :
        (refusal : IncrementAuthorizationResponse × ℕ) (report : M S (Unit {0}))
        (existing : Option (IncrementAuthorizationResponse × ℕ))
        → Calm report
        → Calm (found_or s request ms original increment_id started refusal report existing)
    found_or-Calm refusal report none calm = Calm-bind calm (λ _. Calm-pure refusal)
    found_or-Calm refusal report (some answer) calm = Calm-pure answer

    decide_remaining-Calm :
        (authorization_id : ℕ) (remaining : ℤ)
        → Calm
            (decide_remaining s request ms original increment_id started authorization_id remaining)
    unfolding decide_remaining
    decide_remaining-Calm authorization_id remaining =
        Calm-if _
          (Calm-bind (lookup_existing_increment-Calm authorization_id)
            (λ existing. found_or-Calm _ (pure tt) existing (Calm-pure tt)))
          (submit_increment-Calm _)

    decide_increment-Calm :
        (authorization_id : ℕ) (approved : Bool)
        → Calm
            (decide_increment s request ms original increment_id started authorization_id approved)
    unfolding decide_increment
    decide_increment-Calm authorization_id false =
        Calm-bind (lookup_existing_increment-Calm authorization_id)
          (λ existing. found_or-Calm _ _ existing (Calm-observe_completion s _ _ _ _ _ _ _))
    decide_increment-Calm authorization_id true =
        Calm-bind (Calm-now s)
          (λ t. decide_remaining-Calm authorization_id (time_sub (original_expiry original) t))

  module _ (request : IncrementAuthorizationRequest)
      (authorization_id increment_id started : ℕ) where
    increment_checked-Calm :
        (original : Transfer) (r : Result AccountMetadata)
        → IsCalm r
        → Calm (increment_checked s request authorization_id increment_id started original r)
    unfolding increment_checked
    increment_checked-Calm original (err e) calm = search steps
    increment_checked-Calm original (ok _) calm = search (steps, decide_increment-Calm) depth 8

    increment_found-Calm :
        (original : Option Transfer)
        → Calm (increment_found s request authorization_id increment_id started original)
    unfolding increment_found
    increment_found-Calm none = search steps
    increment_found-Calm (some original) = Calm-if _ (Calm-pure _) (
        Calm-attempt (Calm-require_account_kind s original.debit_account_id _)
          (increment_checked-Calm original))

  pub increment_authorization-Calm :
      (request : IncrementAuthorizationRequest) → Calm (increment_authorization s request)
  unfolding increment_authorization
  increment_authorization-Calm request =
      search (steps, authorization_parsed-IsCalm, increment_found-Calm) depth 12
