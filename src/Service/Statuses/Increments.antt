-- ===== src/Service/Statuses/Increments.antt =====
-- The HTTP statuses of the answers of `IncrementAuthorization` (internal/service/operations.go).
use ledger_service.Prelude.{ℕ, Bool, true, false, refl, Option, none, some, str_eq}
use ledger_service.Prelude.Int.{ℤ}
use ledger_service.Cache.{AccountMetadata}
use ledger_service.Clock.{time_sub, milliseconds}
use ledger_service.Domain.{
  IncrementAuthorizationRequest, IncrementAuthorizationResponse, Result, ok, err,
  is_account_not_found,
}
use ledger_service.Sdk.{Transfer, TransferResult}
use ledger_service.Service.Increment.{
  increment_response, answer_existing, lookup_existing_increment, complete_increment,
  after_submission, submit_increment, found_or, decide_remaining, decide_increment,
  increment_checked, increment_found, increment_authorization, increment_failure,
  increment_transfer, increment_timeout, original_expiry,
}
use ledger_service.Service.Rules.Ends.{Ends, Ends-pure, Ends-raise, Ends-if, Ends-bind, Ends-then}
use ledger_service.Service.Status.{is_success, error_code}
use ledger_service.Service.Statuses.Answer.{IsAnswer, IsAnswer-if, error_code-is_status}
use ledger_service.Service.World.{Service, M}

-- the answer found for an increment that exists, if any
abbrev IsFound : {A : Type 0} → Option (A × ℕ) → Type 0
IsFound none = Unit
IsFound (some answer) = IsAnswer answer

module _ {S : Type 0} (s : Service S) (request : IncrementAuthorizationRequest) where
  module _ (ms : ℤ) where
    increment_response-IsAnswer :
        (result : TransferResult) → IsAnswer (increment_response s request ms result)
    unfolding increment_response
    increment_response-IsAnswer result = IsAnswer-if (is_success result.status) _ _ refl (
        IsAnswer-if (str_eq (error_code result.status).0 "insufficient_funds") _ _ refl
          (error_code-is_status result.status))

    module _ (original : Transfer) (increment_id started : ℕ) where
      answer_existing-Ends :
          (authorization_id : ℕ) (existing : Option Transfer)
          → Ends IsFound
              (answer_existing s request ms original increment_id started authorization_id existing)
      unfolding answer_existing
      answer_existing-Ends authorization_id none = Ends-pure _ tt
      answer_existing-Ends authorization_id (some existing) =
          Ends-if _ (Ends-then _ (λ _. Ends-raise _)) (Ends-then _ (λ _. Ends-pure _ refl))

      lookup_existing_increment-Ends :
          (authorization_id : ℕ)
          → Ends IsFound (
              lookup_existing_increment s request ms original increment_id started authorization_id)
      unfolding lookup_existing_increment
      lookup_existing_increment-Ends authorization_id =
          Ends-then _ (λ existing. answer_existing-Ends authorization_id existing)

      complete_increment-Ends :
          (result : TransferResult)
          → Ends IsAnswer (complete_increment s request ms original increment_id started result)
      unfolding complete_increment
      complete_increment-Ends result =
          Ends-if _ (Ends-then _ (λ _. Ends-raise _))
            (Ends-then _ (λ _. Ends-pure _ (increment_response-IsAnswer result)))

      after_submission-Ends :
          (t : Transfer) (r : Result TransferResult)
          → Ends IsAnswer (after_submission s request ms original increment_id started t r)
      unfolding after_submission
      after_submission-Ends t (err e) = Ends-then _ (λ _. Ends-raise e)
      after_submission-Ends t (ok result) = Ends-then _ (λ final. complete_increment-Ends final)

      found_or-Ends :
          (refusal : IncrementAuthorizationResponse × ℕ) (report : M S (Unit {0}))
          → IsAnswer refusal
          → (existing : Option (IncrementAuthorizationResponse × ℕ)) → IsFound existing
          → Ends IsAnswer
              (found_or s request ms original increment_id started refusal report existing)
      found_or-Ends refusal report answer (some existing) found = Ends-pure _ found
      found_or-Ends refusal report answer none _ = Ends-then _ (λ _. Ends-pure _ answer)

      decide_remaining-Ends :
          (authorization_id : ℕ) (remaining : ℤ)
          → Ends IsAnswer (
              decide_remaining s request ms original increment_id started authorization_id
                remaining)
      unfolding decide_remaining submit_increment increment_failure
      decide_remaining-Ends authorization_id remaining =
          Ends-if _
            (Ends-bind IsFound (lookup_existing_increment-Ends authorization_id)
              (found_or-Ends _ _ refl))
            (Ends-then _ (λ r.
              after_submission-Ends
                (increment_transfer s request original increment_id authorization_id
                  (increment_timeout remaining original.timeout))
                r))

      decide_increment-Ends :
          (authorization_id : ℕ) (approved : Bool)
          → Ends IsAnswer (
              decide_increment s request ms original increment_id started authorization_id approved)
      unfolding decide_increment increment_failure
      decide_increment-Ends authorization_id false =
          Ends-bind IsFound (lookup_existing_increment-Ends authorization_id)
            (found_or-Ends _ _ refl)
      decide_increment-Ends authorization_id true =
          Ends-then _
            (λ t. decide_remaining-Ends authorization_id (time_sub (original_expiry original) t))

  increment_checked-Ends :
      (authorization_id increment_id started : ℕ) (original : Transfer) (r : Result AccountMetadata)
      → Ends IsAnswer (increment_checked s request authorization_id increment_id started original r)
  unfolding increment_checked increment_failure
  increment_checked-Ends authorization_id increment_id started original (err e) =
      Ends-if (is_account_not_found e) (Ends-pure _ refl) (Ends-raise e)
  increment_checked-Ends authorization_id increment_id started original (ok _) =
      Ends-then _ (λ risk_started. Ends-then _ (λ approved. Ends-then _ (λ risk_ended.
        decide_increment-Ends (milliseconds (time_sub risk_ended risk_started)) original
          increment_id started authorization_id approved)))

  increment_found-Ends :
      (authorization_id increment_id started : ℕ) (original : Option Transfer)
      → Ends IsAnswer (increment_found s request authorization_id increment_id started original)
  unfolding increment_found increment_failure
  increment_found-Ends authorization_id increment_id started none = Ends-raise _
  increment_found-Ends authorization_id increment_id started (some original) =
      Ends-if _ (Ends-pure _ refl) (
        Ends-then _
          (λ wallet. increment_checked-Ends authorization_id increment_id started original wallet))

  pub increment_authorization-Ends : Ends IsAnswer (increment_authorization s request)
  unfolding increment_authorization
  increment_authorization-Ends = Ends-then _ (λ _. Ends-then _ (λ _. Ends-then _ (λ _.
      Ends-then _ (λ _.
        Ends-then _ (λ _.
          Ends-then _ (λ _. Ends-then _ (λ original. increment_found-Ends _ _ _ original)))))))
