-- ===== src/Service/Increment/Answers.antt =====
-- The answers of `IncrementAuthorization` (internal/service/operations.go).
use ledger_service.Prelude.{ℕ, ◌≡◌, refl, ap, inl, inr, Option, none, some, Bool-cases}
use ledger_service.Prelude.Int.{ℤ}
use ledger_service.Domain.{
  authorization_increment, IncrementAuthorizationRequest, IncrementAuthorizationResponse,
  idempotency_conflict, Result, ok, err,
}
use ledger_service.Sdk.{Transfer, TransferResult}
use ledger_service.Service.Authorization.{same_transfer_except_timeout}
use ledger_service.Service.Increment.{
  found_or, replayed_increment, increment_response, increment_transfer, answer_existing,
  lookup_existing_increment, settle_timeout, settled, complete_increment, after_submission,
}
use ledger_service.Service.Calls.{ledger_lookup_transfer}
use ledger_service.Service.Ids.{request_id}
use ledger_service.Service.Rules.Calls.{Wp-report, Wp-report-Later}
use ledger_service.Service.Rules.Ledger.{Found, Wp-ledger_lookup_transfer}
use ledger_service.Service.Rules.Steps.{Sends, Sends-bind, Sends-none}
use ledger_service.Service.Rules.{LedgerLaws, transfer_entry, IsSound, Wp, Wp-bind-Quiet, Quiet}
use ledger_service.Service.Status.{is_idempotency_conflict, is_different_timeout}
use ledger_service.Service.World.{Service, World, M, ◌>>=◌, pure}
use ledger_service.Service.Increment.Increments.{
  IsOriginal, IsIncrement, IsUnsent, IsUnsent-err, IsUnsent-replayed_increment, IsOriginal-Later,
}

module _ {S : Type 0} (s : Service S) (laws : LedgerLaws s.env)
    (request : IncrementAuthorizationRequest) where
  pub Wp-complete_increment :
      (ms : ℤ) (original : Transfer) (id started : ℕ) (result : TransferResult) (w : World S)
      → IsSound s laws w
      → Wp s laws
          (complete_increment s request ms original id started result)
          w
          (Quiet w (λ _ _. Unit {0}))
  unfolding complete_increment
  Wp-complete_increment ms original id started result w sound =
      elim (Bool-cases (is_idempotency_conflict result.status)) [
        | inl conflict ↦
            rw (conflict, complete_increment)
              (Wp-report s laws {B = IncrementAuthorizationResponse × ℕ} w sound
                authorization_increment _ _ _ started _ _ (err idempotency_conflict)
                (λ _ _. Unit {0}) (λ _. tt))
        | inr other ↦
            rw (other, complete_increment)
              (Wp-report s laws {B = IncrementAuthorizationResponse × ℕ} w sound
                authorization_increment _ _ _ started _ _
                (ok (increment_response s request ms result)) (λ _ _. Unit {0}) (λ _. tt))
      ]

  pub Wp-settle_timeout :
      (ms : ℤ) (original : Transfer) (id started : ℕ) (t : Transfer) (result : TransferResult)
      (w : World S)
      → IsSound s laws w
      → Wp s laws
          (settle_timeout s request ms original id started t result)
          w
          (Quiet w (λ _ _. Unit {0}))
  unfolding settle_timeout
  Wp-settle_timeout ms original id started t result w sound =
      elim (Bool-cases (is_different_timeout result.status)) [
        | inr same ↦ rw (same, settle_timeout) (sound, λ a h. h, (refl, tt))
        | inl other ↦
            rw (other, settle_timeout)
              (Wp-bind-Quiet s laws (ledger_lookup_transfer s id)
                (λ found. pure (settled t result found)) w (Found s laws id) (λ _ _. Unit {0})
                (Wp-ledger_lookup_transfer s laws w sound id)
                (λ found w' sound' later _. (sound', λ a h. h, (refl, tt))) (λ e env _. tt))
      ]

  pub Wp-after_submission :
      (ms : ℤ) (original : Transfer) (id started : ℕ) (t : Transfer) (r : Result TransferResult)
      (w : World S)
      → IsSound s laws w
      → Wp s laws
          (after_submission s request ms original id started t r)
          w
          (Quiet w (λ _ _. Unit {0}))
  unfolding after_submission
  Wp-after_submission ms original id started t (err e) w sound =
      Wp-report s laws {B = IncrementAuthorizationResponse × ℕ} w sound authorization_increment _ _
        _ started _ _ (err e) (λ _ _. Unit {0}) (λ _. tt)
  Wp-after_submission ms original id started t (ok result) w sound =
      Wp-bind-Quiet s laws (settle_timeout s request ms original id started t result)
        (complete_increment s request ms original id started) w (λ _ _. Unit {0}) (λ _ _. Unit {0})
        (Wp-settle_timeout ms original id started t result w sound)
        (λ final w' sound' later _. Wp-complete_increment ms original id started final w' sound')
        (λ e env _. tt)

  -- an answer that was found may be returned with nothing sent
  abbrev IsAnswer : Result (Option (IncrementAuthorizationResponse × ℕ)) → S → Type 0
  IsAnswer r e =
      (x : IncrementAuthorizationResponse × ℕ) → r ≡ ok (some x) → IsUnsent s laws request (ok x) e

  module _ (authorization_id increment_id : ℕ) (original : Transfer) (ms : ℤ) (started : ℕ)
      (increment_named : request_id s.sdk request.request_id ≡ ok increment_id) where
    pub Wp-answer_existing :
        (found : Option Transfer) (w : World S)
        → IsSound s laws w
        → IsOriginal s laws request w.env authorization_id original
        → Found s laws increment_id (ok found) w.env
        → Wp s laws
            (answer_existing s request ms original increment_id started authorization_id found)
            w
            (Quiet w IsAnswer)
    unfolding answer_existing
    Wp-answer_existing none w sound known held = (sound, λ a h. h, (refl, λ x h. cc))
    Wp-answer_existing (some existing) w sound known held =
        elim (Bool-cases (
          same_transfer_except_timeout existing
            (increment_transfer s request original increment_id authorization_id 0))) [
              | inl same ↦
                  rw (same, answer_existing)
                    (Wp-report-Later s laws {B = Option (IncrementAuthorizationResponse × ℕ)} w
                      sound authorization_increment _ _ _ started _ _
                      (ok (some (replayed_increment s request ms existing, 200))) IsAnswer
                      (λ e later x h.
                        let (kept, named) = held existing refl in
                        let answer : (replayed_increment s request ms existing, 200) ≡ x = cc in
                        rw (← answer) (
                          IsUnsent-replayed_increment s laws request ms existing original
                            increment_id authorization_id e increment_named
                            (IsOriginal-Later s laws request authorization_id original later known)
                            (later (transfer_entry existing) kept, named) same)))
              | inr other ↦
                  rw (other, answer_existing)
                    (Wp-report s laws {B = Option (IncrementAuthorizationResponse × ℕ)} w sound
                      authorization_increment _ _ _ started _ _ (err idempotency_conflict) IsAnswer
                      (λ _ x h. cc))
            ]

    pub Wp-lookup_existing_increment :
        (w : World S)
        → IsSound s laws w
        → IsOriginal s laws request w.env authorization_id original
        → Wp s laws
            (lookup_existing_increment s request ms original increment_id started authorization_id)
            w
            (Quiet w IsAnswer)
    unfolding lookup_existing_increment
    Wp-lookup_existing_increment w sound known =
        Wp-bind-Quiet s laws (ledger_lookup_transfer s increment_id)
          (answer_existing s request ms original increment_id started authorization_id) w
          (Found s laws increment_id) IsAnswer
          (Wp-ledger_lookup_transfer s laws w sound increment_id)
          (λ found w' sound' later held.
            Wp-answer_existing found w' sound'
              (IsOriginal-Later s laws request authorization_id original later known) held)
          (λ e env _ x h. cc)

    -- the answer of an existing increment, or a refusal
    pub Sends-existing :
        (refusal : IncrementAuthorizationResponse × ℕ) (report : M S (Unit {0}))
        → ((e : S) → IsUnsent s laws request (ok refusal) e)
        → ((w : World S) → IsSound s laws w → Wp s laws report w (Quiet w (λ _ _. Unit {0})))
        → (existing : Option (IncrementAuthorizationResponse × ℕ)) (w : World S) → IsSound s laws w
        → ((x : IncrementAuthorizationResponse × ℕ)
            → existing ≡ some x
            → IsUnsent s laws request (ok x) w.env)
        → Sends s laws
            (IsUnsent s laws request)
            (IsIncrement s laws request)
            (found_or s request ms original increment_id started refusal report existing)
            w
    Sends-existing refusal report unsent quiet (some answer) w sound holds =
        Sends-none s laws (IsUnsent s laws request) (IsIncrement s laws request) w _
          (sound, λ a h. h, (refl, holds answer refl))
    Sends-existing refusal report unsent quiet none w sound holds =
        Sends-bind s laws (IsUnsent s laws request) (IsIncrement s laws request)
          (IsUnsent-err s laws request) w sound report (λ _. pure refusal) (λ _ _. Unit {0})
          (quiet w sound)
          (λ _ w' sound' later _.
            Sends-none s laws (IsUnsent s laws request) (IsIncrement s laws request) w' _
              (sound', λ a h. h, (refl, unsent w'.env)))

    pub Sends-found_or :
        (refusal : IncrementAuthorizationResponse × ℕ) (report : M S (Unit {0}))
        → ((e : S) → IsUnsent s laws request (ok refusal) e)
        → ((w : World S) → IsSound s laws w → Wp s laws report w (Quiet w (λ _ _. Unit {0})))
        → (w : World S) → IsSound s laws w
        → IsOriginal s laws request w.env authorization_id original
        → Sends s laws
            (IsUnsent s laws request)
            (IsIncrement s laws request)
            (lookup_existing_increment s request ms original increment_id started authorization_id
              >>= found_or s request ms original increment_id started refusal report)
            w
    Sends-found_or refusal report unsent quiet w sound known =
        Sends-bind s laws (IsUnsent s laws request) (IsIncrement s laws request)
          (IsUnsent-err s laws request) w sound _ _ IsAnswer
          (Wp-lookup_existing_increment w sound known)
          (λ existing w' sound' later holds.
            Sends-existing refusal report unsent quiet existing w' sound'
              (λ x e. holds x (ap ok e)))
