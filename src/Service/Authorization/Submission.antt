-- ===== src/Service/Authorization/Submission.antt =====
-- What `Authorize` sends to the ledger (internal/service/operations.go).
use ledger_service.Prelude.{
  ℕ, Bool, true, false, ◌≡◌, refl, inl, inr, ◌≤◌, leb, Option, none, some, arith, Bool-cases,
}
use ledger_service.Prelude.Int.{ℤ}
use ledger_service.Cache.{AccountMetadata}
use ledger_service.Clock.{milliseconds, time_sub}
use ledger_service.Domain.Laws.{eq_of_kind_eq}
use ledger_service.Domain.{
  authorization, card_wallet, AuthorizationRequest, AuthorizationResponse, idempotency_conflict,
  Result, ok, err,
}
use ledger_service.Sdk.{Transfer, TransferResult}
use ledger_service.Service.Authorization.{
  same_transfer, authorization_transfer, replayed_authorization, declined_authorization,
  authorization_response, answer_refused, complete_authorization, decide, authorize,
}
use ledger_service.Service.Calls.{evaluate_risk}
use ledger_service.Service.Ids.{account_id, request_id}
use ledger_service.Service.Rules.Calls.{
  Admitted, Wp-report, Wp-report-Later, Wp-require_account_kind, Wp-evaluate_risk,
}
use ledger_service.Service.Rules.Ledger.{Found, Wp-now, Wp-ledger_lookup_transfer}
use ledger_service.Service.Rules.Steps.{
  Sends, Sends-lift, Sends-fail_if, Sends-bind, Sends-submission, Sends-none,
}
use ledger_service.Service.Rules.{LedgerLaws, transfer_entry, Later, IsSound, Wp, Quiet}
use ledger_service.Service.Status.{is_idempotency_conflict}
use ledger_service.Service.World.{Service, World, M, ◌>>=◌, now}
use ledger_service.Service.Authorization.Holds.{
  IsUnsent, IsUnsent-err, declined_authorization-IsRefusal, authorization_transfer-hold_of,
  replayed_authorization-IsReplay, IsHold, IsHold-Later,
}

module _ {S : Type 0} (s : Service S) (laws : LedgerLaws s.env)
    (request : AuthorizationRequest) where
  Wp-complete_authorization :
      (ms : ℤ) (t : Transfer) (started : ℕ) (r : Result TransferResult) (w : World S)
      → IsSound s laws w
      → Wp s laws (complete_authorization s request ms t started r) w (Quiet w (λ _ _. Unit {0}))
  unfolding complete_authorization
  Wp-complete_authorization ms t started (err e) w sound =
      Wp-report s laws {B = AuthorizationResponse × ℕ} w sound authorization _ _ _ started _ _
        (err e) (λ _ _. Unit {0}) (λ _. tt)
  Wp-complete_authorization ms t started (ok result) w sound =
      elim (Bool-cases (is_idempotency_conflict result.status)) [
        | inl conflict ↦
            rw (conflict, complete_authorization)
              (Wp-report s laws {B = AuthorizationResponse × ℕ} w sound authorization _ _ _ started
                _ _ (err idempotency_conflict) (λ _ _. Unit {0}) (λ _. tt))
        | inr settled ↦
            rw (settled, complete_authorization)
              (Wp-report s laws {B = AuthorizationResponse × ℕ} w sound authorization _ _ _ started
                _ _ (ok (authorization_response s request ms result)) (λ _ _. Unit {0}) (λ _. tt))
      ]

  Wp-answer_refused :
      (ms : ℤ) (id card started : ℕ) (found : Option Transfer) (w : World S)
      → IsSound s laws w
      → ¬ (request.amount_cents ≤ s.risk_limit_cents)
      → request_id s.sdk request.request_id ≡ ok id
      → account_id s.sdk "card_id" request.card_id ≡ ok card
      → Found s laws id (ok found) w.env
      → Wp s laws
          (answer_refused s request ms (authorization_transfer s id card request) started found)
          w
          (Quiet w (IsUnsent s laws request))
  unfolding answer_refused IsUnsent
  Wp-answer_refused ms id card started none w sound above id_named card_named held =
      Wp-report s laws {B = AuthorizationResponse × ℕ} w sound authorization _ _ _ started _ _
        (ok (declined_authorization s request ms, 200)) (IsUnsent s laws request)
        (λ _. (above, refl, inl (declined_authorization-IsRefusal s laws request ms)))
  Wp-answer_refused ms id card started (some existing) w sound above id_named card_named held =
      elim (Bool-cases (same_transfer existing (authorization_transfer s id card request))) [
        | inl same ↦
            rw (same, answer_refused)
              (Wp-report-Later s laws {B = AuthorizationResponse × ℕ} w sound authorization _ _ _
                started _ _ (ok (replayed_authorization s request ms existing, 200))
                (IsUnsent s laws request)
                (λ e later.
                  let (kept, named) = held existing refl in
                  (
                    above,
                    refl,
                    inr (
                        replayed_authorization-IsReplay s laws request ms id card existing _
                          id_named card_named same (later (transfer_entry existing) kept, named)),
                  )))
        | inr other ↦
            rw (other, answer_refused)
              (Wp-report s laws {B = AuthorizationResponse × ℕ} w sound authorization _ _ _ started
                _ _ (err idempotency_conflict) (IsUnsent s laws request) (λ _. tt))
      ]

  Sends-decide :
      (ms : ℤ) (id card started : ℕ) (approved : Bool) (w : World S)
      → IsSound s laws w
      → leb request.amount_cents s.risk_limit_cents ≡ approved
      → request_id s.sdk request.request_id ≡ ok id
      → account_id s.sdk "card_id" request.card_id ≡ ok card
      → (request.amount_cents ≤ s.risk_limit_cents
          → (e : S) → Later s laws w.env e
          → IsHold s laws request e (authorization_transfer s id card request))
      → Sends s laws
          (IsUnsent s laws request)
          (IsHold s laws request)
          (decide s request ms (authorization_transfer s id card request) started approved)
          w
  unfolding decide authorization_transfer
  Sends-decide ms id card started true w sound within id_named card_named holds =
      Sends-submission s laws (IsUnsent s laws request) (IsHold s laws request) w sound _ _
        (holds (ground arith))
        (λ r w' sound'.
          Wp-complete_authorization ms (authorization_transfer s id card request) started r w'
            sound')
  Sends-decide ms id card started false w sound above id_named card_named holds =
      Sends-bind s laws (IsUnsent s laws request) (IsHold s laws request)
        (IsUnsent-err s laws request) w sound _ _ (Found s laws id)
        (Wp-ledger_lookup_transfer s laws w sound id)
        (λ found w' sound' later held.
          Sends-none s laws (IsUnsent s laws request) (IsHold s laws request) w' _ (
            Wp-answer_refused ms id card started found w' sound' (ground arith) id_named card_named
              held))

  -- the end of `Authorize`, from the risk evaluation on
  abbrev evaluated : ℕ → ℕ → ℕ → M S (AuthorizationResponse × ℕ)
  evaluated started card id = do
    risk_started ← now s
    approved ← evaluate_risk s request.amount_cents
    risk_ended ← now s
    decide s request (milliseconds (time_sub risk_ended risk_started))
        (authorization_transfer s id card request) started approved

  Sends-evaluated :
      (started card id : ℕ) (wallet : AccountMetadata) (w : World S)
      → IsSound s laws w
      → (request.amount_cents ≤ s.risk_limit_cents
          → IsHold s laws request w.env (authorization_transfer s id card request))
      → request_id s.sdk request.request_id ≡ ok id
      → account_id s.sdk "card_id" request.card_id ≡ ok card
      → Sends s laws (IsUnsent s laws request) (IsHold s laws request) (evaluated started card id) w
  Sends-evaluated started card id wallet w sound hold id_named card_named =
      Sends-bind s laws (IsUnsent s laws request) (IsHold s laws request)
        (IsUnsent-err s laws request) w sound _ _ (λ _ _. Unit {0}) (Wp-now s laws w sound)
        (λ risk_started w₁ sound₁ later₁ _.
          Sends-bind s laws (IsUnsent s laws request) (IsHold s laws request)
            (IsUnsent-err s laws request) w₁ sound₁ _ _
            (λ r _. (b : Bool) → r ≡ ok b → leb request.amount_cents s.risk_limit_cents ≡ b)
            (Wp-evaluate_risk s laws w₁ sound₁ request.amount_cents)
            (λ approved w₂ sound₂ later₂ tested.
              Sends-bind s laws (IsUnsent s laws request) (IsHold s laws request)
                (IsUnsent-err s laws request) w₂ sound₂ _ _ (λ _ _. Unit {0})
                (Wp-now s laws w₂ sound₂)
                (λ risk_ended w₃ sound₃ later₃ _.
                  Sends-decide _ id card started approved w₃ sound₃ (tested approved refl) id_named
                    card_named
                    (λ within e later.
                      (IsHold-Later s laws request)
                        (λ a h. later a (later₃ a (later₂ a (later₁ a h)))) (hold within)))))

  -- From a sound state `Authorize` leaves a sound state; it sends one transfer, or none. The one is the
  -- pending hold that the request asks for, written out, from a card that the ledger has, of an amount
  -- within the limit. It sends none only where it fails, or where the amount is above the limit and it
  -- answers with 200 a refusal, or the approval of a transfer that the ledger has under the ID of the
  -- request, and that is the hold but for its timestamp.
  pub authorize-Sends :
      (w : World S)
      → IsSound s laws w
      → Sends s laws (IsUnsent s laws request) (IsHold s laws request) (authorize s request) w
  unfolding authorize
  authorize-Sends w sound =
      Sends-lift s laws (IsUnsent s laws request) (IsHold s laws request)
        (IsUnsent-err s laws request) w sound _ _
        (λ card card_named.
          Sends-lift s laws (IsUnsent s laws request) (IsHold s laws request)
            (IsUnsent-err s laws request) w sound _ _
            (λ _ merchant_valid.
              Sends-fail_if s laws (IsUnsent s laws request) (IsHold s laws request)
                (IsUnsent-err s laws request) w sound _ _ _
                (λ positive.
                  Sends-lift s laws (IsUnsent s laws request) (IsHold s laws request)
                    (IsUnsent-err s laws request) w sound _ _
                    (λ id id_named.
                      Sends-bind s laws (IsUnsent s laws request) (IsHold s laws request)
                        (IsUnsent-err s laws request) w sound _ _ (λ _ _. Unit {0})
                        (Wp-now s laws w sound)
                        (λ started w₁ sound₁ later₁ _.
                          Sends-bind s laws (IsUnsent s laws request) (IsHold s laws request)
                            (IsUnsent-err s laws request) w₁ sound₁ _ _
                            (Admitted s laws card card_wallet)
                            (Wp-require_account_kind s laws w₁ sound₁ card card_wallet)
                            (λ wallet w₂ sound₂ later₂ admitted.
                              Sends-evaluated started card id wallet w₂ sound₂
                                (λ within. record {
                                  id = id;
                                  card = card;
                                  wallet = wallet;
                                  id_named = id_named;
                                  card_named = card_named;
                                  merchant_valid = merchant_valid;
                                  amount_positive = ground arith;
                                  amount_within = within;
                                  card_backed = (admitted wallet refl).0;
                                  card_kind =
                                      eq_of_kind_eq wallet.kind card_wallet
                                        (admitted wallet refl).1;
                                  built = authorization_transfer-hold_of s laws request id card;
                                })
                                id_named card_named))))))
