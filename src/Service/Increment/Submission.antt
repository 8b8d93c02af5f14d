-- ===== src/Service/Increment/Submission.antt =====
-- What `IncrementAuthorization` sends to the ledger (internal/service/operations.go).
use ledger_service.Prelude.{ℕ, Bool, ◌≡◌, ◌≢◌, refl, ap, leb, Option, none, some, arith}
use ledger_service.Prelude.Int.{pos}
use ledger_service.Cache.{AccountMetadata}
use ledger_service.Domain.Laws.{eq_of_kind_eq}
use ledger_service.Domain.{
  card_wallet, IncrementAuthorizationRequest, IncrementAuthorizationResponse, Result, ok, err,
  is_account_not_found, authorization_not_found,
}
use ledger_service.Sdk.{Transfer}
use ledger_service.Service.Increment.Increments.{
  IsIncrement, IsUnsent, IsUnsent-err, IsUnsent-not_open, IsIncrement-Later, IsOriginal,
  IsOriginal-Later, time_left_of, is_not_open-IsOpen, increment_transfer-increment_of,
}
use ledger_service.Service.Increment.Decision.{Sends-decide_increment}
use ledger_service.Service.Increment.{
  authorization_parsed, increment_timeout, is_not_open, increment_failure, increment_checked,
  increment_found, increment_authorization,
}
use ledger_service.Service.Calls.{require_account_kind}
use ledger_service.Service.Ids.{parse_public_id, request_id}
use ledger_service.Service.Rules.Calls.{Admitted, Wp-require_account_kind, Wp-evaluate_risk}
use ledger_service.Service.Rules.Ledger.{Found, Wp-now, Wp-ledger_lookup_transfer}
use ledger_service.Service.Rules.Steps.{
  Sends, Sends-lift, Sends-fail_if, Sends-bind, Sends-answer, Sends-if, Wp-attempt,
}
use ledger_service.Service.Rules.{LedgerLaws, transfer_entry, IsSound}
use ledger_service.Service.World.{Service, World, M, ◌>>=◌, pure, raise, attempt, now}

authorization_parsed_lem : (o : Option ℕ) (id : ℕ) → authorization_parsed o ≡ ok id → o ≡ some id
authorization_parsed_lem none id h = cc
authorization_parsed_lem (some n) id h = let e : n ≡ id = cc in ap some e

module _ {S : Type 0} (s : Service S) (laws : LedgerLaws s.env)
    (request : IncrementAuthorizationRequest) where
  module _ (authorization_id increment_id started : ℕ)
      (authorization_named : parse_public_id s.sdk request.authorization_id ≡ some authorization_id)
      (increment_named : request_id s.sdk request.request_id ≡ ok increment_id)
      (positive : request.increment_cents ≢ 0) (differ : increment_id ≢ authorization_id) where
    abbrev not_open : M S (IncrementAuthorizationResponse × ℕ)
    not_open = pure (
        increment_failure s request (pos 0) "authorization_not_open"
          "the transfer is not an open authorization" 409)

    Sends-not_open :
        (w : World S)
        → IsSound s laws w
        → Sends s laws (IsUnsent s laws request) (IsIncrement s laws request) not_open w
    Sends-not_open w sound =
        Sends-answer s laws (IsUnsent s laws request) (IsIncrement s laws request) w _ sound (
          IsUnsent-not_open s laws request (pos 0) "the transfer is not an open authorization"
            w.env)

    abbrev AdmittedResult : Transfer → Result (Result AccountMetadata) → S → Type 0
    AdmittedResult original r e =
        (a : Result AccountMetadata)
        → r ≡ ok a
        → Admitted s laws original.debit_account_id card_wallet a e

    abbrev open_increment : Transfer → M S (IncrementAuthorizationResponse × ℕ)
    open_increment original = do
      wallet ← attempt (require_account_kind s original.debit_account_id card_wallet)
      increment_checked s request authorization_id increment_id started original wallet

    Sends-increment_checked :
        (original : Transfer) (r : Result AccountMetadata) (w : World S)
        → IsSound s laws w
        → IsOriginal s laws request w.env authorization_id original
        → Admitted s laws original.debit_account_id card_wallet r w.env
        → Sends s laws
            (IsUnsent s laws request)
            (IsIncrement s laws request)
            (increment_checked s request authorization_id increment_id started original r)
            w
    unfolding increment_checked
    Sends-increment_checked original (err e) w sound known admitted =
        Sends-if s laws (IsUnsent s laws request) (IsIncrement s laws request) w
          (is_account_not_found e) not_open (raise e) (λ _. Sends-not_open w sound)
          (λ _.
            Sends-answer s laws (IsUnsent s laws request) (IsIncrement s laws request) w (err e)
              sound (IsUnsent-err s laws request e w.env))
    Sends-increment_checked original (ok card) w sound known admitted =
        Sends-bind s laws (IsUnsent s laws request) (IsIncrement s laws request)
          (IsUnsent-err s laws request) w sound (now s) _ (λ _ _. Unit {0}) (Wp-now s laws w sound)
          (λ risk_started w₁ sound₁ later₁ _.
            Sends-bind s laws (IsUnsent s laws request) (IsIncrement s laws request)
              (IsUnsent-err s laws request) w₁ sound₁ _ _
              (λ r _. (b : Bool) → r ≡ ok b → leb request.increment_cents s.risk_limit_cents ≡ b)
              (Wp-evaluate_risk s laws w₁ sound₁ request.increment_cents)
              (λ approved w₂ sound₂ later₂ tested.
                Sends-bind s laws (IsUnsent s laws request) (IsIncrement s laws request)
                  (IsUnsent-err s laws request) w₂ sound₂ (now s) _ (λ _ _. Unit {0})
                  (Wp-now s laws w₂ sound₂)
                  (λ risk_ended w₃ sound₃ later₃ _.
                    Sends-decide_increment s laws request authorization_id increment_id original _
                      started increment_named approved w₃ sound₃
                      (IsOriginal-Later s laws request authorization_id original
                        (λ a h. later₃ a (later₂ a (later₁ a h))) known)
                      (tested approved refl)
                      (λ within t clock now_read left.
                        IsIncrement-Later s laws request (λ a h. later₃ a (later₂ a (later₁ a h)))
                          record {
                            authorization_id = authorization_id;
                            increment_id = increment_id;
                            original = original;
                            card = card;
                            read_at = t;
                            original_named = known;
                            increment_named = increment_named;
                            ids_differ = differ;
                            amount_positive = positive;
                            amount_within = within;
                            card_backed = (admitted card refl).0;
                            card_kind = eq_of_kind_eq card.kind card_wallet (admitted card refl).1;
                            read_in = clock;
                            read_now = now_read;
                            time_left = left;
                            built =
                                increment_transfer-increment_of s laws request original increment_id
                                  authorization_id
                                  (increment_timeout (time_left_of s laws request original t)
                                    original.timeout);
                          }))))

    Sends-increment_found :
        (found : Option Transfer) (w : World S)
        → IsSound s laws w
        → ((t : Transfer)
            → found ≡ some t
            → laws.Holds w.env (transfer_entry t) × (t.id ≡ authorization_id))
        → Sends s laws
            (IsUnsent s laws request)
            (IsIncrement s laws request)
            (increment_found s request authorization_id increment_id started found)
            w
    unfolding increment_found
    Sends-increment_found none w sound held =
        Sends-answer s laws (IsUnsent s laws request) (IsIncrement s laws request) w
          (err authorization_not_found) sound
          (IsUnsent-err s laws request authorization_not_found w.env)
    Sends-increment_found (some original) w sound held =
        Sends-if s laws (IsUnsent s laws request) (IsIncrement s laws request) w
          (is_not_open s original) not_open (open_increment original) (λ _. Sends-not_open w sound)
          (λ opened.
            Sends-bind s laws (IsUnsent s laws request) (IsIncrement s laws request)
              (IsUnsent-err s laws request) w sound _ _ (AdmittedResult original)
              (Wp-attempt s laws (require_account_kind s original.debit_account_id card_wallet) w
                (Admitted s laws original.debit_account_id card_wallet)
                (Wp-require_account_kind s laws w sound original.debit_account_id card_wallet))
              (λ card w' sound' later admitted.
                Sends-increment_checked original card w' sound'
                  (record {
                    authorization_named = authorization_named;
                    original_held = (
                      later (transfer_entry original) (held original refl).0,
                      (held original refl).1,
                    );
                    original_open = is_not_open-IsOpen s laws request original opened;
                  })
                  (admitted card refl)))

  -- From a sound state `IncrementAuthorization` leaves a sound state; it sends one transfer, or none.
  -- The one is the increment that the request asks for, written out, of an open authorization that the
  -- ledger has under the ID that the request names, of an amount within the limit and with the timeout
  -- for the time left. It sends none only where it fails, refuses an amount above the limit with 200 or
  -- an authorization that is not open with 409, or approves with 200 a transfer that the ledger has
  -- under the ID of the request, and that is the increment but for its timeout and timestamp.
  pub increment_authorization-Sends :
      (w : World S)
      → IsSound s laws w
      → Sends s laws
          (IsUnsent s laws request)
          (IsIncrement s laws request)
          (increment_authorization s request)
          w
  unfolding increment_authorization
  increment_authorization-Sends w sound =
      Sends-lift s laws (IsUnsent s laws request) (IsIncrement s laws request)
        (IsUnsent-err s laws request) w sound _ _
        (λ _ valid.
          Sends-lift s laws (IsUnsent s laws request) (IsIncrement s laws request)
            (IsUnsent-err s laws request) w sound _ _
            (λ authorization_id known.
              Sends-fail_if s laws (IsUnsent s laws request) (IsIncrement s laws request)
                (IsUnsent-err s laws request) w sound _ _ _
                (λ positive.
                  Sends-lift s laws (IsUnsent s laws request) (IsIncrement s laws request)
                    (IsUnsent-err s laws request) w sound _ _
                    (λ increment_id named.
                      Sends-fail_if s laws (IsUnsent s laws request) (IsIncrement s laws request)
                        (IsUnsent-err s laws request) w sound _ _ _
                        (λ differ.
                          Sends-bind s laws (IsUnsent s laws request) (IsIncrement s laws request)
                            (IsUnsent-err s laws request) w sound (now s) _ (λ _ _. Unit {0})
                            (Wp-now s laws w sound)
                            (λ started w₁ sound₁ later₁ _.
                              Sends-bind s laws (IsUnsent s laws request)
                                (IsIncrement s laws request) (IsUnsent-err s laws request) w₁ sound₁
                                _ _ (Found s laws authorization_id)
                                (Wp-ledger_lookup_transfer s laws w₁ sound₁ authorization_id)
                                (λ found w₂ sound₂ later₂ held.
                                  Sends-increment_found authorization_id increment_id started
                                    (authorization_parsed_lem _ authorization_id known) named
                                    (ground arith) (ground arith) found w₂ sound₂
                                    (λ t e. held t (ap ok e)))))))))
