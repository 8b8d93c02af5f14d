-- ===== src/Service/Increment/Decision.antt =====
-- The decisions of `IncrementAuthorization`: the risk evaluation, and the time that is left (internal/service/operations.go).
use ledger_service.Prelude.{ℕ, Bool, true, false, ◌≡◌, ◌≢◌, refl, ◌≤◌, leb, ◌==◌, ◌&&◌, not, arith}
use ledger_service.Prelude.Int.{ℤ, pos, leb_ℤ}
use ledger_service.Clock.{time_sub}
use ledger_service.Domain.{authorization_increment, IncrementAuthorizationRequest, ok}
use ledger_service.Sdk.{Transfer}
use ledger_service.Service.Increment.Answers.{Wp-after_submission, Sends-found_or}
use ledger_service.Service.Increment.Increments.{
  IsOriginal, IsOriginal-Later, IsIncrement, IsUnsent, IsUnsent-err, IsUnsent-above,
  IsUnsent-not_open, IsIncrement-Later,
}
use ledger_service.Service.Increment.{
  increment_timeout, original_expiry, increment_transfer, submit_increment, decide_remaining,
  decide_increment,
}
use ledger_service.Service.Ids.{request_id}
use ledger_service.Service.Rules.Ledger.{Wp-now_read, Wp-observe_completion}
use ledger_service.Service.Rules.Steps.{Sends, Sends-bind, Sends-submission, Sends-if}
use ledger_service.Service.Rules.{LedgerLaws, IsSound}
use ledger_service.Service.World.{Service, World, pure, now}

time_left_lem :
    (timeout : ℕ) (remaining : ℤ)
    → timeout ≢ 0
    → (not (timeout == 0) && leb_ℤ remaining (pos 0)) ≡ false
    → leb_ℤ remaining (pos 0) ≡ false
time_left_lem timeout remaining timed test = ground arith

module _ {S : Type 0} (s : Service S) (laws : LedgerLaws s.env)
    (request : IncrementAuthorizationRequest) where
  module _ (authorization_id increment_id : ℕ) (original : Transfer) (ms : ℤ) (started : ℕ)
      (increment_named : request_id s.sdk request.request_id ≡ ok increment_id) where
    pub Sends-decide_remaining :
        (remaining : ℤ) (w : World S)
        → IsSound s laws w
        → IsOriginal s laws request w.env authorization_id original
        → (leb_ℤ remaining (pos 0) ≡ false
            → IsIncrement s laws request w.env (
                increment_transfer s request original increment_id authorization_id
                  (increment_timeout remaining original.timeout)))
        → Sends s laws
            (IsUnsent s laws request)
            (IsIncrement s laws request)
            (decide_remaining s request ms original increment_id started authorization_id remaining)
            w
    unfolding decide_remaining submit_increment
    Sends-decide_remaining remaining w sound known holds =
        Sends-if s laws (IsUnsent s laws request) (IsIncrement s laws request) w
          (not (original.timeout == 0) && leb_ℤ remaining (pos 0)) _ _
          (λ expired.
            Sends-found_or s laws request authorization_id increment_id original ms started
              increment_named _ (pure tt) (IsUnsent-not_open s laws request ms _)
              (λ w' sound'. (sound', λ a h. h, (refl, tt))) w sound known)
          (λ left.
            Sends-submission s laws (IsUnsent s laws request) (IsIncrement s laws request) w sound _
              _
              (λ e later. IsIncrement-Later s laws request later (
                holds (time_left_lem original.timeout remaining known.original_open.is_timed left)))
              (λ r w' sound'.
                Wp-after_submission s laws request ms original increment_id started
                  (increment_transfer s request original increment_id authorization_id
                    (increment_timeout remaining original.timeout))
                  r w' sound'))

    pub Sends-decide_increment :
        (approved : Bool) (w : World S)
        → IsSound s laws w
        → IsOriginal s laws request w.env authorization_id original
        → leb request.increment_cents s.risk_limit_cents ≡ approved
        → (request.increment_cents ≤ s.risk_limit_cents
            → (t : ℕ) (clock : S) → t ≡ (s.env.now clock).0
            → leb_ℤ (time_sub (original_expiry original) t) (pos 0) ≡ false
            → IsIncrement s laws request w.env (
                increment_transfer s request original increment_id authorization_id
                  (increment_timeout (time_sub (original_expiry original) t) original.timeout)))
        → Sends s laws
            (IsUnsent s laws request)
            (IsIncrement s laws request)
            (decide_increment s request ms original increment_id started authorization_id approved)
            w
    unfolding decide_increment
    Sends-decide_increment false w sound known above holds =
        Sends-found_or s laws request authorization_id increment_id original ms started
          increment_named _ _ (IsUnsent-above s laws request ms _ (λ within. ground arith))
          (λ w' sound'.
            let (sound'', later, (same, _)) =
              Wp-observe_completion s laws w' sound' authorization_increment request.request_id
                "declined" request.increment_cents started "not_submitted" _ in
            (sound'', later, (same, tt)))
          w sound known
    Sends-decide_increment true w sound known within holds =
        Sends-bind s laws (IsUnsent s laws request) (IsIncrement s laws request)
          (IsUnsent-err s laws request) w sound (now s) _ (λ r _. r ≡ ok (s.env.now w.env).0)
          (Wp-now_read s laws w sound)
          (λ t w' sound' later read.
            let now_read : t ≡ (s.env.now w.env).0 = cc in
            Sends-decide_remaining (time_sub (original_expiry original) t) w' sound'
              (IsOriginal-Later s laws request authorization_id original later known)
              (λ left.
                IsIncrement-Later s laws request later
                  (holds (ground arith) t w.env now_read left)))
