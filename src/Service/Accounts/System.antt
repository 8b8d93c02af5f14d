-- ===== src/Service/Accounts/System.antt =====
-- `EnsureSystemAccounts` (internal/service/service.go): where it succeeds, the ledger has both system
-- accounts, as the service recognises them.
use ledger_service.Prelude.{ℕ, ◌≡◌, refl, sym, Bool, true, false, not, inl, inr}
use ledger_service.Domain.{
  AccountKind, safeguarded_cash, card_settlement_payable, Error, Result, ok, rejected,
}
use ledger_service.Recipe.Laws.{account-IsAccount}
use ledger_service.Recipe.{account, safeguarded_cash_account_id}
use ledger_service.Sdk.{Account, AccountResult, AccountStatus}
use ledger_service.Service.Accounts.{is_provisioned, ensure_account, ensure_system_accounts}
use ledger_service.Service.Calls.{ledger_create_account, remember_account}
use ledger_service.Service.Metadata.Laws.{PlaceRule, metadata_for_account-account}
use ledger_service.Service.Rules.Calls.{Wp-remember_account}
use ledger_service.Service.Rules.Ledger.{Replied, held_if_made, Wp-ledger_create_account}
use ledger_service.Service.Rules.{
  LedgerLaws, IsMade, account_entry, Backed, Backed-Later, IsSound, Wp, Wp-bind-Quiet, Quiet,
}
use ledger_service.Service.World.{Service, World, lift, fail_if}

-- the test of the program passes the statuses of an account that the ledger then has
IsMade-is_provisioned :
    (status : AccountStatus) → not (is_provisioned status) ≡ false → IsMade status
IsMade-is_provisioned AccountStatus.created h = inl refl
IsMade-is_provisioned AccountStatus.exists h = inr refl
IsMade-is_provisioned _ h = cc

module _ {S : Type 0} (s : Service S) (laws : LedgerLaws s.env) where
  -- the ledger has the system account of a kind under its ID, as the service recognises it
  abbrev pub HasSystemAccount : AccountKind → ℕ → S → Type 0
  HasSystemAccount kind id e = Backed s laws e id (record { kind = kind; corporate_account_id = 0 })

  abbrev pub HasSystemAccounts : S → Type 0
  HasSystemAccounts e =
      HasSystemAccount safeguarded_cash 1 e × HasSystemAccount card_settlement_payable 2 e

  -- what a success ensures of the ledger
  abbrev pub Ensures : (S → Type 0) → Result (Unit {0}) → S → Type 0
  Ensures P r e = r ≡ ok tt → P e

  abbrev Created : Account → Result AccountResult → S → Type 0
  Created a r e = (q : AccountResult) → r ≡ ok q → Replied s laws a q e

  guard-Wp :
      (b : Bool) (e : Error) (w : World S)
      → IsSound s laws w
      → Wp s laws (fail_if b e) w (Quiet w (Ensures (λ _. b ≡ false)))
  guard-Wp false e w sound = (sound, λ x h. h, (refl, λ _. refl))
  guard-Wp true e w sound = (sound, λ x h. h, (refl, λ h. cc))

  module _ (kind : AccountKind) (id : ℕ) (place : PlaceRule kind id) where
    remember-Wp :
        (a : Account) (w : World S)
        → IsSound s laws w
        → account s.sdk kind id 0 s.ledger_id ≡ ok a
        → laws.Holds w.env (account_entry a)
        → Wp s laws (remember_account s a) w (Quiet w (Ensures (HasSystemAccount kind id)))
    remember-Wp a w sound made held =
        let (sound', later, (same, _)) = Wp-remember_account s laws w sound a held in
        let reads =
          metadata_for_account-account s.sdk kind id 0 s.ledger_id a.debits_pending a.debits_posted
            a.credits_pending a.credits_posted a.timestamp made place in
        let named = (account-IsAccount s.sdk kind id 0 s.ledger_id made).id_kept.0 in
        (sound', later, (same, λ _. (a, later (account_entry a) held, named, reads)))

    pub ensure_account-Wp :
        (w : World S)
        → IsSound s laws w
        → Wp s laws (ensure_account s kind id) w (Quiet w (Ensures (HasSystemAccount kind id)))
    unfolding ensure_account
    ensure_account-Wp w sound =
        Wp-bind-Quiet s laws (lift (account s.sdk kind id 0 s.ledger_id)) _ w
          (λ r _. r ≡ account s.sdk kind id 0 s.ledger_id) (Ensures (HasSystemAccount kind id))
          (sound, λ x h. h, (refl, refl))
          (λ a w1 sound1 later1 made.
            Wp-bind-Quiet s laws (ledger_create_account s a) _ w1 (Created a)
              (Ensures (HasSystemAccount kind id)) (Wp-ledger_create_account s laws w1 sound1 a)
              (λ q w2 sound2 later2 held.
                Wp-bind-Quiet s laws
                  (fail_if (not (is_provisioned q.status))
                    (rejected (s.sdk.account_status_string q.status)))
                  (λ _. remember_account s a) w2
                  (Ensures (λ _. not (is_provisioned q.status) ≡ false))
                  (Ensures (HasSystemAccount kind id)) (guard-Wp _ _ w2 sound2)
                  (λ _ w3 sound3 later3 passed. remember-Wp a w3 sound3 (sym made) (
                    later3 (account_entry a) (
                      held_if_made s laws a q w2.env (held q refl)
                        (IsMade-is_provisioned q.status (passed refl)))))
                  (λ e env _ h. cc))
              (λ e env _ h. cc))
          (λ e env _ h. cc)

  -- From a sound state `EnsureSystemAccounts` leaves a sound state and sends no transfer; where it
  -- succeeds, the ledger has the safeguarded-cash account under 1 and the card-settlement account
  -- under 2, each as the service recognises it.
  pub ensure_system_accounts-Wp :
      (w : World S)
      → IsSound s laws w
      → Wp s laws (ensure_system_accounts s) w (Quiet w (Ensures HasSystemAccounts))
  unfolding ensure_system_accounts
  ensure_system_accounts-Wp w sound =
      Wp-bind-Quiet s laws (ensure_account s safeguarded_cash safeguarded_cash_account_id) _ w
        (Ensures (HasSystemAccount safeguarded_cash 1)) (Ensures HasSystemAccounts)
        (ensure_account-Wp safeguarded_cash 1 refl w sound)
        (λ _ w1 sound1 later1 first.
          let (sound2, later2, (same, second)) =
            ensure_account-Wp card_settlement_payable 2 refl w1 sound1 in
          (
            sound2,
            later2,
            (same, λ done. (Backed-Later s laws 1 _ later2 (first refl), second done)),
          ))
        (λ e env _ h. cc)
