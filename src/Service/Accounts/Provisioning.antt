-- ===== src/Service/Accounts/Provisioning.antt =====
-- `EnsureSystemAccounts` (internal/service/service.go) succeeds where the ledger takes the accounts.
use ledger_service.Prelude.{ℕ, ◌+◌, ◌≡◌, ◌≢◌, refl, ap, ◌∙◌, true, not, inl, inr, [], ◌∷◌, arith}
use ledger_service.Client.{one_result, create_account}
use ledger_service.Domain.{
  AccountKind, safeguarded_cash, card_settlement_payable, Result, ok, rejected,
}
use ledger_service.Recipe.Laws.{ParentRule, table_account, account-table_account}
use ledger_service.Recipe.{account, safeguarded_cash_account_id}
use ledger_service.Sdk.{Account, AccountResult, AccountStatus, Env, done}
use ledger_service.Service.Accounts.System.{ensure_account-Wp}
use ledger_service.Service.Accounts.{is_provisioned, ensure_account, ensure_system_accounts}
use ledger_service.Service.Calls.{ledger_create_account, remember_account}
use ledger_service.Service.Rules.Calls.{Wp-remember_account}
use ledger_service.Service.Rules.Ledger.{held_if_made, Wp-ledger_create_account}
use ledger_service.Service.Rules.{LedgerLaws, IsMade, IsSound}
use ledger_service.Service.World.{Service, World, M, resume, ◌>>=◌, lift, fail_if, observed_call}

-- the ledger reports every account as created or existing
abbrev pub Provisions : {S : Type 0} → Env S → Type 0
Provisions {S} env =
    (a : Account) (e : S)
    → (r : AccountResult) × ((env.create_accounts (a ∷ []) e).0 ≡ done (r ∷ [])) × IsMade r.status

provisioned_if_made : (status : AccountStatus) → IsMade status → is_provisioned status ≡ true
provisioned_if_made status (inl e) = rw e refl
provisioned_if_made status (inr e) = rw e refl

suc_nonzero : (n : ℕ) → n + 1 ≢ 0
suc_nonzero n h = omega arith

module _ {S A B : Type 0} where
  bind-ok :
      (m : M S A) (f : A → M S B) (w : World S) {a : A} {r : Result B}
      → (m w).0 ≡ ok a
      → (f a (m w).1).0 ≡ r
      → ((m >>= f) w).0 ≡ r
  unfolding ◌>>=◌
  bind-ok m f w good rest = ap (λ r. (resume f r (m w).1).0) good ∙ rest

module _ {S : Type 0} (s : Service S) (laws : LedgerLaws s.env)
    (provisions : Provisions s.env) where
  ledger_create_account-ok :
      (a : Account) (w : World S)
      → (r : AccountResult) × ((ledger_create_account s a w).0 ≡ ok r) × IsMade r.status
  unfolding ledger_create_account observed_call create_account one_result
  ledger_create_account-ok a w =
      let (r, replied, good) = provisions a (s.env.now w.env).1 in
      (r, ap (one_result "create account") replied, good)

  module _ (kind : AccountKind) (id : ℕ) (nonzero : id ≢ 0) (ledger : s.ledger_id ≢ 0)
      (parent : ParentRule kind id 0) where
    ensure_account-ok : (w : World S) → IsSound s laws w → (ensure_account s kind id w).0 ≡ ok tt
    unfolding ensure_account
    ensure_account-ok w sound =
        let a = table_account s.sdk kind id 0 s.ledger_id in
        let made = account-table_account s.sdk kind id 0 s.ledger_id nonzero ledger parent in
        let (r, created, good) = ledger_create_account-ok a w in
        let w' = (ledger_create_account s a w).1 in
        let (sound', _, (_, held)) = Wp-ledger_create_account s laws w sound a in
        let (_, _, (_, remembered)) =
          Wp-remember_account s laws w' sound' a
            (held_if_made s laws a r w'.env (held r created) good) in
        let passed = provisioned_if_made r.status good in
        bind-ok (lift (account s.sdk kind id 0 s.ledger_id)) _ w made (
          bind-ok (ledger_create_account s a) _ w created (
            bind-ok
              (fail_if (not (is_provisioned r.status))
                (rejected (s.sdk.account_status_string r.status)))
              (λ _. remember_account s a) w' (rw passed refl) (rw passed remembered)))

  -- Where the ledger reports every account that is created as created or existing, and the service's
  -- ledger is not 0, `EnsureSystemAccounts` succeeds from a sound state.
  pub ensure_system_accounts-ok :
      (w : World S) → IsSound s laws w → s.ledger_id ≢ 0 → (ensure_system_accounts s w).0 ≡ ok tt
  unfolding ensure_system_accounts
  ensure_system_accounts-ok w sound ledger =
      bind-ok (ensure_account s safeguarded_cash safeguarded_cash_account_id) _ w
        (ensure_account-ok safeguarded_cash 1 (suc_nonzero 0) ledger refl w sound)
        (ensure_account-ok card_settlement_payable 2 (suc_nonzero 1) ledger refl
          (ensure_account s safeguarded_cash 1 w).1
          (ensure_account-Wp s laws safeguarded_cash 1 refl w sound).0)
