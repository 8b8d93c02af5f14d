-- ===== src/Service/Metadata/Balances.antt =====
-- The balances that the API reports, under the ledger's own guarantee for the account's flags.
use ledger_service.Prelude.{◌≡◌, ◌+◌, ◌≤◌}
use ledger_service.Prelude.Int.{ℤ, pos, ◌+ℤ◌, ◌≤ℤ◌, int_laws}
use ledger_service.Domain.{
  AccountKind, safeguarded_cash, corporate_wallet, card_wallet, card_settlement_payable,
  unsupported,
}
use ledger_service.Sdk.{Account}
use ledger_service.Service.Metadata.{balances}

-- What the ledger guarantees of an account with the flag of its kind: the restricted side, pending
-- amounts included, does not exceed what is posted on the other.
abbrev pub IsCovered : AccountKind → Account → Type 0
IsCovered safeguarded_cash a = a.credits_pending + a.credits_posted ≤ a.debits_posted
IsCovered _ a = a.debits_pending + a.debits_posted ≤ a.credits_posted

-- The posted balance is what is posted on the account's own side over what is posted on the other; the available
-- balance is less by what is pending.
abbrev pub HasBalances : AccountKind → Account → ℤ → ℤ → Type 0
HasBalances safeguarded_cash a posted available =
    (posted +ℤ pos a.credits_posted ≡ pos a.debits_posted)
    × (available +ℤ pos a.credits_pending ≡ posted)
HasBalances _ a posted available =
    (posted +ℤ pos a.debits_posted ≡ pos a.credits_posted)
    × (available +ℤ pos a.debits_pending ≡ posted)

pub balances_lem :
    (a : Account) (kind : AccountKind)
    → let (posted, available) = balances a kind in HasBalances kind a posted available
unfolding balances
balances_lem a safeguarded_cash = (omega int_laws, omega int_laws)
balances_lem a corporate_wallet = (omega int_laws, omega int_laws)
balances_lem a card_wallet = (omega int_laws, omega int_laws)
balances_lem a card_settlement_payable = (omega int_laws, omega int_laws)
balances_lem a (unsupported t) = (omega int_laws, omega int_laws)

available_bounds :
    (a : Account) (kind : AccountKind)
    → IsCovered kind a
    → let (posted, available) = balances a kind in (pos 0 ≤ℤ available) × (available ≤ℤ posted)
unfolding balances
available_bounds a safeguarded_cash h = omega int_laws
available_bounds a corporate_wallet h = omega int_laws
available_bounds a card_wallet h = omega int_laws
available_bounds a card_settlement_payable h = omega int_laws
available_bounds a (unsupported t) h = omega int_laws

-- The posted balance is what is posted on the account's own side over what is posted on the other, and the
-- available balance is less by exactly what is pending; for an account that the ledger keeps covered, the
-- available balance is not negative and does not exceed the posted balance.
pub balances_bounds :
    (a : Account) (kind : AccountKind)
    → IsCovered kind a
    → let (posted, available) = balances a kind in
      HasBalances kind a posted available × (pos 0 ≤ℤ available) × (available ≤ℤ posted)
balances_bounds a kind h =
    let (low, high) = available_bounds a kind h in (balances_lem a kind, low, high)
