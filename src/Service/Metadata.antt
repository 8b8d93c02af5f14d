-- ===== src/Service/Metadata.antt =====
-- How the service reads an account of the ledger (internal/service/service.go): its kind, its parent
-- and its balances.
pub mod Laws
pub mod Balances
use ledger_service.Prelude.{
  ℕ, Bool, true, false, not, ◌&&◌, ◌||◌, Option, none, some, ◌==◌, if◌then◌else◌,
}
use ledger_service.Prelude.Int.{ℤ, pos, sub_ℕ, ◌-ℤ◌}
use ledger_service.Cache.{AccountMetadata}
use ledger_service.Domain.{
  AccountKind, safeguarded_cash, corporate_wallet, card_wallet, card_settlement_payable, kind_eq,
  ok, err,
}
use ledger_service.Recipe.{
  account, account_code_safeguarded_cash, account_code_corporate_wallet, account_code_card_wallet,
  account_code_card_settlement_payable, safeguarded_cash_account_id,
  card_settlement_payable_account_id, is_system_account_id,
}
use ledger_service.Sdk.{Account, Sdk}

-- `accountKind`
unfoldable pub account_kind : Account → Option AccountKind
account_kind a =
    if a.code == account_code_safeguarded_cash
    then some safeguarded_cash
    else if a.code == account_code_corporate_wallet
    then some corporate_wallet
    else if a.code == account_code_card_wallet
    then some card_wallet
    else if a.code == account_code_card_settlement_payable
    then some card_settlement_payable
    else none

-- the test of `metadataForAccount` on the ID: a system account has its reserved ID, and a wallet none
abbrev pub is_misplaced : AccountKind → ℕ → Bool
is_misplaced kind id =
    (kind_eq kind safeguarded_cash && not (id == safeguarded_cash_account_id))
    || (kind_eq kind card_settlement_payable && not (id == card_settlement_payable_account_id))
    || ((kind_eq kind corporate_wallet || kind_eq kind card_wallet) && is_system_account_id id)

-- `metadataForAccount` once the kind is known, from the test on the ID
unfoldable pub metadata_of_kind : Sdk → ℕ → AccountKind → Account → Option AccountMetadata
metadata_of_kind sdk ledger_id kind a =
    if is_misplaced kind a.id
    then none
    else elim (account sdk kind a.id a.user_data_128 ledger_id) [
      | err _ ↦ none
      | ok expected ↦
          if not (a.flags == expected.flags)
            || not (a.user_data_64 == 0)
            || not (a.user_data_32 == 0)
          then none
          else some (record { kind = kind; corporate_account_id = a.user_data_128 })
    ]

-- `metadataForAccount`
unfoldable pub metadata_for_account : Sdk → ℕ → Account → Option AccountMetadata
unfolding account_kind metadata_of_kind
metadata_for_account sdk ledger_id a = elim (account_kind a) [
  | none ↦ none
  | some kind ↦ if not (a.ledger == ledger_id) then none else metadata_of_kind sdk ledger_id kind a
]

-- `balances`: posted and available, as unbounded integers
unfoldable pub balances : Account → AccountKind → ℤ × ℤ
unfolding ◌-ℤ◌
balances a kind =
    if kind_eq kind safeguarded_cash
    then (let posted = pos a.debits_posted -ℤ pos a.credits_posted in
        (posted, posted -ℤ pos a.credits_pending))
    else (let posted = pos a.credits_posted -ℤ pos a.debits_posted in
        (posted, posted -ℤ pos a.debits_pending))
