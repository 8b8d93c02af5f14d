-- ===== src/Recipe.antt =====
-- internal/ledger/model.go: the codes, the reserved IDs and the immutable part of each account.
pub mod Laws
use ledger_service.Prelude.{ℕ, Bool, true, false, not, ◌||◌, ◌==◌, if◌then◌else◌}
use ledger_service.Domain.{
  AccountKind, safeguarded_cash, corporate_wallet, card_wallet, card_settlement_payable,
  unsupported, valid, unsupported_kind, zero_account_id, zero_ledger_id, unexpected_parent,
  missing_parent, own_parent, RecipeError, bad_recipe, Result, ok, err,
}
use ledger_service.Sdk.{Account, zero_account, Sdk}

abbrev pub account_code_safeguarded_cash : ℕ
account_code_safeguarded_cash = 1001

abbrev pub account_code_corporate_wallet : ℕ
account_code_corporate_wallet = 2001

abbrev pub account_code_card_wallet : ℕ
account_code_card_wallet = 2002

abbrev pub account_code_card_settlement_payable : ℕ
account_code_card_settlement_payable = 2003

abbrev pub transfer_code_top_up : ℕ
transfer_code_top_up = 1001

abbrev pub transfer_code_withdrawal : ℕ
transfer_code_withdrawal = 1002

abbrev pub transfer_code_card_allocation : ℕ
transfer_code_card_allocation = 1201

abbrev pub transfer_code_card_return : ℕ
transfer_code_card_return = 1202

abbrev pub transfer_code_authorization : ℕ
transfer_code_authorization = 1101

abbrev pub transfer_code_authorization_increment : ℕ
transfer_code_authorization_increment = 1102

abbrev pub safeguarded_cash_account_id : ℕ
safeguarded_cash_account_id = 1

abbrev pub card_settlement_payable_account_id : ℕ
card_settlement_payable_account_id = 2

abbrev pub is_system_account_id : ℕ → Bool
is_system_account_id id =
    id == safeguarded_cash_account_id || id == card_settlement_payable_account_id

-- the `switch` of `Account`, on the account filled in so far
unfoldable pub fill : Sdk → AccountKind → ℕ → ℕ → Account → Result Account
fill sdk safeguarded_cash id corporate_account_id account =
    if not (corporate_account_id == 0)
    then err (bad_recipe unexpected_parent)
    else ok (record account {
      code = account_code_safeguarded_cash;
      flags = sdk.credits_must_not_exceed_debits;
    })
fill sdk corporate_wallet id corporate_account_id account =
    if not (corporate_account_id == 0)
    then err (bad_recipe unexpected_parent)
    else ok (record account {
      code = account_code_corporate_wallet;
      flags = sdk.debits_must_not_exceed_credits;
    })
fill sdk card_wallet id corporate_account_id account =
    if corporate_account_id == 0
    then err (bad_recipe missing_parent)
    else if corporate_account_id == id
    then err (bad_recipe own_parent)
    else ok (record account {
      code = account_code_card_wallet;
      flags = sdk.debits_must_not_exceed_credits;
    })
fill sdk card_settlement_payable id corporate_account_id account =
    if not (corporate_account_id == 0)
    then err (bad_recipe unexpected_parent)
    else ok (record account {
      code = account_code_card_settlement_payable;
      flags = sdk.debits_must_not_exceed_credits;
    })
fill sdk (unsupported _) id corporate_account_id account = ok account

-- `Account(kind, id, corporateAccountID, ledgerID)`
unfoldable pub account : Sdk → AccountKind → ℕ → ℕ → ℕ → Result Account
unfolding fill
account sdk kind id corporate_account_id ledger_id =
    if not (valid kind)
    then err (bad_recipe unsupported_kind)
    else if id == 0
    then err (bad_recipe zero_account_id)
    else if ledger_id == 0
    then err (bad_recipe zero_ledger_id)
    else fill sdk kind id corporate_account_id
        (record zero_account { id = id; user_data_128 = corporate_account_id; ledger = ledger_id })
