-- ===== src/Recipe/Laws.antt =====
-- Which accounts `ledger.Account` builds (internal/ledger/model.go), against the accounting table.
use ledger_service.Prelude.{ℕ, ◌≡◌, ◌≢◌, arith}
use ledger_service.Domain.{
  AccountKind, safeguarded_cash, corporate_wallet, card_wallet, card_settlement_payable,
  unsupported, ok,
}
use ledger_service.Sdk.{Account, zero_account, Sdk}
use ledger_service.Recipe.{
  account, account_code_safeguarded_cash, account_code_corporate_wallet, account_code_card_wallet,
  account_code_card_settlement_payable,
}

-- Only a card wallet has a parent, and it is another account.
abbrev pub ParentRule : AccountKind → ℕ → ℕ → Type 0
ParentRule card_wallet id parent = (parent ≢ 0) × (parent ≢ id)
ParentRule (unsupported _) id parent = ⊥
ParentRule _ id parent = parent ≡ 0

-- The row of the accounting table for a kind: the code, and the flag for the balance that may not
-- turn negative. (No account has an unsupported kind.)
abbrev pub table_code : AccountKind → ℕ
table_code safeguarded_cash = account_code_safeguarded_cash
table_code corporate_wallet = account_code_corporate_wallet
table_code card_wallet = account_code_card_wallet
table_code card_settlement_payable = account_code_card_settlement_payable
table_code (unsupported _) = 0

abbrev pub table_flags : Sdk → AccountKind → ℕ
table_flags sdk safeguarded_cash = sdk.credits_must_not_exceed_debits
table_flags sdk _ = sdk.debits_must_not_exceed_credits

-- The immutable part of an account of a kind: nothing is posted or pending, and no other user data.
pub record IsAccount (sdk : Sdk) (kind : AccountKind) (id parent ledger_id : ℕ) (a : Account)
    : Type 0 where
  pub row : (a.code ≡ table_code kind) × (a.flags ≡ table_flags sdk kind)
  pub parent_rule : ParentRule kind id parent
  pub id_kept : (a.id ≡ id) × (id ≢ 0)
  pub ledger_kept : (a.ledger ≡ ledger_id) × (ledger_id ≢ 0)
  pub parent_kept : a.user_data_128 ≡ parent
  pub no_user_data : (a.user_data_64 ≡ 0) × (a.user_data_32 ≡ 0)
  pub no_debits : (a.debits_pending ≡ 0) × (a.debits_posted ≡ 0)
  pub no_credits : (a.credits_pending ≡ 0) × (a.credits_posted ≡ 0)

-- Every account that the recipe builds follows the row of its kind, the rule on parents, the given
-- ID and ledger, and has empty balances.
pub account-IsAccount :
    (sdk : Sdk) (kind : AccountKind) (id parent ledger_id : ℕ) {a : Account}
    → account sdk kind id parent ledger_id ≡ ok a
    → IsAccount sdk kind id parent ledger_id a
unfolding account
account-IsAccount sdk safeguarded_cash id parent ledger_id h = ground arith
account-IsAccount sdk corporate_wallet id parent ledger_id h = ground arith
account-IsAccount sdk card_wallet id parent ledger_id h = ground arith
account-IsAccount sdk card_settlement_payable id parent ledger_id h = ground arith
account-IsAccount sdk (unsupported t) id parent ledger_id h = ground arith

-- The account that the table describes.
abbrev pub table_account : Sdk → AccountKind → ℕ → ℕ → ℕ → Account
table_account sdk kind id parent ledger_id = record zero_account {
  id = id;
  user_data_128 = parent;
  ledger = ledger_id;
  code = table_code kind;
  flags = table_flags sdk kind;
}

-- Conversely the recipe refuses nothing that the table allows: with a non-zero ID and ledger and the
-- rule on parents met, it builds the account that the table describes.
pub account-table_account :
    (sdk : Sdk) (kind : AccountKind) (id parent ledger_id : ℕ)
    → id ≢ 0
    → ledger_id ≢ 0
    → ParentRule kind id parent
    → account sdk kind id parent ledger_id ≡ ok (table_account sdk kind id parent ledger_id)
unfolding account
account-table_account sdk safeguarded_cash id parent ledger_id i l p = ground arith
account-table_account sdk corporate_wallet id parent ledger_id i l p = ground arith
account-table_account sdk card_wallet id parent ledger_id i l p = ground arith
account-table_account sdk card_settlement_payable id parent ledger_id i l p = ground arith
account-table_account sdk (unsupported t) id parent ledger_id i l p = absurd p
