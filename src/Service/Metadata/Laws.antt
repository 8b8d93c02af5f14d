-- ===== src/Service/Metadata/Laws.antt =====
-- Which accounts of the ledger the service recognises, against the accounting table.
use ledger_service.Prelude.{ℕ, ◌≡◌, ◌≢◌, ◌↔◌, refl, sym, some, arith}
use ledger_service.Cache.{AccountMetadata}
use ledger_service.Domain.{
  AccountKind, safeguarded_cash, corporate_wallet, card_wallet, card_settlement_payable,
  unsupported, ok,
}
use ledger_service.Recipe.{account}
use ledger_service.Recipe.Laws.{ParentRule, table_code, table_flags, account-IsAccount}
use ledger_service.Sdk.{Account, Sdk}
use ledger_service.Service.Metadata.{metadata_for_account}

-- Each system account has its own reserved ID, and no wallet has a reserved one.
abbrev pub PlaceRule : AccountKind → ℕ → Type 0
PlaceRule safeguarded_cash id = id ≡ 1
PlaceRule card_settlement_payable id = id ≡ 2
PlaceRule (unsupported _) id = ⊥
PlaceRule _ id = (id ≢ 1) × (id ≢ 2)

-- An account of the ledger that follows the accounting table, whatever its balances.
pub record Follows (sdk : Sdk) (ledger_id : ℕ) (a : Account) (m : AccountMetadata) : Type 0 where
  pub code_row : a.code ≡ table_code m.kind
  pub flags_row : a.flags ≡ table_flags sdk m.kind
  pub place_rule : PlaceRule m.kind a.id
  pub parent_rule : ParentRule m.kind a.id a.user_data_128
  pub id_nonzero : a.id ≢ 0
  pub ledger_rule : (a.ledger ≡ ledger_id) × (ledger_id ≢ 0)
  pub no_user_data : (a.user_data_64 ≡ 0) × (a.user_data_32 ≡ 0)
  pub parent_kept : m.corporate_account_id ≡ a.user_data_128

pub metadata_for_account-Follows :
    (sdk : Sdk) (ledger_id : ℕ) (a : Account) {m : AccountMetadata}
    → metadata_for_account sdk ledger_id a ≡ some m
    → Follows sdk ledger_id a m
unfolding metadata_for_account account
metadata_for_account-Follows sdk ledger_id a h = ground arith

module _ (sdk : Sdk) (ledger_id : ℕ) (a : Account) where
  abbrev FollowsKind : AccountKind → Type 0
  FollowsKind kind =
      Follows sdk ledger_id a (record { kind = kind; corporate_account_id = a.user_data_128 })

  of_FollowsKind :
      (kind : AccountKind)
      → FollowsKind kind
      → metadata_for_account sdk ledger_id a
        ≡ some (record { kind = kind; corporate_account_id = a.user_data_128 })
  unfolding metadata_for_account account
  of_FollowsKind safeguarded_cash f = ground arith
  of_FollowsKind corporate_wallet f = ground arith
  of_FollowsKind card_wallet f = ground arith
  of_FollowsKind card_settlement_payable f = ground arith
  of_FollowsKind (unsupported t) f = absurd f.place_rule

-- The service recognises exactly the accounts that follow the accounting table: the code and flags
-- of the kind, the reserved IDs for system accounts and no others, a parent for card wallets and no
-- others, the service's ledger, and no other user data.
pub metadata_for_account_iff :
    (sdk : Sdk) (ledger_id : ℕ) (a : Account) (m : AccountMetadata)
    → (metadata_for_account sdk ledger_id a ≡ some m) ↔ Follows sdk ledger_id a m
metadata_for_account_iff sdk ledger_id a m = (
  metadata_for_account-Follows sdk ledger_id a,
  λ f. rw f.parent_kept (
      of_FollowsKind sdk ledger_id a m.kind (record {
        code_row = f.code_row;
        flags_row = f.flags_row;
        place_rule = f.place_rule;
        parent_rule = f.parent_rule;
        id_nonzero = f.id_nonzero;
        ledger_rule = f.ledger_rule;
        no_user_data = f.no_user_data;
        parent_kept = refl;
      })),
)

-- What the recipe builds with an ID in its place is recognised again, with its kind and its parent,
-- also after the ledger has moved money and set the timestamp.
pub metadata_for_account-account :
    (sdk : Sdk) (kind : AccountKind) (id parent ledger_id : ℕ)
    (debits_pending debits_posted credits_pending credits_posted timestamp : ℕ) {a : Account}
    → account sdk kind id parent ledger_id ≡ ok a
    → PlaceRule kind id
    → metadata_for_account sdk ledger_id (record a {
      debits_pending = debits_pending;
      debits_posted = debits_posted;
      credits_pending = credits_pending;
      credits_posted = credits_posted;
      timestamp = timestamp;
    })
      ≡ some (record { kind = kind; corporate_account_id = parent })
metadata_for_account-account sdk kind id parent ledger_id dp dq cp cq t {a} h place =
    let made = account-IsAccount sdk kind id parent ledger_id h in
    (metadata_for_account_iff sdk ledger_id _ _).1 (record {
      code_row = made.row.0;
      flags_row = made.row.1;
      place_rule = rw made.id_kept.0 place;
      parent_rule = rw (made.id_kept.0, made.parent_kept) made.parent_rule;
      id_nonzero = rw made.id_kept.0 made.id_kept.1;
      ledger_rule = made.ledger_kept;
      no_user_data = made.no_user_data;
      parent_kept = sym made.parent_kept;
    })
