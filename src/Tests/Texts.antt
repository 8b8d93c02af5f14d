-- ===== src/Tests/Texts.antt =====
-- The identifiers, the account recipe and the balances (internal/service/service.go,
-- internal/ledger/model.go).
use ledger_service.Prelude.{◌≡◌, ◌≢◌, ◌↔◌, refl, some, arith}
use ledger_service.Prelude.Int.{pos, ◌≤ℤ◌}
use ledger_service.Cache.{AccountMetadata}
use ledger_service.Domain.{card_wallet, ok}
use ledger_service.Recipe.Laws.{table_account, account-table_account}
use ledger_service.Recipe.{account}
use ledger_service.Sdk.{Account}
use ledger_service.Service.Ids.Laws.{IsExternalId, IsPublicId, request_id_iff, account_id_iff}
use ledger_service.Service.Ids.{request_id, account_id}
use ledger_service.Service.Metadata.Balances.{HasBalances, balances_bounds}
use ledger_service.Service.Metadata.Laws.{
  Follows, metadata_for_account_iff, metadata_for_account-account,
}
use ledger_service.Service.Metadata.{metadata_for_account, balances}
use ledger_service.Tests.Sample.{sdk, card}

account_id_iff_example : (account_id sdk "card_id" "b" ≡ ok 11) ↔ (
    IsExternalId "b"
    × (sdk.hex_string_to_uint128 "b" ≡ some 11)
    × IsPublicId sdk 11
    × (card.id ≢ 1)
    × (card.id ≢ 2))
account_id_iff_example = account_id_iff sdk "card_id" "b" 11

request_id_iff_example :
    (request_id sdk "1" ≡ ok 1)
    ↔ (IsExternalId "1" × (sdk.hex_string_to_uint128 "1" ≡ some 1) × IsPublicId sdk 1)
request_id_iff_example = request_id_iff sdk "1" 1

card_made : account sdk card_wallet 11 10 7 ≡ ok card
unfolding account
card_made = refl

account-table_account_example :
    account sdk card_wallet 11 10 7 ≡ ok (table_account sdk card_wallet 11 10 7)
account-table_account_example =
    account-table_account sdk card_wallet 11 10 7 (ground arith) (ground arith)
      (ground arith, ground arith)

abbrev card_metadata : AccountMetadata
card_metadata = record { kind = card_wallet; corporate_account_id = 10 }

metadata_for_account_iff_example :
    (metadata_for_account sdk 7 card ≡ some card_metadata) ↔ Follows sdk 7 card card_metadata
metadata_for_account_iff_example = metadata_for_account_iff sdk 7 card card_metadata

metadata_for_account-account_example :
    metadata_for_account sdk 7 (record card {
      debits_pending = 100;
      debits_posted = 20;
      credits_pending = 0;
      credits_posted = 500;
      timestamp = 9;
    })
    ≡ some card_metadata
metadata_for_account-account_example =
    metadata_for_account-account sdk card_wallet 11 10 7 100 20 0 500 9 card_made
      (ground arith, ground arith)

abbrev used_card : Account
used_card = record card { debits_pending = 100; debits_posted = 20; credits_posted = 500 }

balances_bounds_example :
    HasBalances card_wallet used_card
      (balances used_card card_wallet).0
      (balances used_card card_wallet).1
    × (pos 0 ≤ℤ (balances used_card card_wallet).1)
    × ((balances used_card card_wallet).1 ≤ℤ (balances used_card card_wallet).0)
balances_bounds_example = balances_bounds used_card card_wallet (omega arith)
