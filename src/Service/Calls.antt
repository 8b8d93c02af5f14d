-- ===== src/Service/Calls.antt =====
-- The calls that the operations of the service share: the ledger through `observedLedger`, the
-- cached account metadata, and the risk evaluation.
use ledger_service.Prelude.{ℕ, Bool, Option, none, some, leb, if◌then◌else◌}
use ledger_service.Prelude.Int.{pos, pos_part, ltb_ℤ}
use ledger_service.Cache.{AccountMetadata, load, store}
use ledger_service.Client.{create_account, create_transfer, lookup_account, lookup_transfer}
use ledger_service.Domain.{
  AccountKind, kind_eq, Error, invalid_request, account_not_found, canceled, deadline_exceeded,
  panicked, ok, err,
}
use ledger_service.Sdk.{Account, AccountResult, ContextError, Transfer, TransferResult}
use ledger_service.Service.Metadata.{metadata_for_account}
use ledger_service.Service.World.{
  Service, M, ◌>>=◌, ◌>>◌, pure, raise, resumed, observed_call, sent_account, sent_transfer,
  sent_account_lookup, sent_transfer_lookup,
}

-- the refusal of an amount of 0
abbrev pub positive_amount : Error
positive_amount = invalid_request "amount_cents must be positive"

abbrev pub context_error : ContextError → Error
context_error ContextError.canceled = canceled
context_error ContextError.deadline_exceeded = deadline_exceeded

module _ {S : Type 0} (s : Service S) where
  -- `s.ledger.CreateAccount` and the three others
  unfoldable pub ledger_create_account : Account → M S AccountResult
  unfolding observed_call create_account
  ledger_create_account account =
      observed_call s "create_account" (sent_account account) (create_account s.env account)

  unfoldable pub ledger_create_transfer : Transfer → M S TransferResult
  unfolding observed_call create_transfer
  ledger_create_transfer transfer =
      observed_call s "create_transfer" (sent_transfer transfer) (create_transfer s.env transfer)

  unfoldable pub ledger_lookup_account : ℕ → M S (Option Account)
  unfolding observed_call lookup_account
  ledger_lookup_account id =
      observed_call s "lookup_account" (sent_account_lookup id) (lookup_account s.env id)

  unfoldable pub ledger_lookup_transfer : ℕ → M S (Option Transfer)
  unfolding observed_call lookup_transfer
  ledger_lookup_transfer id =
      observed_call s "lookup_transfer" (sent_transfer_lookup id) (lookup_transfer s.env id)

  -- `s.accountMetadata.Store`
  unfoldable pub store_metadata : ℕ → AccountMetadata → M S (Unit {0})
  store_metadata id metadata w = elim (store w.cache id metadata) [
    | none ↦ (err panicked, w)
    | some cache ↦ (ok tt, record w { cache = cache })
  ]

  -- `rememberAccount`
  unfoldable pub remember_account : Account → M S (Unit {0})
  unfolding store_metadata
  remember_account account = elim (metadata_for_account s.sdk s.ledger_id account) [
    | none ↦ pure tt
    | some metadata ↦ store_metadata account.id metadata
  ]

  -- the end of `requireAccountKind`, on what was found under the ID
  unfoldable pub admit_account : ℕ → AccountKind → Option Account → M S AccountMetadata
  unfolding store_metadata
  admit_account id expected none = raise account_not_found
  admit_account id expected (some account) = elim (metadata_for_account s.sdk s.ledger_id account) [
    | none ↦ raise account_not_found
    | some metadata ↦
        if kind_eq metadata.kind expected
        then store_metadata id metadata >> pure metadata
        else raise account_not_found
  ]

  -- `requireAccountKind`
  unfoldable pub require_account_kind : ℕ → AccountKind → M S AccountMetadata
  unfolding ledger_lookup_account admit_account
  require_account_kind id expected w = elim (load w.cache id) [
    | some metadata ↦
        (if kind_eq metadata.kind expected then pure metadata else raise account_not_found) w
    | none ↦ (do found ← ledger_lookup_account id; admit_account id expected found) w
  ]

  -- `evaluateRisk`
  unfoldable pub evaluate_risk : ℕ → M S Bool
  unfolding resumed
  evaluate_risk amount_cents w =
      if ltb_ℤ (pos 0) s.risk_delay
      then (let (ended, e) = s.env.wait (pos_part s.risk_delay) w.env in
          let w' = resumed s e w in
          elim ended [
            | some reason ↦ (err (context_error reason), w')
            | none ↦ (ok (leb amount_cents s.risk_limit_cents), w')
          ])
      else (ok (leb amount_cents s.risk_limit_cents), w)
