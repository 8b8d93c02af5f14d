-- ===== src/Service/Panics.antt =====
-- The operations of the service (internal/service/operations.go) and panics, from a valid metadata cache.
pub mod Increments
use ledger_service.Prelude.{
  ℕ, Bool, true, false, not, ◌||◌, ◌&&◌, ◌==◌, ltb, String, str_eq, Option, Option-cases, none,
  some, inl, inr, refl, if◌then◌else◌, arith,
}
use ledger_service.Prelude.Int.{ℤ, pos, leb_ℤ}
use ledger_service.Domain.{
  AccountKind, kind_eq, OperationKind, TopUpRequest, WithdrawalRequest, CardAllocationRequest,
  CardReturnRequest, CreateAccountRequest, AccountResponse, AuthorizationRequest, Error, Result, ok,
  err,
}
use ledger_service.Domain.Chain.{◌>>=◌, ◌>>◌, fail_if}
use ledger_service.Recipe.{account, fill, is_system_account_id}
use ledger_service.Sdk.{Account, AccountResult, AccountStatus, Sdk, Transfer, TransferResult}
use ledger_service.Service.Accounts.{
  parent_id, answer_creation, create_account, balance_found, balance,
}
use ledger_service.Service.Authorization.{answer_refused, complete_authorization, decide, authorize}
use ledger_service.Service.Ids.{
  validate_external_id, parse_public_id, request_id, account_id, public_id,
}
use ledger_service.Service.Metadata.{metadata_for_account}
use ledger_service.Service.Rules.Calm.Calls.{
  Calm-now, Calm-observe_completion, Calm-ledger_create_account, Calm-ledger_create_transfer,
  Calm-ledger_lookup_account, Calm-ledger_lookup_transfer, Calm-remember_account,
  Calm-require_account_kind, Calm-evaluate_risk,
}
use ledger_service.Service.Rules.Calm.{
  IsCalm, IsCalmError, Calm, Calm-lift, Calm-pure, Calm-raise, Calm-fail_if, Calm-if, Calm-bind,
  Calm-attempt,
}
use ledger_service.Service.Text.{trim_space}
use ledger_service.Service.Transactions.{
  complete_transaction, execute_transaction, top_up, withdraw, move_card_funds, allocate_to_card,
  return_from_card,
}
use ledger_service.Service.World.{Service, M}

pub validate_external_id-IsCalm : (field value : String) → IsCalm (validate_external_id field value)
unfolding validate_external_id
validate_external_id-IsCalm field value = ground arith

module _ (sdk : Sdk) where
  pub request_id-IsCalm : (value : String) → IsCalm (request_id sdk value)
  unfolding request_id
  request_id-IsCalm value = ground (arith, validate_external_id-IsCalm "request_id" value)

  pub account_id-IsCalm : (field value : String) → IsCalm (account_id sdk field value)
  unfolding account_id
  account_id-IsCalm field value = ground (arith, validate_external_id-IsCalm field value)

  pub account-IsCalm :
      (kind : AccountKind) (id corporate ledger_id : ℕ)
      → IsCalm (account sdk kind id corporate ledger_id)
  unfolding account fill
  account-IsCalm kind id corporate ledger_id = ground arith

module _ {S : Type 0} (s : Service S) where
  ruleset steps = (
    Calm-bind, Calm-lift, Calm-pure, Calm-raise, Calm-fail_if, Calm-if, Calm-now,
    Calm-observe_completion, Calm-require_account_kind, Calm-evaluate_risk,
    Calm-ledger_lookup_transfer, Calm-ledger_lookup_account, Calm-remember_account,
    request_id-IsCalm, account_id-IsCalm, validate_external_id-IsCalm,
  )

  complete_transaction-Calm :
      (kind : OperationKind) (request_id : String) (t : Transfer) (success : String) (started : ℕ)
      (r : Result TransferResult)
      → IsCalm r
      → Calm (complete_transaction s kind request_id t success started r)
  unfolding complete_transaction
  complete_transaction-Calm kind request_id t success started (err e) calm = search steps
  complete_transaction-Calm kind request_id t success started (ok result) calm = search steps

  execute_transaction-Calm :
      (kind : OperationKind) (request_id : String) (t : Transfer) (success : String)
      → Calm (execute_transaction s kind request_id t success)
  unfolding execute_transaction
  execute_transaction-Calm kind request_id t success = Calm-bind (Calm-now s) (λ started.
      Calm-attempt (Calm-ledger_create_transfer s t)
        (λ r calm. complete_transaction-Calm kind request_id t success started r calm))

  pub top_up-Calm : (request : TopUpRequest) → Calm (top_up s request)
  unfolding top_up
  top_up-Calm request = search (steps, execute_transaction-Calm) depth 12

  pub withdraw-Calm : (request : WithdrawalRequest) → Calm (withdraw s request)
  unfolding withdraw
  withdraw-Calm request = search (steps, execute_transaction-Calm) depth 12

  move_card_funds-Calm :
      (kind : OperationKind) (request account card : String) (amount : ℕ) (back : Bool)
      → Calm (move_card_funds s kind request account card amount back)
  unfolding move_card_funds
  move_card_funds-Calm kind request account card amount back =
      search (steps, execute_transaction-Calm) depth 12

  pub allocate_to_card-Calm : (request : CardAllocationRequest) → Calm (allocate_to_card s request)
  unfolding allocate_to_card
  allocate_to_card-Calm request = move_card_funds-Calm _ _ _ _ _ false

  pub return_from_card-Calm : (request : CardReturnRequest) → Calm (return_from_card s request)
  unfolding return_from_card
  return_from_card-Calm request = move_card_funds-Calm _ _ _ _ _ true

  parent_id-Calm : (id : ℕ) (request : CreateAccountRequest) → Calm (parent_id s id request)
  unfolding parent_id
  parent_id-Calm id request = search steps depth 12

  answer_creation-Calm :
      (created : Account) (response : AccountResponse) (status : AccountStatus) (t : ℕ)
      → Calm (answer_creation s created response (record { status = status; timestamp = t }))
  unfolding answer_creation
  answer_creation-Calm created response AccountStatus.created t = search steps
  answer_creation-Calm created response AccountStatus.exists t = search steps
  answer_creation-Calm created response status t = search steps

  pub create_account-Calm : (request : CreateAccountRequest) → Calm (create_account s request)
  unfolding create_account
  create_account-Calm request =
      Calm-bind (Calm-lift _ (account_id-IsCalm s.sdk "account_id" request.account_id)) (λ id.
        Calm-bind (Calm-fail_if _ _ refl) (λ _. Calm-bind (parent_id-Calm id request) (λ corporate.
          Calm-bind (Calm-lift _ (account-IsCalm s.sdk request.kind id corporate s.ledger_id))
            (λ created. Calm-bind (Calm-ledger_create_account s created) (λ result.
              answer_creation-Calm created
                (record {
                  account_id = s.sdk.uint128_string created.id;
                  kind = request.kind;
                  corporate_account_id = public_id s.sdk corporate;
                  status = "";
                  timestamp = result.timestamp;
                })
                result.status result.timestamp)))))

  balance_found-Calm : (found : Option Account) → Calm (balance_found s found)
  unfolding balance_found
  balance_found-Calm none = search steps
  balance_found-Calm (some found) =
      elim (Option-cases (metadata_for_account s.sdk s.ledger_id found)) [
        | inl unknown ↦ rw (unknown, balance_found) (Calm-raise _ refl)
        | inr (m, reads) ↦
            rw (reads, balance_found) (Calm-bind (Calm-remember_account s found) (λ _. Calm-pure _))
      ]

  pub balance-Calm : (id : String) → Calm (balance s id)
  unfolding balance
  balance-Calm id = Calm-bind (Calm-lift _ (validate_external_id-IsCalm "account_id" id)) (λ _.
      Calm-bind (Calm-lift _ (ground arith))
        (λ n. Calm-bind (Calm-ledger_lookup_account s n) balance_found-Calm))

  module _ (request : AuthorizationRequest) (ms : ℤ) (t : Transfer) (started : ℕ) where
    answer_refused-Calm :
        (existing : Option Transfer) → Calm (answer_refused s request ms t started existing)
    unfolding answer_refused
    answer_refused-Calm none = search steps
    answer_refused-Calm (some existing) = search steps

    complete_authorization-Calm :
        (r : Result TransferResult)
        → IsCalm r
        → Calm (complete_authorization s request ms t started r)
    unfolding complete_authorization
    complete_authorization-Calm (err e) calm = search steps
    complete_authorization-Calm (ok result) calm = search steps

    decide-Calm : (approved : Bool) → Calm (decide s request ms t started approved)
    unfolding decide
    decide-Calm false = Calm-bind (Calm-ledger_lookup_transfer s t.id) answer_refused-Calm
    decide-Calm true = Calm-attempt (Calm-ledger_create_transfer s t) complete_authorization-Calm

  pub authorize-Calm : (request : AuthorizationRequest) → Calm (authorize s request)
  unfolding authorize
  authorize-Calm request = search (steps, decide-Calm) depth 14
