-- ===== src/Service/Statuses.antt =====
-- The HTTP statuses of the answers of the service (internal/service/operations.go and
-- internal/service/service.go): they are among the few that the API uses.
pub mod Answer
pub mod Increments
use ledger_service.Prelude.{
  ℕ, Bool, true, false, ◌≡◌, refl, ◌||◌, ◌==◌, String, Option, none, some, str_eq, if◌then◌else◌,
}
use ledger_service.Prelude.Int.{ℤ}
use ledger_service.Domain.{
  OperationKind, TransactionResponse, AuthorizationRequest, AuthorizationResponse, TopUpRequest,
  WithdrawalRequest, CardAllocationRequest, CardReturnRequest, CreateAccountRequest,
  AccountResponse, Result, ok, err, idempotency_conflict, rejected,
}
use ledger_service.Sdk.{
  Account, AccountResult, AccountStatus, Transfer, TransferResult, TransferStatus,
}
use ledger_service.Service.Accounts.{answer_creation, create_account}
use ledger_service.Service.Authorization.{
  authorization_response, answer_refused, complete_authorization, decide, authorize,
}
use ledger_service.Service.Ids.{public_id}
use ledger_service.Service.Rules.Ends.{Ends, Ends-pure, Ends-raise, Ends-if, Ends-then}
use ledger_service.Service.Status.{is_success, error_code, is_account_idempotency_conflict}
use ledger_service.Service.Statuses.Answer.{IsAnswer, IsAnswer-if, error_code-is_status}
use ledger_service.Service.Transactions.{
  transaction_response, complete_transaction, execute_transaction, top_up, withdraw,
  move_card_funds, allocate_to_card, return_from_card,
}
use ledger_service.Service.World.{Service, M}

module _ {S : Type 0} (s : Service S) where
  transaction_response-IsAnswer :
      (request_id success : String) (result : TransferResult)
      → IsAnswer (transaction_response s request_id success result)
  unfolding transaction_response
  transaction_response-IsAnswer request_id success result =
      IsAnswer-if (is_success result.status) _ _ refl (error_code-is_status result.status)

  complete_transaction-Ends :
      (kind : OperationKind) (request_id : String) (t : Transfer) (success : String) (started : ℕ)
      (r : Result TransferResult)
      → Ends IsAnswer (complete_transaction s kind request_id t success started r)
  unfolding complete_transaction
  complete_transaction-Ends kind request_id t success started (err e) =
      Ends-then _ (λ _. Ends-raise e)
  complete_transaction-Ends kind request_id t success started (ok result) =
      Ends-if _ (Ends-then _ (λ _. Ends-raise _))
        (Ends-then _ (λ _. Ends-pure _ (transaction_response-IsAnswer request_id success result)))

  execute_transaction-Ends :
      (kind : OperationKind) (request_id : String) (t : Transfer) (success : String)
      → Ends IsAnswer (execute_transaction s kind request_id t success)
  unfolding execute_transaction
  execute_transaction-Ends kind request_id t success =
      Ends-then _
        (λ started. Ends-then _ (λ r. complete_transaction-Ends kind request_id t success _ r))

  pub top_up-Ends : (request : TopUpRequest) → Ends IsAnswer (top_up s request)
  unfolding top_up
  top_up-Ends request = Ends-then _ (λ _.
      Ends-then _ (λ _. Ends-then _ (λ _. Ends-then _ (λ _. execute_transaction-Ends _ _ _ _))))

  pub withdraw-Ends : (request : WithdrawalRequest) → Ends IsAnswer (withdraw s request)
  unfolding withdraw
  withdraw-Ends request = Ends-then _ (λ _.
      Ends-then _ (λ _. Ends-then _ (λ _. Ends-then _ (λ _. execute_transaction-Ends _ _ _ _))))

  move_card_funds-Ends :
      (kind : OperationKind) (request account card : String) (amount : ℕ) (back : Bool)
      → Ends IsAnswer (move_card_funds s kind request account card amount back)
  unfolding move_card_funds
  move_card_funds-Ends kind request account card amount back = Ends-then _ (λ _. Ends-then _ (λ _.
      Ends-then _ (λ _. Ends-then _ (λ _.
        Ends-then _
          (λ _. Ends-then _ (λ _. Ends-then _ (λ _. execute_transaction-Ends _ _ _ _)))))))

  pub allocate_to_card-Ends :
      (request : CardAllocationRequest) → Ends IsAnswer (allocate_to_card s request)
  unfolding allocate_to_card
  allocate_to_card-Ends request = move_card_funds-Ends _ _ _ _ _ false

  pub return_from_card-Ends :
      (request : CardReturnRequest) → Ends IsAnswer (return_from_card s request)
  unfolding return_from_card
  return_from_card-Ends request = move_card_funds-Ends _ _ _ _ _ true

  answer_creation-Ends :
      (created : Account) (response : AccountResponse) (status : AccountStatus) (t : ℕ)
      → Ends IsAnswer
          (answer_creation s created response (record { status = status; timestamp = t }))
  unfolding answer_creation
  answer_creation-Ends created response AccountStatus.created t =
      Ends-then _ (λ _. Ends-pure _ refl)
  answer_creation-Ends created response AccountStatus.exists t = Ends-then _ (λ _. Ends-pure _ refl)
  answer_creation-Ends created response status t =
      Ends-if (is_account_idempotency_conflict status) (Ends-raise idempotency_conflict)
        (Ends-raise (rejected (s.sdk.account_status_string status)))

  pub create_account-Ends :
      (request : CreateAccountRequest) → Ends IsAnswer (create_account s request)
  unfolding create_account
  create_account-Ends request = Ends-then _ (λ _. Ends-then _ (λ _. Ends-then _ (λ corporate.
      Ends-then _ (λ created. Ends-then _ (λ result.
        answer_creation-Ends created
          (record {
            account_id = s.sdk.uint128_string created.id;
            kind = request.kind;
            corporate_account_id = public_id s.sdk corporate;
            status = "";
            timestamp = result.timestamp;
          })
          result.status result.timestamp)))))

  module _ (request : AuthorizationRequest) (ms : ℤ) where
    authorization_response-IsAnswer :
        (result : TransferResult) → IsAnswer (authorization_response s request ms result)
    unfolding authorization_response
    authorization_response-IsAnswer result = IsAnswer-if (is_success result.status) _ _ refl (
        IsAnswer-if (str_eq (error_code result.status).0 "insufficient_funds") _ _ refl
          (error_code-is_status result.status))

    module _ (t : Transfer) (started : ℕ) where
      answer_refused-Ends :
          (existing : Option Transfer)
          → Ends IsAnswer (answer_refused s request ms t started existing)
      unfolding answer_refused
      answer_refused-Ends none = Ends-then _ (λ _. Ends-pure _ refl)
      answer_refused-Ends (some existing) =
          Ends-if _ (Ends-then _ (λ _. Ends-raise _)) (Ends-then _ (λ _. Ends-pure _ refl))

      complete_authorization-Ends :
          (r : Result TransferResult)
          → Ends IsAnswer (complete_authorization s request ms t started r)
      unfolding complete_authorization
      complete_authorization-Ends (err e) = Ends-then _ (λ _. Ends-raise e)
      complete_authorization-Ends (ok result) =
          Ends-if _ (Ends-then _ (λ _. Ends-raise _))
            (Ends-then _ (λ _. Ends-pure _ (authorization_response-IsAnswer result)))

      decide-Ends : (approved : Bool) → Ends IsAnswer (decide s request ms t started approved)
      unfolding decide
      decide-Ends false = Ends-then _ (λ existing. answer_refused-Ends existing)
      decide-Ends true = Ends-then _ (λ r. complete_authorization-Ends r)

  pub authorize-Ends : (request : AuthorizationRequest) → Ends IsAnswer (authorize s request)
  unfolding authorize
  authorize-Ends request = Ends-then _ (λ _. Ends-then _ (λ _. Ends-then _ (λ _. Ends-then _ (λ _.
      Ends-then _ (λ _. Ends-then _ (λ _.
        Ends-then _
          (λ _. Ends-then _ (λ approved. Ends-then _ (λ _. decide-Ends _ _ _ _ approved)))))))))
