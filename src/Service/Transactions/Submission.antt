-- ===== src/Service/Transactions/Submission.antt =====
-- What the posted operations send to the ledger (internal/service/operations.go).
use ledger_service.Prelude.{
  ℕ, Bool, true, false, ◌≡◌, ◌≢◌, refl, inl, inr, String, ◌∷◌, arith, Bool-cases,
}
use ledger_service.Cache.{AccountMetadata}
use ledger_service.Domain.Laws.{eq_of_kind_eq}
use ledger_service.Domain.{
  OperationKind, corporate_wallet, card_wallet, TopUpRequest, WithdrawalRequest,
  TransactionResponse, Error, idempotency_conflict, Result, ok, err,
}
use ledger_service.Recipe.{
  safeguarded_cash_account_id, transfer_code_top_up, transfer_code_withdrawal,
  transfer_code_card_allocation, transfer_code_card_return,
}
use ledger_service.Sdk.{Transfer, zero_transfer, TransferResult}
use ledger_service.Service.Ids.{account_id, request_id}
use ledger_service.Service.Rules.Calls.{Admitted, Wp-report, Wp-require_account_kind}
use ledger_service.Service.Rules.Ledger.{Wp-now}
use ledger_service.Service.Rules.Steps.{
  Failed, Sends, Sends-lift, Sends-fail_if, Sends-bind, Sends-submission,
}
use ledger_service.Service.Rules.{LedgerLaws, Backed, Backed-Later, Later, IsSound, Wp, Quiet}
use ledger_service.Service.Status.{is_idempotency_conflict}
use ledger_service.Service.Transactions.{
  execute_transaction, complete_transaction, transaction_response, account_attributes, top_up,
  withdraw, move_card_funds,
}
use ledger_service.Service.World.{Service, World, now, error}

module _ {S : Type 0} (s : Service S) (laws : LedgerLaws s.env) where
  Wp-complete_transaction :
      (w : World S)
      → IsSound s laws w
      → (kind : OperationKind) (request : String) (t : Transfer) (status : String) (started : ℕ)
        (r : Result TransferResult)
      → Wp s laws
          (complete_transaction s kind request t status started r)
          w
          (Quiet w (λ _ _. Unit {0}))
  unfolding complete_transaction
  Wp-complete_transaction w sound kind request t status started (err e) =
      Wp-report s laws {B = TransactionResponse × ℕ} w sound kind request "unknown"
        (s.sdk.uint128_uint64 t.amount) started "request_error"
        (("error", error e) ∷ account_attributes s t) (err e) (λ _ _. Unit {0}) (λ _. tt)
  Wp-complete_transaction w sound kind request t status started (ok result) =
      let amount = s.sdk.uint128_uint64 t.amount in
      let code = s.sdk.transfer_status_string result.status in
      let answer = transaction_response s request status result in
      elim (Bool-cases (is_idempotency_conflict result.status)) [
        | inl conflict ↦
            rw (conflict, complete_transaction)
              (Wp-report s laws {B = TransactionResponse × ℕ} w sound kind request "conflict" amount
                started code (account_attributes s t) (err idempotency_conflict) (λ _ _. Unit {0})
                (λ _. tt))
        | inr settled ↦
            rw (settled, complete_transaction)
              (Wp-report s laws {B = TransactionResponse × ℕ} w sound kind request answer.0.status
                amount started code (account_attributes s t) (ok answer) (λ _ _. Unit {0})
                (λ _. tt))
      ]

  module _ (N : Result (TransactionResponse × ℕ) → S → Type 0) (P : S → Transfer → Type 0)
      (n : (e : Error) (env : S) → N (err e) env) where
    -- `executeTransaction` sends its transfer, once, and nothing else.
    pub Sends-execute_transaction :
        (w : World S)
        → IsSound s laws w
        → (kind : OperationKind) (request : String) (t : Transfer) (status : String)
        → ((e : S) → Later s laws w.env e → P e t)
        → Sends s laws N P (execute_transaction s kind request t status) w
    unfolding execute_transaction
    Sends-execute_transaction w sound kind request t status holds =
        Sends-bind s laws N P n w sound (now s) _ (λ _ _. Unit {0}) (Wp-now s laws w sound)
          (λ started w' sound' later' _.
            Sends-submission s laws N P w' sound' t _
              (λ e later. holds e (λ a h. later a (later' a h)))
              (λ r w'' sound''.
                Wp-complete_transaction w'' sound'' kind request t status started r))

  -- The transfer of a confirmed top-up: from the safeguarded cash to a corporate wallet that the
  -- ledger has, under the IDs and with the amount of the request.
  pub record IsTopUp (request : TopUpRequest) (e : S) (t : Transfer) : Type 0 where
    id : ℕ
    account : ℕ
    wallet : AccountMetadata
    id_named : request_id s.sdk request.request_id ≡ ok id
    account_named : account_id s.sdk "account_id" request.account_id ≡ ok account
    amount_positive : request.amount_cents ≢ 0
    wallet_backed : Backed s laws e account wallet
    wallet_kind : wallet.kind ≡ corporate_wallet
    built : t ≡ record zero_transfer {
      id = id;
      debit_account_id = safeguarded_cash_account_id;
      credit_account_id = account;
      amount = request.amount_cents;
      ledger = s.ledger_id;
      code = transfer_code_top_up;
    }

  -- From a sound state `TopUp` leaves a sound state; it sends one transfer, which is the top-up that
  -- the request asks for, or sends none and fails.
  pub top_up-Sends :
      (request : TopUpRequest) (w : World S)
      → IsSound s laws w
      → Sends s laws Failed (IsTopUp request) (top_up s request) w
  unfolding top_up
  top_up-Sends request w sound =
      Sends-lift s laws Failed (IsTopUp request) (λ _ _. tt) w sound _ _
        (λ account account_named.
          Sends-fail_if s laws Failed (IsTopUp request) (λ _ _. tt) w sound _ _ _
            (λ amount.
              Sends-lift s laws Failed (IsTopUp request) (λ _ _. tt) w sound _ _
                (λ id id_named.
                  Sends-bind s laws Failed (IsTopUp request) (λ _ _. tt) w sound _ _
                    (Admitted s laws account corporate_wallet)
                    (Wp-require_account_kind s laws w sound account corporate_wallet)
                    (λ wallet w' sound' later admitted.
                      let (backed, same) = admitted wallet refl in
                      Sends-execute_transaction Failed (IsTopUp request) (λ _ _. tt) w' sound' _ _ _
                        _
                        (λ e later. record {
                          id = id;
                          account = account;
                          wallet = wallet;
                          id_named = id_named;
                          account_named = account_named;
                          amount_positive = ground arith;
                          wallet_backed = Backed-Later s laws account wallet later backed;
                          wallet_kind = eq_of_kind_eq wallet.kind corporate_wallet same;
                          built = refl;
                        })))))

  -- The transfer of a confirmed withdrawal: from a corporate wallet that the ledger has to the
  -- safeguarded cash, under the IDs and with the amount of the request.
  pub record IsWithdrawal (request : WithdrawalRequest) (e : S) (t : Transfer) : Type 0 where
    id : ℕ
    account : ℕ
    wallet : AccountMetadata
    id_named : request_id s.sdk request.request_id ≡ ok id
    account_named : account_id s.sdk "account_id" request.account_id ≡ ok account
    amount_positive : request.amount_cents ≢ 0
    wallet_backed : Backed s laws e account wallet
    wallet_kind : wallet.kind ≡ corporate_wallet
    built : t ≡ record zero_transfer {
      id = id;
      debit_account_id = account;
      credit_account_id = safeguarded_cash_account_id;
      amount = request.amount_cents;
      ledger = s.ledger_id;
      code = transfer_code_withdrawal;
    }

  -- From a sound state `Withdraw` leaves a sound state; it sends one transfer, which is the withdrawal
  -- that the request asks for, or sends none and fails.
  pub withdraw-Sends :
      (request : WithdrawalRequest) (w : World S)
      → IsSound s laws w
      → Sends s laws Failed (IsWithdrawal request) (withdraw s request) w
  unfolding withdraw
  withdraw-Sends request w sound =
      Sends-lift s laws Failed (IsWithdrawal request) (λ _ _. tt) w sound _ _
        (λ account account_named.
          Sends-fail_if s laws Failed (IsWithdrawal request) (λ _ _. tt) w sound _ _ _
            (λ amount.
              Sends-lift s laws Failed (IsWithdrawal request) (λ _ _. tt) w sound _ _
                (λ id id_named.
                  Sends-bind s laws Failed (IsWithdrawal request) (λ _ _. tt) w sound _ _
                    (Admitted s laws account corporate_wallet)
                    (Wp-require_account_kind s laws w sound account corporate_wallet)
                    (λ wallet w' sound' later admitted.
                      let (backed, same) = admitted wallet refl in
                      Sends-execute_transaction Failed (IsWithdrawal request) (λ _ _. tt) w' sound'
                        _ _ _ _
                        (λ e later. record {
                          id = id;
                          account = account;
                          wallet = wallet;
                          id_named = id_named;
                          account_named = account_named;
                          amount_positive = ground arith;
                          wallet_backed = Backed-Later s laws account wallet later backed;
                          wallet_kind = eq_of_kind_eq wallet.kind corporate_wallet same;
                          built = refl;
                        })))))

  -- The transfer of a move of funds between a corporate wallet and a card: both accounts the ledger
  -- has, and the card is linked to that corporate wallet. An allocation goes from the wallet to the card,
  -- a return back.
  pub record IsMove (request_id_value account_id_value card_id_value : String) (amount_cents : ℕ)
      (return_to_corporate : Bool) (e : S) (t : Transfer) : Type 0 where
    id : ℕ
    corporate : ℕ
    card : ℕ
    wallet : AccountMetadata
    card_account : AccountMetadata
    id_named : request_id s.sdk request_id_value ≡ ok id
    corporate_named : account_id s.sdk "account_id" account_id_value ≡ ok corporate
    card_named : account_id s.sdk "card_id" card_id_value ≡ ok card
    amount_positive : amount_cents ≢ 0
    wallet_backed : Backed s laws e corporate wallet
    wallet_kind : wallet.kind ≡ corporate_wallet
    card_backed : Backed s laws e card card_account
    card_kind : card_account.kind ≡ card_wallet
    linked : card_account.corporate_account_id ≡ corporate
    allocated :
        return_to_corporate ≡ false
        → t ≡ record zero_transfer {
          id = id;
          debit_account_id = corporate;
          credit_account_id = card;
          amount = amount_cents;
          ledger = s.ledger_id;
          code = transfer_code_card_allocation;
        }
    returned :
        return_to_corporate ≡ true
        → t ≡ record zero_transfer {
          id = id;
          debit_account_id = card;
          credit_account_id = corporate;
          amount = amount_cents;
          ledger = s.ledger_id;
          code = transfer_code_card_return;
        }

  -- From a sound state `moveCardFunds` leaves a sound state; it sends one transfer, or sends none
  -- and fails. The transfer, written out, moves the amount from the corporate wallet to a card that is
  -- linked to it for an allocation, and from the card to the wallet for a return.
  pub move_card_funds-Sends :
      (kind : OperationKind) (request account card : String) (amount : ℕ) (back : Bool)
      (w : World S)
      → IsSound s laws w
      → Sends s laws Failed
          (IsMove request account card amount back)
          (move_card_funds s kind request account card amount back)
          w
  unfolding move_card_funds
  move_card_funds-Sends kind request account card amount back w sound =
      let P = IsMove request account card amount back in
      Sends-lift s laws Failed P (λ _ _. tt) w sound _ _
        (λ corporate corporate_named.
          Sends-lift s laws Failed P (λ _ _. tt) w sound _ _
            (λ card_id card_named.
              Sends-fail_if s laws Failed P (λ _ _. tt) w sound _ _ _
                (λ positive.
                  Sends-lift s laws Failed P (λ _ _. tt) w sound _ _
                    (λ id id_named.
                      Sends-bind s laws Failed P (λ _ _. tt) w sound _ _
                        (Admitted s laws corporate corporate_wallet)
                        (Wp-require_account_kind s laws w sound corporate corporate_wallet)
                        (λ wallet w' sound' later admitted.
                          Sends-bind s laws Failed P (λ _ _. tt) w' sound' _ _
                            (Admitted s laws card_id card_wallet)
                            (Wp-require_account_kind s laws w' sound' card_id card_wallet)
                            (λ card_account w'' sound'' later' admitted'.
                              Sends-fail_if s laws Failed P (λ _ _. tt) w'' sound'' _ _ _
                                (λ linked.
                                  let (backed, same) = admitted wallet refl in
                                  let (backed', same') = admitted' card_account refl in
                                  Sends-execute_transaction Failed P (λ _ _. tt) w'' sound'' _ _ _ _
                                    (λ e later''. record {
                                      id = id;
                                      corporate = corporate;
                                      card = card_id;
                                      wallet = wallet;
                                      card_account = card_account;
                                      id_named = id_named;
                                      corporate_named = corporate_named;
                                      card_named = card_named;
                                      amount_positive = ground arith;
                                      wallet_backed =
                                          Backed-Later s laws corporate wallet later''
                                            (Backed-Later s laws corporate wallet later' backed);
                                      wallet_kind = eq_of_kind_eq wallet.kind corporate_wallet same;
                                      card_backed =
                                          Backed-Later s laws card_id card_account later'' backed';
                                      card_kind = eq_of_kind_eq card_account.kind card_wallet same';
                                      linked = ground arith;
                                      allocated = λ e. rw e refl;
                                      returned = λ e. rw e refl;
                                    }))))))))
