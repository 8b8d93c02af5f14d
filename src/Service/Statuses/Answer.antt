-- ===== src/Service/Statuses/Answer.antt =====
-- The HTTP statuses that the service answers with, among them those of `errorCode`
-- (internal/service/service.go).
use ledger_service.Prelude.{ℕ, Bool, true, false, ◌≡◌, refl, ◌||◌, ◌==◌, if◌then◌else◌}
use ledger_service.Sdk.{TransferStatus}
use ledger_service.Service.Status.{error_code}

-- the statuses of the service's answers
abbrev pub is_status : ℕ → Bool
is_status n = n == 200 || n == 201 || n == 404 || n == 409 || n == 422 || n == 500

-- an answer with one of them
abbrev pub IsAnswer : {A : Type 0} → A × ℕ → Type 0
IsAnswer (_, status) = is_status status ≡ true

pub error_code-is_status : (status : TransferStatus) → is_status (error_code status).2 ≡ true
unfolding error_code
error_code-is_status TransferStatus.exceeds_credits = refl
error_code-is_status TransferStatus.exceeds_debits = refl
error_code-is_status TransferStatus.debit_account_not_found = refl
error_code-is_status TransferStatus.credit_account_not_found = refl
error_code-is_status TransferStatus.id_already_failed = refl
error_code-is_status _ = refl

pub IsAnswer-if :
    {A : Type 0} (b : Bool) (x y : A × ℕ) → IsAnswer x → IsAnswer y → IsAnswer (if b then x else y)
IsAnswer-if true x y h j = h
IsAnswer-if false x y h j = j
