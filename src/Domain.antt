-- ===== src/Domain.antt =====
-- internal/domain: the account kinds, the operation kinds, the errors and the result of a call.
mod Kinds
mod Messages
pub mod Chain
pub mod Laws
pub use Kinds.*
pub use Messages.*
use ledger_service.Prelude.{ℕ, String, Bool, true, false}

-- the refusals of `ledger.Account`
pub data RecipeError : Type 0 where
  unsupported_kind zero_account_id zero_ledger_id unexpected_parent : RecipeError
  missing_parent own_parent : RecipeError

-- The errors that a call can return. `invalid_request` has the text behind "invalid request: "; the
-- client's two have the operation's name, with the text of the SDK's error or the count received.
pub data Error : Type 0 where
  invalid_request : String → Error
  account_not_found authorization_not_found idempotency_conflict : Error
  client_failed : String → String → Error
  wrong_count : String → ℕ → Error
  canceled deadline_exceeded : Error
  bad_recipe : RecipeError → Error
  rejected : String → Error
  panicked : Error

pub data Result {ℓ} (A : Type ℓ) : Type ℓ where
  ok : A → Result A
  err : Error → Result A

-- `errors.Is(err, ErrAccountNotFound)`
abbrev pub is_account_not_found : Error → Bool
is_account_not_found account_not_found = true
is_account_not_found _ = false
