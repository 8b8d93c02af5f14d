-- ===== src/Client.antt =====
-- internal/ledger/client.go: the SDK's batch calls as calls of one command.
pub mod Laws
use Prim.Native.String.{◌++◌}
use ledger_service.Prelude.{ℕ, String, Option, none, some, List, [], ◌∷◌, length}
use ledger_service.Domain.{Result, ok, err, client_failed, wrong_count}
use ledger_service.Sdk.{Account, Transfer, AccountResult, TransferResult, Env, Reply, done, failed}

-- the checks of `CreateAccount` and `CreateTransfer` on the reply
unfoldable pub one_result : {A : Type 0} → String → Reply (List A) → Result A
one_result operation (failed e) = err (client_failed operation e)
one_result operation (done []) = err (wrong_count operation 0)
one_result operation (done (r ∷ [])) = ok r
one_result operation (done (r ∷ q ∷ rs)) = err (wrong_count operation (length (r ∷ q ∷ rs)))

-- the checks of `LookupAccount` and `LookupTransfer` on the reply; not found is `none`
unfoldable pub at_most_one : {A : Type 0} → String → Reply (List A) → Result (Option A)
at_most_one operation (failed e) = err (client_failed operation e)
at_most_one operation (done []) = ok none
at_most_one operation (done (a ∷ [])) = ok (some a)
at_most_one operation (done (a ∷ b ∷ more)) = err (wrong_count operation (length (a ∷ b ∷ more)))

-- the error of `NewClient`, with the text of the SDK's
abbrev pub open_error : Option String → Option String
open_error none = none
open_error (some text) = some ("initialize TigerBeetle client: " ++ text)

-- `NewClient`, over the SDK's: the text of an error, if any
unfoldable pub new_client :
    {S : Type 0}
    → (ℕ → List String → S → Option String × S)
    → ℕ
    → List String
    → S
    → Option String × S
new_client open_client cluster_id addresses e =
    let (error, e') = open_client cluster_id addresses e in (open_error error, e')

module _ {S : Type 0} (env : Env S) where
  unfoldable pub create_account : Account → S → Result AccountResult × S
  unfolding one_result
  create_account account e =
      let (reply, e') = env.create_accounts (account ∷ []) e in
      (one_result "create account" reply, e')

  unfoldable pub create_transfer : Transfer → S → Result TransferResult × S
  unfolding one_result
  create_transfer transfer e =
      let (reply, e') = env.create_transfers (transfer ∷ []) e in
      (one_result "create transfer" reply, e')

  unfoldable pub lookup_account : ℕ → S → Result (Option Account) × S
  unfolding at_most_one
  lookup_account id e =
      let (reply, e') = env.lookup_accounts (id ∷ []) e in (at_most_one "lookup account" reply, e')

  unfoldable pub lookup_transfer : ℕ → S → Result (Option Transfer) × S
  unfolding at_most_one
  lookup_transfer id e =
      let (reply, e') = env.lookup_transfers (id ∷ []) e in
      (at_most_one "lookup transfer" reply, e')
