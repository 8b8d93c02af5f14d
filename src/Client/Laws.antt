-- ===== src/Client/Laws.antt =====
-- The adapter returns what the SDK returned, and nothing else (internal/ledger/client.go).
use ledger_service.Prelude.{String, some, List, [], ◌∷◌, ◌≡◌, ◌↔◌, arith}
use ledger_service.Domain.{ok}
use ledger_service.Sdk.{Reply, done}
use ledger_service.Client.{one_result, at_most_one}

module _ {A : Type 0} (operation : String) (reply : Reply (List A)) where
  -- A creation succeeds exactly when the SDK returned one result, and returns that.
  pub one_result_iff : (r : A) → (one_result operation reply ≡ ok r) ↔ (reply ≡ done (r ∷ []))
  unfolding one_result
  one_result_iff r = (λ h. ground arith, λ h. rw h)

  -- A lookup finds an item exactly when the SDK returned that one item.
  pub at_most_one-some_iff :
      (a : A) → (at_most_one operation reply ≡ ok (some a)) ↔ (reply ≡ done (a ∷ []))
  unfolding at_most_one
  at_most_one-some_iff a = (λ h. ground arith, λ h. rw h)
