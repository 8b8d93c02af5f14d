-- ===== src/Service/Rules.antt =====
-- How the operations of the service are reasoned about: what the ledger is relied on for, the
-- soundness of the cached metadata, and a rule for each shared call.
pub mod Backing
pub mod Ledger
pub mod Calls
pub mod Steps
pub mod Ends
pub mod Calm
use ledger_service.Prelude.{
  ℕ, Bool, true, false, ◌≡◌, refl, sym, ◌∙◌, ap, ◌⊎◌, inl, inr, Option, none, some, List, [], ◌∷◌,
  arith,
}
use ledger_service.Cache.{AccountMetadata, load}
use ledger_service.Cache.Invariant.{IsValid}
use ledger_service.Domain.{Error, Result, ok, err}
use ledger_service.Sdk.{Account, Transfer, AccountResult, AccountStatus, Env, Reply, done}
use ledger_service.Service.Metadata.{metadata_for_account}
use ledger_service.Service.Reporting.{IsReported}
use ledger_service.Service.World.{
  Service, World, M, resume, ◌>>=◌, Event, sent_account, sent_transfer, sent_account_lookup,
  sent_transfer_lookup, calls_in_flight, ledger_call, operation, logged,
}

-- what the ledger keeps under an ID
pub data Entry : Type 0 where
  account_entry : Account → Entry
  transfer_entry : Transfer → Entry

-- `P` holds of each element
abbrev pub Each : {A : Type 0} → (A → Type 0) → List A → Type 0
Each P [] = Unit
Each P (x ∷ xs) = P x × Each P xs

-- an account that a request for its creation leaves in the ledger
abbrev pub IsMade : AccountStatus → Type 0
IsMade status = (status ≡ AccountStatus.created) ⊎ (status ≡ AccountStatus.exists)

-- What the ledger documents. `Holds e x`: in the state `e` the ledger has an account or a transfer
-- with the immutable fields of `x`. It never loses one; what a lookup returns it has, under the ID
-- that was asked for; and it has the account that it reports as created or existing. What other requests
-- have looked up or created by the same calls it has too.
pub record LedgerLaws {S : Type 0} (env : Env S) : Type 1 where
  pub Holds : S → Entry → Type 0
  pub found :
      (id : ℕ) (e : S) (a : Account)
      → (env.lookup_accounts (id ∷ []) e).0 ≡ done (a ∷ [])
      → Holds (env.lookup_accounts (id ∷ []) e).1 (account_entry a) × (a.id ≡ id)
  pub found_transfer :
      (id : ℕ) (e : S) (t : Transfer)
      → (env.lookup_transfers (id ∷ []) e).0 ≡ done (t ∷ [])
      → Holds (env.lookup_transfers (id ∷ []) e).1 (transfer_entry t) × (t.id ≡ id)
  pub provisioned :
      (a : Account) (e : S) (r : AccountResult)
      → (env.create_accounts (a ∷ []) e).0 ≡ done (r ∷ [])
      → IsMade r.status
      → Holds (env.create_accounts (a ∷ []) e).1 (account_entry a)
  pub kept_accounts :
      (accounts : List Account) (e : S) (x : Entry)
      → Holds e x
      → Holds (env.create_accounts accounts e).1 x
  pub kept_transfers :
      (ts : List Transfer) (e : S) (x : Entry) → Holds e x → Holds (env.create_transfers ts e).1 x
  pub kept_account_lookup :
      (ids : List ℕ) (e : S) (x : Entry) → Holds e x → Holds (env.lookup_accounts ids e).1 x
  pub kept_transfer_lookup :
      (ids : List ℕ) (e : S) (x : Entry) → Holds e x → Holds (env.lookup_transfers ids e).1 x
  pub kept_now : (e : S) (x : Entry) → Holds e x → Holds (env.now e).1 x
  pub others_held : (e : S) → Each (λ a. Holds e (account_entry a)) (env.others e)
  pub kept_wait : (ns : ℕ) (e : S) (x : Entry) → Holds e x → Holds (env.wait ns e).1 x

-- the transfers sent to the ledger, newest first
abbrev pub submissions : List Event → List Transfer
submissions [] = []
submissions (sent_transfer t ∷ es) = t ∷ submissions es
submissions (sent_account _ ∷ es) = submissions es
submissions (sent_account_lookup _ ∷ es) = submissions es
submissions (sent_transfer_lookup _ ∷ es) = submissions es
submissions (calls_in_flight _ ∷ es) = submissions es
submissions (ledger_call _ _ _ ∷ es) = submissions es
submissions (operation _ _ _ ∷ es) = submissions es
submissions (logged _ ∷ es) = submissions es

module _ {S : Type 0} where
  -- a call that sends no transfer, whatever else holds of it
  abbrev pub Quiet : {A : Type 0} → World S → (Result A → S → Type 0) → Result A → World S → Type 0
  Quiet w Q r w' = (submissions w'.events ≡ submissions w.events) × Q r w'.env

  -- a call that sends no transfer, and then `N` holds of its result and of the outside world; or sends one,
  -- of which `P` holds
  abbrev pub Submits :
      {A : Type 0}
      → World S
      → (Result A → S → Type 0)
      → (S → Transfer → Type 0)
      → Result A
      → World S
      → Type 0
  Submits w N P r w' =
      ((submissions w'.events ≡ submissions w.events) × N r w'.env)
      ⊎ ((t : Transfer) × P w'.env t × (submissions w'.events ≡ t ∷ submissions w.events))

module _ {S : Type 0} (s : Service S) (laws : LedgerLaws s.env) where
  -- the ledger has an account under the ID that reads as the metadata
  abbrev pub Backed : S → ℕ → AccountMetadata → Type 0
  Backed e id m =
      (a : Account) × laws.Holds e (account_entry a)
      × (a.id ≡ id)
      × (metadata_for_account s.sdk s.ledger_id a ≡ some m)

  -- nothing that the ledger has in the first state is lost in the second
  abbrev pub Later : S → S → Type 0
  Later e e' = (x : Entry) → laws.Holds e x → laws.Holds e' x

  -- The cache is valid, the ledger backs whatever it holds, and the calls of the SDK are reported.
  pub record IsSound (w : World S) : Type 0 where
    pub cache_valid : IsValid w.cache
    pub backed : (id : ℕ) (m : AccountMetadata) → load w.cache id ≡ some m → Backed w.env id m
    pub reported : IsReported s w

  pub Backed-Later :
      {e e' : S} (id : ℕ) (m : AccountMetadata) → Later e e' → Backed e id m → Backed e' id m
  Backed-Later id m later (a, holds, same, reads) = (a, later (account_entry a) holds, same, reads)

  -- What holds of a call from the state `w` on: it leaves a sound state and no account is lost, and
  -- the result and the state satisfy `Q`.
  abbrev pub Wp : {A : Type 0} → M S A → World S → (Result A → World S → Type 0) → Type 0
  Wp m w Q = IsSound (m w).1 × Later w.env (m w).1.env × Q (m w).0 (m w).1

  -- the same of a result and a state that a call has left
  abbrev Leaves : {A : Type 0} → S → (Result A → World S → Type 0) → Result A × World S → Type 0
  Leaves e Q p = IsSound p.1 × Later e p.1.env × Q p.0 p.1

  module _ {A B : Type 0} (m : M S A) (f : A → M S B) (w : World S)
      (Q : Result A → World S → Type 0) (R : Result B → World S → Type 0) where
    Leaves-resume :
        ((a : A) (w' : World S) → IsSound w' → Later w.env w'.env → Q (ok a) w' → Wp (f a) w' R)
        → ((e : Error) (w' : World S) → Q (err e) w' → R (err e) w')
        → (r : Result A) (w' : World S) → Leaves w.env Q (r, w')
        → Leaves w.env R (resume f r w')
    Leaves-resume k j (ok a) w' (sound, later, q) =
        let (sound', later', r) = k a w' sound later q in
        (sound', λ x holds. later' x (later x holds), r)
    Leaves-resume k j (err e) w' (sound, later, q) = (sound, later, j e w' q)

    -- the rule for a chain: what the first call ensures is what the rest may rely on
    pub Wp-bind :
        Wp m w Q
        → ((a : A) (w' : World S) → IsSound w' → Later w.env w'.env → Q (ok a) w' → Wp (f a) w' R)
        → ((e : Error) (w' : World S) → Q (err e) w' → R (err e) w')
        → Wp (m >>= f) w R
    unfolding ◌>>=◌
    Wp-bind p k j = Leaves-resume k j (m w).0 (m w).1 p

  -- the rule for a chain that may send a transfer behind a call that sends none
  pub Wp-bind-Submits :
      {A B : Type 0} (m : M S A) (f : A → M S B) (w : World S) (Q : Result A → S → Type 0)
      (N : Result B → S → Type 0) (P : S → Transfer → Type 0)
      → Wp m w (Quiet w Q)
      → ((a : A) (w' : World S)
          → IsSound w'
          → Later w.env w'.env
          → Q (ok a) w'.env
          → Wp (f a) w' (Submits w' N P))
      → ((e : Error) (env : S) → N (err e) env)
      → Wp (m >>= f) w (Submits w N P)
  Wp-bind-Submits m f w Q N P p k n =
      Wp-bind m f w (Quiet w Q) (Submits w N P) p
        (λ a w' sound later (quiet, q).
          let (sound', later', sent) = k a w' sound later q in
          (
            sound',
            later',
            elim sent [
              | inl (same, holds) ↦ inl (same ∙ quiet, holds)
              | inr (t, holds, one) ↦ inr (t, holds, one ∙ ap (◌∷◌ t) quiet)
            ],
          ))
        (λ e w' (quiet, q). inl (quiet, n e w'.env))

  -- the rule for a chain of two calls that send no transfer
  pub Wp-bind-Quiet :
      {A B : Type 0} (m : M S A) (f : A → M S B) (w : World S) (Q : Result A → S → Type 0)
      (R : Result B → S → Type 0)
      → Wp m w (Quiet w Q)
      → ((a : A) (w' : World S)
          → IsSound w'
          → Later w.env w'.env
          → Q (ok a) w'.env
          → Wp (f a) w' (Quiet w' R))
      → ((e : Error) (env : S) → Q (err e) env → R (err e) env)
      → Wp (m >>= f) w (Quiet w R)
  Wp-bind-Quiet m f w Q R p k n =
      Wp-bind m f w (Quiet w Q) (Quiet w R) p
        (λ a w' sound later (quiet, q).
          let (sound', later', (same, r)) = k a w' sound later q in
          (sound', later', (same ∙ quiet, r)))
        (λ e w' (quiet, q). (quiet, n e w'.env q))
