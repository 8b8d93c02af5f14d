-- ===== src/Service/Rules/Steps.antt =====
-- The rules by which the chains of the service are read, step by step, up to the transfer that they
-- send: a computed result, a guard, a call that sends none, and the submission.
use ledger_service.Prelude.{Bool, true, false, ◌≡◌, refl, inl, if◌then◌else◌}
use ledger_service.Domain.{Error, Result, ok, err}
use ledger_service.Sdk.{Transfer, TransferResult}
use ledger_service.Service.Calls.{ledger_create_transfer}
use ledger_service.Service.Rules.Calls.{Wp-submission}
use ledger_service.Service.Rules.{LedgerLaws, IsSound, Later, Wp, Wp-bind-Submits, Quiet, Submits}
use ledger_service.Service.World.{Service, World, M, ◌>>=◌, ◌>>◌, lift, fail_if, attempt}

-- the call failed
abbrev pub Failed : {S A : Type 0} → Result A → S → Type 0
Failed (ok _) _ = ⊥
Failed (err _) _ = Unit

module _ {S : Type 0} (s : Service S) (laws : LedgerLaws s.env) {B : Type 0}
    (N : Result B → S → Type 0) (P : S → Transfer → Type 0) where
  -- From the state `w` the call `m` leaves a sound state and loses no account; it sends no transfer
  -- and `N` holds of its result and the ledger, or it sends one transfer, of which `P` holds.
  pub record Sends (m : M S B) (w : World S) : Type 0 where
    pub run : Wp s laws m w (Submits w N P)

  module _ (n : (e : Error) (env : S) → N (err e) env) (w : World S)
      (sound : IsSound s laws w) where
    pub Sends-lift :
        {A : Type 0} (r : Result A) (f : A → M S B)
        → ((a : A) → r ≡ ok a → Sends (f a) w)
        → Sends (lift r >>= f) w
    unfolding ◌>>=◌
    Sends-lift (ok a) f k = k a refl
    Sends-lift (err e) f k = record { run = (sound, λ a h. h, inl (refl, n e w.env)) }

    pub Sends-fail_if :
        (b : Bool) (e : Error) (k : M S B) → (b ≡ false → Sends k w) → Sends (fail_if b e >> k) w
    unfolding ◌>>=◌
    Sends-fail_if false e k h = h refl
    Sends-fail_if true e k h = record { run = (sound, λ a h. h, inl (refl, n e w.env)) }

    pub Sends-bind :
        {A : Type 0} (m : M S A) (f : A → M S B) (Q : Result A → S → Type 0)
        → Wp s laws m w (Quiet w Q)
        → ((a : A) (w' : World S)
            → IsSound s laws w'
            → Later s laws w.env w'.env
            → Q (ok a) w'.env
            → Sends (f a) w')
        → Sends (m >>= f) w
    Sends-bind m f Q p k = record {
      run =
          Wp-bind-Submits s laws m f w Q N P p (λ a w' sound' later q. (k a w' sound' later q).run)
            n;
    }

  pub Sends-submission :
      (w : World S) (sound : IsSound s laws w) (t : Transfer) (f : Result TransferResult → M S B)
      → ((e : S) → Later s laws w.env e → P e t)
      → ((r : Result TransferResult) (w' : World S)
          → IsSound s laws w'
          → Wp s laws (f r) w' (Quiet w' (λ _ _. Unit {0})))
      → Sends (attempt (ledger_create_transfer s t) >>= f) w
  Sends-submission w sound t f holds rest = record {
    run = Wp-submission s laws N P w sound t f holds rest;
  }

  -- a call that sends none
  pub Sends-none : (w : World S) (m : M S B) → Wp s laws m w (Quiet w N) → Sends m w
  Sends-none w m (sound, later, quiet) = record { run = (sound, later, inl quiet) }

  -- a result, with nothing sent
  pub Sends-answer : (w : World S) (r : Result B) → IsSound s laws w → N r w.env → Sends (lift r) w
  Sends-answer w r sound holds = record { run = (sound, λ a h. h, inl (refl, holds)) }

  pub Sends-if :
      (w : World S) (b : Bool) (m k : M S B)
      → (b ≡ true → Sends m w)
      → (b ≡ false → Sends k w)
      → Sends (if b then m else k) w
  Sends-if w true m k h j = h refl
  Sends-if w false m k h j = j refl

-- a call whose error is inspected leaves what the call leaves
pub Wp-attempt :
    {S : Type 0} (s : Service S) (laws : LedgerLaws s.env) {A : Type 0} (m : M S A) (w : World S)
    (Q : Result A → S → Type 0)
    → Wp s laws m w (Quiet w Q)
    → Wp s laws (attempt m) w (Quiet w (λ r e. (a : Result A) → r ≡ ok a → Q a e))
Wp-attempt s laws m w Q (sound, later, (same, q)) =
    (sound, later, (same, λ a h. let e : (m w).0 ≡ a = cc in rw (← e) q))
