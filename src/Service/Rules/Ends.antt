-- ===== src/Service/Rules/Ends.antt =====
-- What every success of a call satisfies, from whatever state, read off the ends of its chain of calls.
use ledger_service.Prelude.{Bool, true, false, if◌then◌else◌}
use ledger_service.Domain.{Error, Result, ok, err}
use ledger_service.Service.World.{World, M, resume, ◌>>=◌, pure, raise}

-- `P` holds of a value that is returned
abbrev pub Success : {A : Type 0} → (A → Type 0) → Result A → Type 0
Success P (ok a) = P a
Success P (err _) = Unit

Success-any : {A : Type 0} (r : Result A) → Success (λ _. Unit {0}) r
Success-any (ok _) = tt
Success-any (err _) = tt

module _ {S A : Type 0} where
  pub record Ends (P : A → Type 0) (m : M S A) : Type 0 where
    pub run : (w : World S) → Success P (m w).0

  pub Ends-pure : {P : A → Type 0} (a : A) → P a → Ends P (pure {S = S} a)
  Ends-pure a holds = record { run = λ w. holds }

  pub Ends-raise : {P : A → Type 0} (e : Error) → Ends P (raise {S = S} e)
  Ends-raise e = record { run = λ w. tt }

  pub Ends-if :
      {P : A → Type 0} (b : Bool) {m k : M S A} → Ends P m → Ends P k → Ends P (if b then m else k)
  Ends-if true h j = h
  Ends-if false h j = j

module _ {S A B : Type 0} where
  Success-resume :
      {Q : A → Type 0} {P : B → Type 0} (f : A → M S B)
      → ((a : A) → Q a → Ends P (f a))
      → (r : Result A) (w : World S) → Success Q r
      → Success P (resume f r w).0
  Success-resume f k (ok a) w q = (k a q).run w
  Success-resume f k (err e) w q = tt

  -- what the first call's successes satisfy the rest may rely on
  pub Ends-bind :
      (Q : A → Type 0) {P : B → Type 0} {m : M S A} {f : A → M S B}
      → Ends Q m
      → ((a : A) → Q a → Ends P (f a))
      → Ends P (m >>= f)
  unfolding ◌>>=◌
  Ends-bind Q {m = m} {f = f} h k = record {
    run = λ w. Success-resume f k (m w).0 (m w).1 (h.run w);
  }

  -- the successes of the first call do not matter
  pub Ends-then :
      {P : B → Type 0} (m : M S A) {f : A → M S B} → ((a : A) → Ends P (f a)) → Ends P (m >>= f)
  Ends-then m k = Ends-bind (λ _. Unit {0}) (record { run = λ w. Success-any (m w).0 }) (λ a _. k a)
