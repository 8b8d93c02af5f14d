-- ===== src/Config/Laws.antt =====
-- How a chain of checked settings answers, and what each test of a setting means.
use ledger_service.Prelude.{
  ℕ, ◌*◌, ◌^◌, ◌-◌, ◌≡◌, ◌≢◌, ◌↔◌, refl, Bool, true, false, ◌==◌, String, Option, none, some, List,
  [], ◌∷◌, map, ap, sym, ◌∙◌, arith, if◌then◌else◌,
}
use ledger_service.Prelude.Int.{ℤ, pos, ltb_ℤ, ◌≤ℤ◌}
use ledger_service.Clock.{second, millisecond}
use ledger_service.Config.{
  ConfigError, empty_address, Loaded, loaded, refused, ◌>>=◌, checked, trim_addresses, bad_timeout,
  bad_concurrency, bad_threshold, bad_size,
}
use ledger_service.Service.Text.{trim_space, is_empty}

-- no text of the list is empty
abbrev pub AllPresent : List String → Type 0
AllPresent [] = Unit
AllPresent (s ∷ ss) = (is_empty s ≡ false) × AllPresent ss

pub bind-eq-loaded :
    {A B : Type 0} (m : Loaded A) (f : A → Loaded B) {b : B}
    → (m >>= f) ≡ loaded b
    → (a : A) × (m ≡ loaded a) × (f a ≡ loaded b)
unfolding ◌>>=◌
bind-eq-loaded (loaded a) f h = (a, refl, h)
bind-eq-loaded (refused e) f h = cc

pub bind-loaded :
    {A B : Type 0} (f : A → Loaded B) {m : Loaded A} {a : A} → m ≡ loaded a → (m >>= f) ≡ f a
unfolding ◌>>=◌
bind-loaded f same = ap (λ m. m >>= f) same

abbrev value_or : {A : Type 0} → A → Loaded A → A
value_or _ (loaded a) = a
value_or a (refused _) = a

pub loaded-injective : {A : Type 0} (a b : A) → loaded a ≡ loaded b → a ≡ b
loaded-injective a b h = ap (value_or a) h

if-loaded :
    {A : Type 0} (e : ConfigError) (b : Bool) (m : Loaded A) {a : A}
    → (if b then refused e else m) ≡ loaded a
    → (b ≡ false) × (m ≡ loaded a)
if-loaded e true m h = cc
if-loaded e false m h = (refl, h)

pub checked-eq-loaded :
    {A : Type 0} (e : ConfigError) (bad : A → Bool) (o : Option A) {a : A}
    → checked e bad o ≡ loaded a
    → (o ≡ some a) × (bad a ≡ false)
unfolding checked
checked-eq-loaded e bad none h = cc
checked-eq-loaded e bad (some b) h =
    let (good, same) = if-loaded e (bad b) (loaded b) h in
    let eq = loaded-injective b _ same in (ap some eq, ap bad (sym eq) ∙ good)

pub checked-loaded :
    {A : Type 0} (e : ConfigError) (bad : A → Bool) {o : Option A} {a : A}
    → o ≡ some a
    → bad a ≡ false
    → checked e bad o ≡ loaded a
unfolding checked
checked-loaded e bad {a = a} same good =
    ap (checked e bad) same ∙ ap (λ b. if b then refused e else loaded a) good

pub trim_addresses-eq-loaded :
    (addresses : List String) {trimmed : List String}
    → trim_addresses addresses ≡ loaded trimmed
    → (trimmed ≡ map trim_space addresses) × AllPresent (map trim_space addresses)
unfolding trim_addresses
trim_addresses-eq-loaded [] h = (sym (loaded-injective [] _ h), tt)
trim_addresses-eq-loaded (address ∷ addresses) h =
    let (rest, step, last) = bind-eq-loaded _ (λ rest. loaded (trim_space address ∷ rest)) h in
    let (present, tail) = if-loaded empty_address _ _ step in
    let (same, all) = trim_addresses-eq-loaded addresses tail in
    (sym (loaded-injective _ _ last) ∙ ap (◌∷◌ (trim_space address)) same, (present, all))

pub trim_addresses-loaded :
    (addresses : List String)
    → AllPresent (map trim_space addresses)
    → trim_addresses addresses ≡ loaded (map trim_space addresses)
unfolding trim_addresses
trim_addresses-loaded [] _ = refl
trim_addresses-loaded (address ∷ addresses) (present, all) =
    bind-loaded (λ rest. loaded (trim_space address ∷ rest))
      (ap (λ b. if b then refused empty_address else trim_addresses addresses) present
        ∙ trim_addresses-loaded addresses all)

-- what a value that passes a test satisfies
pub not_negative_iff : (d : ℤ) → (ltb_ℤ d (pos 0) ≡ false) ↔ (pos 0 ≤ℤ d)
not_negative_iff d = ground arith

pub bad_timeout-false_iff :
    (d : ℤ) → (bad_timeout d ≡ false) ↔ ((pos second ≤ℤ d) × (d ≤ℤ pos ((2 ^ 32 - 1) * second)))
bad_timeout-false_iff d = ground arith

pub bad_threshold-false_iff :
    (d : ℤ)
    → (bad_threshold d ≡ false) ↔ ((pos (100 * millisecond) ≤ℤ d) × (d ≤ℤ pos (60 * second)))
bad_threshold-false_iff d = ground arith

pub bad_size-false_iff : (n : ℤ) → (bad_size n ≡ false) ↔ ((pos 0 ≤ℤ n) × (n ≤ℤ pos 10_000_000))
bad_size-false_iff n = ground arith

pub bad_concurrency-false_iff :
    (n : ℤ) → (bad_concurrency n ≡ false) ↔ ((pos 1 ≤ℤ n) × (n ≤ℤ pos 1_000_000))
bad_concurrency-false_iff n = ground arith

pub ==-false_iff : (n : ℕ) → (n == 0 ≡ false) ↔ (n ≢ 0)
==-false_iff n = ground arith
