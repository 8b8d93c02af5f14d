-- ===== src/Config/Settings.antt =====
-- A setting of `Load` (internal/config/config.go) is what its variable holds, where it is set, and a
-- default otherwise; the `…Env` functions read it so.
use ledger_service.Prelude.{
  ℕ, ◌^◌, ◌<◌, ◌≡◌, ◌≢◌, ◌↔◌, ◌⊎◌, inl, inr, refl, sym, subst, false, ltb, String, Option, none,
  some, arith, if◌then◌else◌, Bool-cases,
}
use ledger_service.Prelude.Int.{ℤ}
use ledger_service.Config.Parse.{natural, parse_uint, atoi}
use ledger_service.Config.{Platform, env, duration_env, uint32_env, uint64_env, int_env}
use ledger_service.Service.Text.{is_empty}

-- `value` is the default where the text of the variable is empty, and else what it is read as
abbrev pub IsSetting : {A : Type 0} → (String → A → Type 0) → String → A → A → Type 0
IsSetting Reads text fallback value =
    ((text ≡ "") × (value ≡ fallback)) ⊎ ((text ≢ "") × Reads text value)

module _ (p : Platform) (key : String) where
  abbrev pub IsText : String → String → Type 0
  IsText fallback value = IsSetting (λ text v. v ≡ text) (p.getenv key) fallback value

  abbrev pub IsDuration : ℤ → ℤ → Type 0
  IsDuration fallback value =
      IsSetting (λ text v. p.parse_duration text ≡ some v) (p.getenv key) fallback value

  -- a number in base 10 of at most so many bits
  abbrev pub IsNumber : ℕ → ℕ → ℕ → Type 0
  IsNumber bits fallback value =
      IsSetting (λ text v. (natural text ≡ some v) × (v < 2 ^ bits)) (p.getenv key) fallback value

  abbrev pub IsInt : ℤ → ℤ → Type 0
  IsInt fallback value = IsSetting (λ text v. atoi text ≡ some v) (p.getenv key) fallback value

some-injective : {A : Type 0} (a b : A) → some a ≡ some b → a ≡ b
some-injective a b h = cc

text_iff :
    (text fallback value : String)
    → ((if is_empty text then fallback else text) ≡ value)
      ↔ IsSetting (λ text v. v ≡ text) text fallback value
text_iff String.[] fallback value = (
  λ h. inl (refl, sym h),
  λ h. elim h [ inl (_, same) ↦ sym same | inr (set, _) ↦ absurd (set refl) ],
)
text_iff (String.◌∷◌ c s) fallback value =
    (λ h. inr (λ e. cc, sym h), λ h. elim h [ inl (e, _) ↦ cc | inr (_, same) ↦ sym same ])

read_or_iff :
    {A : Type 0} (read : String → Option A) (text : String) (fallback value : A)
    → ((if is_empty text then some fallback else read text) ≡ some value)
      ↔ IsSetting (λ text v. read text ≡ some v) text fallback value
read_or_iff read String.[] fallback value = (
  λ h. inl (refl, sym (some-injective fallback value h)),
  λ h. elim h [ inl (_, same) ↦ cc | inr (set, _) ↦ absurd (set refl) ],
)
read_or_iff read (String.◌∷◌ c s) fallback value =
    (λ h. inr (λ e. cc, h), λ h. elim h [ inl (e, _) ↦ cc | inr (_, same) ↦ same ])

below_iff :
    (m k n : ℕ) → ((if ltb m k then some m else none) ≡ some n) ↔ ((some m ≡ some n) × (n < k))
below_iff m k n = elim (Bool-cases (ltb m k)) [
  | inl below ↦
      rw below (λ h. (h, subst (λ x. x < k) (some-injective m n h) (ground arith)), λ (h, _). h)
  | inr above ↦ rw above (
    λ h. cc,
    λ (h, small). absurd (not_below above (subst (λ x. x < k) (sym (some-injective m n h)) small)),
  )
]
  where
    not_below : ltb m k ≡ false → ¬ (m < k)
    not_below above small = ground arith

parse_uint_iff :
    (text : String) (bits n : ℕ)
    → (parse_uint text bits ≡ some n) ↔ ((natural text ≡ some n) × (n < 2 ^ bits))
unfolding parse_uint
parse_uint_iff text bits n =
    elim (natural text)
      as (λ o.
        (elim o [ none ↦ none | some m ↦ if ltb m (2 ^ bits) then some m else none ] ≡ some n)
        ↔ ((o ≡ some n) × (n < 2 ^ bits))) [
          | none ↦ (λ h. cc, λ (h, _). cc)
          | some m ↦ below_iff m (2 ^ bits) n
        ]

map_set : {A B C D : Type 0} → (C → D) → A ⊎ (B × C) → A ⊎ (B × D)
map_set f (inl h) = inl h
map_set f (inr (set, reads)) = inr (set, f reads)

number_iff :
    (bits : ℕ) (text : String) (fallback value : ℕ)
    → ((if is_empty text then some fallback else parse_uint text bits) ≡ some value)
      ↔ IsSetting (λ text v. (natural text ≡ some v) × (v < 2 ^ bits)) text fallback value
number_iff bits text fallback value =
    let (read, made) = read_or_iff (λ t. parse_uint t bits) text fallback value in
    let (small, big) = parse_uint_iff text bits value in
    (λ h. map_set small (read h), λ h. made (map_set big h))

module _ (p : Platform) (key : String) where
  pub env_iff :
      (fallback value : String) → (env p key fallback ≡ value) ↔ IsText p key fallback value
  unfolding env
  env_iff = text_iff (p.getenv key)

  pub duration_env_iff :
      (fallback value : ℤ)
      → (duration_env p key fallback ≡ some value) ↔ IsDuration p key fallback value
  unfolding duration_env
  duration_env_iff = read_or_iff p.parse_duration (p.getenv key)

  pub uint32_env_iff :
      (fallback value : ℕ)
      → (uint32_env p key fallback ≡ some value) ↔ IsNumber p key 32 fallback value
  unfolding uint32_env
  uint32_env_iff fallback value = number_iff 32 (p.getenv key) fallback value

  pub uint64_env_iff :
      (fallback value : ℕ)
      → (uint64_env p key fallback ≡ some value) ↔ IsNumber p key 64 fallback value
  unfolding uint64_env
  uint64_env_iff fallback value = number_iff 64 (p.getenv key) fallback value

  pub int_env_iff :
      (fallback value : ℤ) → (int_env p key fallback ≡ some value) ↔ IsInt p key fallback value
  unfolding int_env
  int_env_iff = read_or_iff atoi (p.getenv key)
