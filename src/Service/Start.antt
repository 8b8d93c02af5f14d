-- ===== src/Service/Start.antt =====
-- `New` (internal/service/service.go): the service and its state at the start.
use ledger_service.Prelude.{
  ℕ, ◌+◌, ◌-◌, ◌*◌, ◌/◌, ◌%◌, ◌^◌, ◌<◌, ◌≤◌, ◌≡◌, ap, refl, sym, ◌∙◌, Bool, Bool-cases, inl, inr,
  [], none, some, arith,
}
use ledger_service.Prelude.Int.{
  ℤ, pos, negsuc, add_int64, mul_int64, quot, add_int64-pos, add_int64-pred, mul_int64-pos,
}
use ledger_service.Assoc.{lookup}
use ledger_service.Cache.{AccountMetadata, new_metadata_cache, load}
use ledger_service.Cache.Invariant.{new_metadata_cache-IsValid}
use ledger_service.Clock.{second, round_up_seconds}
use ledger_service.Health.{new_observed_ledger}
use ledger_service.Sdk.{Sdk, Env}
use ledger_service.Service.Reporting.{new_observed_ledger-IsIdle}
use ledger_service.Service.Rules.{LedgerLaws, IsSound}
use ledger_service.Service.World.{Service, World}

load-new_metadata_cache : (limit : ℤ) (id : ℕ) → load (new_metadata_cache limit) id ≡ none
unfolding load new_metadata_cache lookup
load-new_metadata_cache limit id = ground arith

some_not_none : (m : AccountMetadata) → ¬ (some m ≡ none)
some_not_none m h = cc

-- the arguments of `New` that are settings
pub record Settings : Type 0 where
  pub ledger_id : ℕ
  pub authorization_timeout : ℤ
  pub risk_delay : ℤ
  pub risk_limit_cents : ℕ
  pub ledger_stall_threshold : ℤ
  pub account_metadata_cache_size : ℤ
  pub has_metrics : Bool

module _ {S : Type 0} (sdk : Sdk) (env : Env S) (settings : Settings) where
  -- the constant fields of the value that `New` returns
  abbrev pub new_service : Service S
  new_service = record {
    sdk = sdk;
    env = env;
    ledger_id = settings.ledger_id;
    authorization_timeout = round_up_seconds settings.authorization_timeout;
    risk_delay = settings.risk_delay;
    risk_limit_cents = settings.risk_limit_cents;
    has_metrics = settings.has_metrics;
  }

  -- its other fields, over the state of the outside world
  unfoldable pub new_world : S → World S
  unfolding new_metadata_cache new_observed_ledger
  new_world e = record {
    env = e;
    cache = new_metadata_cache settings.account_metadata_cache_size;
    observed = new_observed_ledger settings.ledger_stall_threshold;
    events = [];
  }

  -- `New` starts in a sound state, whatever the settings.
  pub new_world-IsSound : (laws : LedgerLaws env) (e : S) → IsSound new_service laws (new_world e)
  unfolding new_world
  new_world-IsSound laws e = record {
    cache_valid = new_metadata_cache-IsValid settings.account_metadata_cache_size;
    backed = λ id m hit. absurd (
        some_not_none m
          (sym hit ∙ load-new_metadata_cache settings.account_metadata_cache_size id));
    reported = record {
      metered = λ kind. elim (Bool-cases settings.has_metrics) [
        | inl on ↦ rw on refl
        | inr off ↦ rw off refl
      ];
      idle = new_observed_ledger-IsIdle settings.ledger_stall_threshold;
    };
  }

-- An authorization timeout that is positive, and small enough not to wrap, is rounded up to whole
-- seconds.
pub round_up_seconds-bounds :
    (n : ℕ)
    → 0 < n
    → n + second < 2 ^ 63
    → (r : ℕ) × (round_up_seconds (pos n) ≡ pos r) × (n ≤ r) × (r < n + second) × (r % second ≡ 0)
unfolding round_up_seconds
round_up_seconds-bounds n positive small =
    let k : ℕ = (n + second - 1) / second in
    (
      k * second,
      ap (λ z. mul_int64 (quot (add_int64 z (negsuc 0)) second) second)
            (add_int64-pos n second (omega arith))
          ∙ ap (λ z. mul_int64 (quot z second) second)
              (add_int64-pred (n + second) (omega arith) (omega arith))
          ∙ mul_int64-pos k second (omega arith),
      omega arith,
      omega arith,
      omega arith,
    )
