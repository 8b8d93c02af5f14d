-- ===== src/Config.antt =====
-- internal/config/config.go: the settings, read from the environment and checked. The environment and
-- the parser of durations are parameters.
pub mod Parse
pub mod Settings
mod Laws
pub mod Accepted
pub mod Durations
use ledger_service.Prelude.{
  ℕ, ◌*◌, ◌^◌, ◌-◌, Bool, true, false, ◌||◌, ltb, ◌==◌, String, str_eq, Option, none, some, List,
  [], ◌∷◌, map, if◌then◌else◌,
}
use ledger_service.Prelude.Int.{ℤ, pos, ltb_ℤ, leb_ℤ}
use ledger_service.Clock.{second, millisecond}
use ledger_service.Config.Parse.{parse_uint, atoi, split_comma}
use ledger_service.Service.Text.{trim_space, is_empty}

-- `os.Getenv`, `time.ParseDuration` and the SDK's `HexStringToUint128`; `none` is an error
pub record Platform : Type 0 where
  pub getenv : String → String
  pub parse_duration : String → Option ℤ
  pub hex_string_to_uint128 : String → Option ℕ

pub record Config : Type 0 where
  pub http_address : String
  pub tigerbeetle_cluster_id : ℕ
  pub tigerbeetle_addresses : List String
  pub ledger_id : ℕ
  pub authorization_timeout : ℤ
  pub risk_evaluation_delay : ℤ
  pub risk_auto_approve_limit_cents : ℕ
  pub max_concurrent_requests : ℤ
  pub ledger_stall_threshold : ℤ
  pub account_metadata_cache_size : ℤ

-- the setting that an error of `Load` names
pub data ConfigError : Type 0 where
  bad_cluster_id bad_ledger_id bad_authorization_timeout bad_risk_delay : ConfigError
  bad_risk_limit bad_max_concurrent_requests bad_stall_threshold : ConfigError
  bad_cache_size empty_address : ConfigError

pub data Loaded {ℓ} (A : Type ℓ) : Type ℓ where
  loaded : A → Loaded A
  refused : ConfigError → Loaded A

infixl 5 ◌>>=◌
unfoldable pub ◌>>=◌ : {A B : Type 0} → Loaded A → (A → Loaded B) → Loaded B
loaded a >>= f = f a
refused e >>= f = refused e

-- `if err != nil || bad(value) { return … }`
unfoldable pub checked : {A : Type 0} → ConfigError → (A → Bool) → Option A → Loaded A
checked e bad none = refused e
checked e bad (some a) = if bad a then refused e else loaded a

-- the loop over the addresses
unfoldable pub trim_addresses : List String → Loaded (List String)
trim_addresses [] = loaded []
trim_addresses (address ∷ addresses) = do
  rest ← if is_empty (trim_space address) then refused empty_address else trim_addresses addresses
  loaded (trim_space address ∷ rest)

-- the tests on the values
abbrev pub bad_timeout : ℤ → Bool
bad_timeout d = ltb_ℤ d (pos second) || ltb_ℤ (pos ((2 ^ 32 - 1) * second)) d

abbrev pub bad_concurrency : ℤ → Bool
bad_concurrency n = leb_ℤ n (pos 0) || ltb_ℤ (pos 1_000_000) n

abbrev pub bad_threshold : ℤ → Bool
bad_threshold d = ltb_ℤ d (pos (100 * millisecond)) || ltb_ℤ (pos (60 * second)) d

abbrev pub bad_size : ℤ → Bool
bad_size n = ltb_ℤ n (pos 0) || ltb_ℤ (pos 10_000_000) n

module _ (p : Platform) where
  -- `env`
  unfoldable pub env : String → String → String
  env key fallback = if is_empty (p.getenv key) then fallback else p.getenv key

  -- `durationEnv`
  unfoldable pub duration_env : String → ℤ → Option ℤ
  duration_env key fallback =
      if is_empty (p.getenv key) then some fallback else p.parse_duration (p.getenv key)

  -- `uint32Env`
  unfoldable pub uint32_env : String → ℕ → Option ℕ
  uint32_env key fallback =
      if is_empty (p.getenv key) then some fallback else parse_uint (p.getenv key) 32

  -- `uint64Env`
  unfoldable pub uint64_env : String → ℕ → Option ℕ
  uint64_env key fallback =
      if is_empty (p.getenv key) then some fallback else parse_uint (p.getenv key) 64

  -- `intEnv`
  unfoldable pub int_env : String → ℤ → Option ℤ
  int_env key fallback = if is_empty (p.getenv key) then some fallback else atoi (p.getenv key)

  -- `Load`
  unfoldable pub load : Loaded Config
  load = do
    cluster_id ←
        checked bad_cluster_id (λ _. false) (p.hex_string_to_uint128 (env "TB_CLUSTER_ID" "0"))
    ledger_id ← checked bad_ledger_id (λ id. id == 0) (uint32_env "TB_LEDGER_ID" 1)
    authorization_timeout ←
        checked bad_authorization_timeout bad_timeout
          (duration_env "AUTHORIZATION_TIMEOUT" (pos (3_600 * second)))
    risk_delay ←
        checked bad_risk_delay (λ d. ltb_ℤ d (pos 0))
          (duration_env "RISK_EVALUATION_DELAY" (pos (200 * millisecond)))
    risk_limit ←
        checked bad_risk_limit (λ n. n == 0) (uint64_env "RISK_AUTO_APPROVE_LIMIT_CENTS" 100_000)
    max_concurrent_requests ←
        checked bad_max_concurrent_requests bad_concurrency
          (int_env "MAX_CONCURRENT_REQUESTS" (pos 4_096))
    ledger_stall_threshold ←
        checked bad_stall_threshold bad_threshold
          (duration_env "LEDGER_STALL_THRESHOLD" (pos (2 * second)))
    account_metadata_cache_size ←
        checked bad_cache_size bad_size (int_env "ACCOUNT_METADATA_CACHE_SIZE" (pos 100_000))
    addresses ← trim_addresses (split_comma (env "TB_ADDRESSES" "127.0.0.1:3000"))
    loaded (record {
      http_address = env "HTTP_ADDRESS" ":8080";
      tigerbeetle_cluster_id = cluster_id;
      tigerbeetle_addresses = addresses;
      ledger_id = ledger_id;
      authorization_timeout = authorization_timeout;
      risk_evaluation_delay = risk_delay;
      risk_auto_approve_limit_cents = risk_limit;
      max_concurrent_requests = max_concurrent_requests;
      ledger_stall_threshold = ledger_stall_threshold;
      account_metadata_cache_size = account_metadata_cache_size;
    })
