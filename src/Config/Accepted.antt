-- ===== src/Config/Accepted.antt =====
-- Exactly which environments `Load` accepts, and what it makes of them.
use ledger_service.Prelude.{
  ◌*◌, ◌^◌, ◌-◌, ◌≡◌, ◌≢◌, ◌↔◌, String, refl, some, map, ap, sym, ◌∙◌, subst,
}
use ledger_service.Prelude.Int.{pos, ◌≤ℤ◌}
use ledger_service.Clock.{second, millisecond}
use ledger_service.Config.Parse.{split_comma}
use ledger_service.Config.{
  Platform, Config, bad_cluster_id, bad_ledger_id, bad_authorization_timeout, bad_risk_delay,
  bad_risk_limit, bad_max_concurrent_requests, bad_stall_threshold, bad_cache_size, loaded, env,
  trim_addresses, load,
}
use ledger_service.Config.Settings.{
  IsText, IsDuration, IsNumber, IsInt, env_iff, duration_env_iff, uint32_env_iff, uint64_env_iff,
  int_env_iff,
}
use ledger_service.Service.Text.{trim_space}
use ledger_service.Config.Laws.{
  AllPresent, loaded-injective, bind-eq-loaded, bind-loaded, checked-eq-loaded, checked-loaded,
  trim_addresses-eq-loaded, trim_addresses-loaded, not_negative_iff, bad_timeout-false_iff,
  bad_threshold-false_iff, bad_size-false_iff, bad_concurrency-false_iff, ==-false_iff,
}

-- The settings of an environment that is accepted, each with what it is read as and its range.
pub record IsAccepted (p : Platform) (c : Config) : Type 0 where
  pub cluster_text : String
  pub addresses_text : String
  pub http_address : IsText p "HTTP_ADDRESS" ":8080" c.http_address
  pub cluster_read : IsText p "TB_CLUSTER_ID" "0" cluster_text
  pub cluster_id : p.hex_string_to_uint128 cluster_text ≡ some c.tigerbeetle_cluster_id
  pub ledger_id : IsNumber p "TB_LEDGER_ID" 32 1 c.ledger_id
  pub ledger_id_nonzero : c.ledger_id ≢ 0
  pub authorization_timeout :
      IsDuration p "AUTHORIZATION_TIMEOUT" (pos (3_600 * second)) c.authorization_timeout
  pub timeout_between :
      (pos second ≤ℤ c.authorization_timeout)
      × (c.authorization_timeout ≤ℤ pos ((2 ^ 32 - 1) * second))
  pub risk_delay :
      IsDuration p "RISK_EVALUATION_DELAY" (pos (200 * millisecond)) c.risk_evaluation_delay
  pub risk_delay_not_negative : pos 0 ≤ℤ c.risk_evaluation_delay
  pub risk_limit :
      IsNumber p "RISK_AUTO_APPROVE_LIMIT_CENTS" 64 100_000 c.risk_auto_approve_limit_cents
  pub risk_limit_positive : c.risk_auto_approve_limit_cents ≢ 0
  pub concurrency : IsInt p "MAX_CONCURRENT_REQUESTS" (pos 4_096) c.max_concurrent_requests
  pub concurrency_between :
      (pos 1 ≤ℤ c.max_concurrent_requests) × (c.max_concurrent_requests ≤ℤ pos 1_000_000)
  pub stall_threshold :
      IsDuration p "LEDGER_STALL_THRESHOLD" (pos (2 * second)) c.ledger_stall_threshold
  pub threshold_between :
      (pos (100 * millisecond) ≤ℤ c.ledger_stall_threshold)
      × (c.ledger_stall_threshold ≤ℤ pos (60 * second))
  pub cache_size : IsInt p "ACCOUNT_METADATA_CACHE_SIZE" (pos 100_000) c.account_metadata_cache_size
  pub size_between :
      (pos 0 ≤ℤ c.account_metadata_cache_size) × (c.account_metadata_cache_size ≤ℤ pos 10_000_000)
  pub addresses_read : IsText p "TB_ADDRESSES" "127.0.0.1:3000" addresses_text
  pub addresses : c.tigerbeetle_addresses ≡ map trim_space (split_comma addresses_text)
  pub addresses_present : AllPresent (map trim_space (split_comma addresses_text))

pub load-IsAccepted : (p : Platform) (c : Config) → load p ≡ loaded c → IsAccepted p c
unfolding load
load-IsAccepted p c h =
    let (v1, h1, k1) = bind-eq-loaded _ _ h in
    let (s1, t1) = checked-eq-loaded bad_cluster_id _ _ h1 in
    let (v2, h2, k2) = bind-eq-loaded _ _ k1 in
    let (s2, t2) = checked-eq-loaded bad_ledger_id _ _ h2 in
    let (v3, h3, k3) = bind-eq-loaded _ _ k2 in
    let (s3, t3) = checked-eq-loaded bad_authorization_timeout _ _ h3 in
    let (v4, h4, k4) = bind-eq-loaded _ _ k3 in
    let (s4, t4) = checked-eq-loaded bad_risk_delay _ _ h4 in
    let (v5, h5, k5) = bind-eq-loaded _ _ k4 in
    let (s5, t5) = checked-eq-loaded bad_risk_limit _ _ h5 in
    let (v6, h6, k6) = bind-eq-loaded _ _ k5 in
    let (s6, t6) = checked-eq-loaded bad_max_concurrent_requests _ _ h6 in
    let (v7, h7, k7) = bind-eq-loaded _ _ k6 in
    let (s7, t7) = checked-eq-loaded bad_stall_threshold _ _ h7 in
    let (v8, h8, k8) = bind-eq-loaded _ _ k7 in
    let (s8, t8) = checked-eq-loaded bad_cache_size _ _ h8 in
    let (addresses, h9, k9) = bind-eq-loaded _ _ k8 in
    let (s9, t9) = trim_addresses-eq-loaded _ h9 in
    subst (IsAccepted p) (loaded-injective _ _ k9) (record {
      cluster_text = env p "TB_CLUSTER_ID" "0";
      addresses_text = env p "TB_ADDRESSES" "127.0.0.1:3000";
      http_address = (env_iff p _ _ _).0 refl;
      cluster_read = (env_iff p _ _ _).0 refl;
      cluster_id = s1;
      ledger_id = (uint32_env_iff p _ _ _).0 s2;
      ledger_id_nonzero = (==-false_iff v2).0 t2;
      authorization_timeout = (duration_env_iff p _ _ _).0 s3;
      timeout_between = (bad_timeout-false_iff v3).0 t3;
      risk_delay = (duration_env_iff p _ _ _).0 s4;
      risk_delay_not_negative = (not_negative_iff v4).0 t4;
      risk_limit = (uint64_env_iff p _ _ _).0 s5;
      risk_limit_positive = (==-false_iff v5).0 t5;
      concurrency = (int_env_iff p _ _ _).0 s6;
      concurrency_between = (bad_concurrency-false_iff v6).0 t6;
      stall_threshold = (duration_env_iff p _ _ _).0 s7;
      threshold_between = (bad_threshold-false_iff v7).0 t7;
      cache_size = (int_env_iff p _ _ _).0 s8;
      size_between = (bad_size-false_iff v8).0 t8;
      addresses_read = (env_iff p _ _ _).0 refl;
      addresses = s9;
      addresses_present = t9;
    })

IsAccepted-load : (p : Platform) (c : Config) → IsAccepted p c → load p ≡ loaded c
unfolding load
IsAccepted-load p c a =
    let same = (env_iff p "TB_ADDRESSES" "127.0.0.1:3000" a.addresses_text).1 a.addresses_read in
    let cluster = (env_iff p "TB_CLUSTER_ID" "0" a.cluster_text).1 a.cluster_read in
    let trimmed = map trim_space (split_comma a.addresses_text) in
    bind-loaded _
      (checked-loaded bad_cluster_id _ (ap p.hex_string_to_uint128 cluster ∙ a.cluster_id) refl)
    ∙ bind-loaded _ (
        checked-loaded bad_ledger_id _ ((uint32_env_iff p _ _ _).1 a.ledger_id)
          ((==-false_iff c.ledger_id).1 a.ledger_id_nonzero))
    ∙ bind-loaded _ (
        checked-loaded bad_authorization_timeout _
          ((duration_env_iff p _ _ _).1 a.authorization_timeout)
          ((bad_timeout-false_iff c.authorization_timeout).1 a.timeout_between))
    ∙ bind-loaded _ (
        checked-loaded bad_risk_delay _ ((duration_env_iff p _ _ _).1 a.risk_delay)
          ((not_negative_iff c.risk_evaluation_delay).1 a.risk_delay_not_negative))
    ∙ bind-loaded _ (
        checked-loaded bad_risk_limit _ ((uint64_env_iff p _ _ _).1 a.risk_limit)
          ((==-false_iff c.risk_auto_approve_limit_cents).1 a.risk_limit_positive))
    ∙ bind-loaded _ (
        checked-loaded bad_max_concurrent_requests _ ((int_env_iff p _ _ _).1 a.concurrency)
          ((bad_concurrency-false_iff c.max_concurrent_requests).1 a.concurrency_between))
    ∙ bind-loaded _ (
        checked-loaded bad_stall_threshold _ ((duration_env_iff p _ _ _).1 a.stall_threshold)
          ((bad_threshold-false_iff c.ledger_stall_threshold).1 a.threshold_between))
    ∙ bind-loaded _ (
        checked-loaded bad_cache_size _ ((int_env_iff p _ _ _).1 a.cache_size)
          ((bad_size-false_iff c.account_metadata_cache_size).1 a.size_between))
    ∙ bind-loaded _ (
        ap (λ text. trim_addresses (split_comma text)) same
        ∙ trim_addresses-loaded _ a.addresses_present)
    ∙ ap (λ a. loaded (record c { http_address = a; tigerbeetle_addresses = trimmed }))
        ((env_iff p _ _ _).1 a.http_address)
    ∙ ap (λ ads. loaded (record c { tigerbeetle_addresses = ads })) (sym a.addresses)

-- `Load` answers with a configuration exactly where every setting is readable and in its range; the
-- configuration then holds what the text of each variable is read as, numbers within 32 and 64 bits,
-- or the setting's default where the variable is empty, and the addresses between the commas without
-- the blanks around them.
pub load_iff : (p : Platform) (c : Config) → (load p ≡ loaded c) ↔ IsAccepted p c
load_iff p c = (load-IsAccepted p c, IsAccepted-load p c)
