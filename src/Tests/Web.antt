-- ===== src/Tests/Web.antt =====
-- A web front for the tests, whose decoder reads one fixed value of each kind from any body but the
-- empty one; and a ledger that takes every account, for the start of the process.
use ledger_service.Prelude.{
  ℕ, ◌*◌, ◌≡◌, refl, String, str_eq, Option, none, some, List, [], ◌∷◌, ◌++◌, map, ◌⊎◌, inl, inr,
  if◌then◌else◌,
}
use ledger_service.Prelude.Int.{pos}
use ledger_service.Clock.{second, millisecond}
use ledger_service.Config.{Platform, Config}
use ledger_service.Domain.{corporate_wallet}
use ledger_service.Http.Handlers.{Process}
use ledger_service.Http.Request.{
  HttpRequest, Route, create_account, topup, liveness, Decoded, malformed, decoded, Web,
}
use ledger_service.Main.{Host}
use ledger_service.Tests.Collectors.{registry_of_names}
use ledger_service.Sdk.{Account, AccountStatus, Env, done}
use ledger_service.Service.Rules.{Each, LedgerLaws, Entry, account_entry, transfer_entry}
use ledger_service.Tests.Sample.{sdk, world}

-- the value of a body that is not empty
abbrev whole : {A : Type 0} → A → String → Decoded String A
whole a text = if str_eq text "" then malformed "EOF" else decoded a ""

abbrev route_of : HttpRequest → Option Route
route_of request =
    if str_eq request.path "/v1/topups"
    then some topup
    else if str_eq request.path "/v1/accounts"
    then some create_account
    else if str_eq request.path "/health/live"
    then some liveness
    else none

abbrev pub web : Web String
web = record {
  parse_media_type = λ text. some text;
  equal_fold = str_eq;
  new_decoder = λ _ body. body;
  decode_create_account =
      whole (record { account_id = "c"; kind = corporate_wallet; corporate_account_id = "" });
  decode_top_up = whole (record { request_id = "c"; account_id = "a"; amount_cents = 900 });
  decode_withdrawal = whole (record { request_id = "c"; account_id = "a"; amount_cents = 900 });
  decode_card_allocation =
      whole (record { request_id = "c"; account_id = "a"; card_id = "b"; amount_cents = 900 });
  decode_card_return =
      whole (record { request_id = "c"; account_id = "a"; card_id = "b"; amount_cents = 900 });
  decode_authorization =
      whole (record { request_id = "c"; card_id = "b"; merchant_id = "shop"; amount_cents = 900 });
  decode_increment =
      whole (record { request_id = "c"; authorization_id = "4d"; increment_cents = 900 });
  at_eof = λ rest. str_eq rest "";
  serve_mux = λ _ request. route_of request;
  path_value = λ _ _. "a";
  unmatched = λ _. [];
  metrics_page = λ _ _. [];
  format_time = λ _. "";
}

abbrev pub top_up_post : HttpRequest
top_up_post = record {
  method = "POST";
  path = "/v1/topups";
  content_type = "application/json";
  body = "{}";
}

-- the process around the sample's service, with one slot taken
abbrev pub process : Process ℕ
process = record { world = world; held = 1; samples = [] }

-- A ledger that keeps every account it is asked to create, and finds none; what it keeps other requests
-- have created.
abbrev creating : Env (List Account)
creating = record {
  create_accounts = λ accounts e. (
    done (map (λ _. record { status = AccountStatus.created; timestamp = 1 }) accounts),
    accounts ++ e,
  );
  create_transfers = λ _ e. (done [], e);
  lookup_accounts = λ _ e. (done [], e);
  lookup_transfers = λ _ e. (done [], e);
  others = λ e. e;
  now = λ e. (second, e);
  wait = λ _ e. (none, e);
}

abbrev Has : List Account → Account → Type 0
Has [] a = ⊥
Has (x ∷ xs) a = (x ≡ a) ⊎ Has xs a

abbrev HasEntry : List Account → Entry → Type 0
HasEntry e (account_entry a) = Has e a
HasEntry e (transfer_entry _) = ⊥

Has-append : (xs e : List Account) (a : Account) → Has e a → Has (xs ++ e) a
Has-append [] e a h = h
Has-append (x ∷ xs) e a h = inr (Has-append xs e a h)

HasEntry-append : (xs e : List Account) (x : Entry) → HasEntry e x → HasEntry (xs ++ e) x
HasEntry-append xs e (account_entry a) h = Has-append xs e a h
HasEntry-append xs e (transfer_entry _) h = elim h [ ]

Each-Has : (xs e : List Account) → ((a : Account) → Has xs a → Has e a) → Each (Has e) xs
Each-Has [] e h = tt
Each-Has (x ∷ xs) e h = (h x (inl refl), Each-Has xs e (λ a k. h a (inr k)))

pub creating_laws : LedgerLaws creating
creating_laws = record {
  Holds = HasEntry;
  found = λ id e a h. cc;
  found_transfer = λ id e t h. cc;
  provisioned = λ a e r h p. inl refl;
  kept_accounts = HasEntry-append;
  kept_transfers = λ _ _ _ h. h;
  kept_account_lookup = λ _ _ _ h. h;
  kept_transfer_lookup = λ _ _ _ h. h;
  kept_now = λ _ _ h. h;
  kept_wait = λ _ _ _ h. h;
  others_held = λ e. Each-Has e e (λ a h. h);
}

-- no variable is set
abbrev pub platform : Platform
platform = record {
  getenv = λ _. "";
  parse_duration = λ _. none;
  hex_string_to_uint128 = λ _. some 0;
}

-- the configuration of the defaults
abbrev pub defaults : Config
defaults = record {
  http_address = ":8080";
  tigerbeetle_cluster_id = 0;
  tigerbeetle_addresses = "127.0.0.1:3000" ∷ [];
  ledger_id = 1;
  authorization_timeout = pos (3_600 * second);
  risk_evaluation_delay = pos (200 * millisecond);
  risk_auto_approve_limit_cents = 100_000;
  max_concurrent_requests = pos 4_096;
  ledger_stall_threshold = pos (2 * second);
  account_metadata_cache_size = pos 100_000;
}

abbrev pub host : Host (List Account) String
host = record {
  platform = platform;
  sdk = sdk;
  env = creating;
  web = web;
  prometheus = registry_of_names;
  open_client = λ _ _ e. (none, e);
}
