-- ===== src/Tests/Sample.antt =====
-- A small ledger for the tests: a corporate wallet 10 with a card 11, an authorization 77 of that
-- card, and a clock that advances by a second with each reading.
use ledger_service.Prelude.{
  refl, ℕ, ◌+◌, ◌*◌, ◌==◌, true, str_eq, none, some, List, [], ◌∷◌, ◌≡◌, ◌∙◌, sym, ap, ◌⊎◌, inl,
  inr, if◌then◌else◌, arith, Bool-cases, ◌%◌, ◌^◌,
}
use ledger_service.Prelude.Int.{pos}
use ledger_service.Assoc.{lookup}
use ledger_service.Cache.{new_metadata_cache, load}
use ledger_service.Cache.Invariant.{new_metadata_cache-IsValid}
use ledger_service.Clock.{second, unix_epoch}
use ledger_service.Health.{new_observed_ledger}
use ledger_service.Sdk.{
  Account, zero_account, AccountStatus, AccountResult, Transfer, zero_transfer, TransferStatus, Sdk,
  Env, Reply, done,
}
use ledger_service.Service.Ids.Max.{little_endian}
use ledger_service.Service.Reporting.{new_observed_ledger-IsIdle}
use ledger_service.Service.Rules.{IsMade, LedgerLaws, Entry, account_entry, transfer_entry, IsSound}
use ledger_service.Service.World.{Service, World}

abbrev pub sdk : Sdk
sdk = record {
  hex_string_to_uint128 = λ text.
      if str_eq text "a"
      then some 10
      else if str_eq text "b"
      then some 11
      else if str_eq text "4d"
      then some 77
      else if str_eq text "c"
      then some 12
      else if str_eq text "1"
      then some 1
      else none;
  uint128_string = λ _. "id";
  uint128_bytes = little_endian 16;
  uint128_uint64 = λ n. n % 2 ^ 64;
  transfer_status_string = λ _. "TransferStatus";
  account_status_string = λ _. "AccountStatus";
  credits_must_not_exceed_debits = 4;
  debits_must_not_exceed_credits = 2;
  pending = 2;
  sum256 = λ _. 1 ∷ 2 ∷ 3 ∷ [];
}

abbrev pub wallet : Account
wallet = record zero_account { id = 10; ledger = 7; code = 2001; flags = 2 }

abbrev pub card : Account
card = record zero_account { id = 11; user_data_128 = 10; ledger = 7; code = 2002; flags = 2 }

abbrev pub hold : Transfer
hold = record zero_transfer {
  id = 77;
  debit_account_id = 11;
  credit_account_id = 2;
  amount = 500;
  user_data_128 = 77;
  timeout = 600;
  ledger = 7;
  code = 1101;
  flags = 2;
  timestamp = 5;
}

abbrev lookup_account : ℕ → List Account
lookup_account id = if id == 10 then wallet ∷ [] else if id == 11 then card ∷ [] else []

abbrev lookup_accounts : List ℕ → List Account
lookup_accounts (id ∷ []) = lookup_account id
lookup_accounts _ = []

abbrev lookup_transfers : List ℕ → List Transfer
lookup_transfers (id ∷ []) = if id == 77 then hold ∷ [] else []
lookup_transfers _ = []

-- The state is the time. Transfers are accepted, and new accounts refused. Another request has looked up
-- the card.
abbrev pub env : Env ℕ
env = record {
  create_accounts =
      λ _ e. (done (record { status = AccountStatus.other 99; timestamp = e } ∷ []), e);
  create_transfers =
      λ _ e. (done (record { status = TransferStatus.created; timestamp = e } ∷ []), e);
  lookup_accounts = λ ids e. (done (lookup_accounts ids), e);
  lookup_transfers = λ ids e. (done (lookup_transfers ids), e);
  others = λ _. card ∷ [];
  now = λ e. (e, e + second);
  wait = λ ns e. (none, e + ns);
}

abbrev Holds : ℕ → Entry → Type 0
Holds _ (account_entry a) = (a ≡ wallet) ⊎ (a ≡ card)
Holds _ (transfer_entry t) = t ≡ hold

nil_not_cons : {A : Type 0} (x : A) → ¬ ([] ≡ x ∷ [])
nil_not_cons x h = cc

done_only : {A : Type 0} (x y : List A) → Reply.done x ≡ Reply.done y → x ≡ y
done_only x y h = cc

only : {A : Type 0} (x y : A) → x ∷ [] ≡ y ∷ [] → x ≡ y
only x y h = cc

found_account :
    (id : ℕ) (a : Account) → lookup_account id ≡ a ∷ [] → ((a ≡ wallet) ⊎ (a ≡ card)) × (a.id ≡ id)
found_account id a h = elim (Bool-cases (id == 10)) [
  | inl is_wallet ↦
      let e = only wallet a (rw is_wallet at h) in
      (inl (sym e), sym (ap (λ x. x.id) e) ∙ ground arith)
  | inr other ↦ elim (Bool-cases (id == 11)) [
    | inl is_card ↦
        let e = only card a (rw (other, is_card) at h) in
        (inr (sym e), sym (ap (λ x. x.id) e) ∙ ground arith)
    | inr neither ↦ absurd (nil_not_cons a (rw (other, neither) at h))
  ]
]

found_transfer :
    (id : ℕ) (t : Transfer) → lookup_transfers (id ∷ []) ≡ t ∷ [] → (t ≡ hold) × (t.id ≡ id)
found_transfer id t h = elim (Bool-cases (id == 77)) [
  | inl is_hold ↦
      let e = only hold t (rw is_hold at h) in (sym e, sym (ap (λ x. x.id) e) ∙ ground arith)
  | inr other ↦ absurd (nil_not_cons t (rw other at h))
]

not_provisioned :
    (e : ℕ) (r : AccountResult)
    → done (record { status = AccountStatus.other 99; timestamp = e } ∷ []) ≡ done (r ∷ [])
    → ¬ IsMade r.status
not_provisioned e r h made =
    let same = ap (λ x. x.status) (only _ r (done_only _ (r ∷ []) h)) in
    elim made [ inl created ↦ cc | inr exists ↦ cc ]

pub laws : LedgerLaws env
laws = record {
  Holds = Holds;
  found = λ id e a h. found_account id a (done_only (lookup_account id) (a ∷ []) h);
  found_transfer =
      λ id e t h. found_transfer id t (done_only (lookup_transfers (id ∷ [])) (t ∷ []) h);
  provisioned = λ a e r h p. absurd (not_provisioned e r h p);
  kept_accounts = λ _ _ _ h. h;
  kept_transfers = λ _ _ _ h. h;
  kept_account_lookup = λ _ _ _ h. h;
  kept_transfer_lookup = λ _ _ _ h. h;
  kept_now = λ _ _ h. h;
  kept_wait = λ _ _ _ h. h;
  others_held = λ _. (inr refl, tt);
}

abbrev pub service : Service ℕ
service = record {
  sdk = sdk;
  env = env;
  ledger_id = 7;
  authorization_timeout = pos (600 * second);
  risk_delay = pos 0;
  risk_limit_cents = 10_000;
  has_metrics = true;
}

-- shortly after the start
abbrev pub world : World ℕ
world = record {
  env = unix_epoch + second;
  cache = new_metadata_cache (pos 2);
  observed = new_observed_ledger (pos 0);
  events = [];
}

pub world-IsSound : IsSound service laws world
unfolding new_metadata_cache new_observed_ledger load lookup
world-IsSound = record {
  cache_valid = new_metadata_cache-IsValid (pos 2);
  backed = λ id m h. cc;
  reported = record { metered = λ kind. refl; idle = new_observed_ledger-IsIdle (pos 0) };
}
