-- ===== src/Service/World.antt =====
-- The state that a request of the service reads and changes, and a call as a step on it: the outside
-- world, the metadata cache, the calls in flight, and what the service has sent and reported so far.
use ledger_service.Prelude.{
  ℕ, Bool, true, false, String, List, [], ◌∷◌, none, some, if◌then◌else◌, length,
}
use ledger_service.Prelude.Int.{ℤ}
use ledger_service.Cache.{MetadataCache, store}
use ledger_service.Clock.{time_sub, milliseconds}
use ledger_service.Domain.{OperationKind, Error, Result, ok, err}
use ledger_service.Health.{ObservedLedger, begin, finish}
use ledger_service.Sdk.{Account, Transfer, Sdk, Env}
use ledger_service.Service.Metadata.{metadata_for_account}

-- The constant fields of `Service`, and what it is built on. `has_metrics` is `metrics != nil`.
pub record Service (S : Type 0) : Type 0 where
  pub sdk : Sdk
  pub env : Env S
  pub ledger_id : ℕ
  pub authorization_timeout : ℤ
  pub risk_delay : ℤ
  pub risk_limit_cents : ℕ
  pub has_metrics : Bool

-- The value of an attribute of a log line: a text, or an error.
pub data Attribute : Type 0 where
  text : String → Attribute
  error : Error → Attribute

-- A log line of `observeCompletion`.
pub record Completion : Type 0 where
  pub kind : OperationKind
  pub request_id : String
  pub status : String
  pub ledger_status : String
  pub amount_cents : ℕ
  pub duration_ms : ℤ
  pub attributes : List (String × Attribute)

-- What leaves the process: the calls of the SDK, the metrics and the log.
pub data Event : Type 0 where
  sent_account : Account → Event
  sent_transfer : Transfer → Event
  sent_account_lookup : ℕ → Event
  sent_transfer_lookup : ℕ → Event
  calls_in_flight : ℕ → Event
  ledger_call : String → String → ℤ → Event
  operation : OperationKind → String → ℤ → Event
  logged : Completion → Event

-- `events` has the newest first.
pub record World (S : Type 0) : Type 0 where
  pub env : S
  pub cache : MetadataCache
  pub observed : ObservedLedger
  pub events : List Event

-- A method of the service: the result, and the state that it leaves, also where it fails.
abbrev pub M : Type 0 → Type 0 → Type 0
M S A = World S → Result A × World S

-- the rest of a chain runs on a value, and is skipped on an error
abbrev pub resume : {S A B : Type 0} → (A → M S B) → Result A → World S → Result B × World S
resume f (ok a) w = f a w
resume f (err e) w = (err e, w)

infixl 5 ◌>>=◌ ◌>>◌
unfoldable pub ◌>>=◌ : {S A B : Type 0} → M S A → (A → M S B) → M S B
◌>>=◌ m f w = let (r, w') = m w in resume f r w'

abbrev pub ◌>>◌ : {S B : Type 0} → M S (Unit {0}) → M S B → M S B
m >> k = m >>= λ _. k

module _ {S : Type 0} where
  -- a result that needs no state
  abbrev pub lift : {A : Type 0} → Result A → M S A
  lift r w = (r, w)

  abbrev pub pure : {A : Type 0} → A → M S A
  pure a = lift (ok a)

  abbrev pub raise : {A : Type 0} → Error → M S A
  raise e = lift (err e)

  abbrev pub fail_if : Bool → Error → M S (Unit {0})
  fail_if true e = raise e
  fail_if false _ = pure tt

  -- a call whose error the caller inspects
  abbrev pub attempt : {A : Type 0} → M S A → M S (Result A)
  attempt m w = let (r, w') = m w in (ok r, w')

  module _ (s : Service S) where
    -- the cache behind the `rememberAccount` of another request; a panic would be that request's
    unfoldable pub remember_other : Account → MetadataCache → MetadataCache
    remember_other account cache = elim (metadata_for_account s.sdk s.ledger_id account) [
      | none ↦ cache
      | some metadata ↦ elim (store cache account.id metadata) [
        | none ↦ cache
        | some cache' ↦ cache'
      ]
    ]

    unfoldable pub remember_others : List Account → MetadataCache → MetadataCache
    unfolding remember_other
    remember_others [] cache = cache
    remember_others (account ∷ accounts) cache =
        remember_others accounts (remember_other account cache)

    -- The state once the outside world has come to `e`: the cache is shared with the other requests.
    unfoldable pub resumed : S → World S → World S
    unfolding remember_others
    resumed e w = record w { env = e; cache = remember_others (s.env.others e) w.cache }

    -- `time.Now()`
    unfoldable pub now : M S ℕ
    unfolding resumed
    now w = let (t, e) = s.env.now w.env in (ok t, resumed e w)

    -- the events of a metrics call, if there are metrics
    abbrev pub metric : Event → List Event → List Event
    metric event events = if s.has_metrics then event ∷ events else events

    abbrev outcome : {A : Type 0} → Result A → String × Bool
    outcome (ok _) = ("success", false)
    outcome (err _) = ("error", true)

    -- One method of `observedLedger`: `begin`, the call of the adapter, and the deferred `done`.
    unfoldable pub observed_call : {A : Type 0} → String → Event → (S → Result A × S) → M S A
    unfolding resumed
    observed_call kind event call w =
        let (started, e) = s.env.now w.env in
        let (begun, id) = begin w.observed started in
        let (r, e') = call e in
        let (completed, e'') = s.env.now e' in
        let (result, failed) = outcome r in
        let ended = finish begun id completed failed in
        (
          r,
          record (resumed e'' w) {
            observed = ended;
            events = metric (ledger_call kind result (time_sub completed started)) (
                metric (calls_in_flight (length ended.active))
                  (event ∷ metric (calls_in_flight (length begun.active)) w.events));
          },
        )

    -- `observeCompletion`
    unfoldable pub observe_completion :
        OperationKind
        → String
        → String
        → ℕ
        → ℕ
        → String
        → List (String × Attribute)
        → M S (Unit {0})
    unfolding resumed
    observe_completion kind request_id status amount_cents started ledger_status attributes w =
        let (t, e) = s.env.now w.env in
        let elapsed = time_sub t started in
        let line : Completion = record {
          kind = kind;
          request_id = request_id;
          status = status;
          ledger_status = ledger_status;
          amount_cents = amount_cents;
          duration_ms = milliseconds elapsed;
          attributes = attributes;
        } in
        (
          ok tt,
          record (resumed e w) {
            events = logged line ∷ metric (operation kind status elapsed) w.events;
          },
        )
