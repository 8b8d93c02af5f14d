-- ===== src/Service/Rules/Ledger.antt =====
-- What the calls of the ledger, the clock and the report of a request ensure, and what they send.
use ledger_service.Prelude.{ℕ, ◌≡◌, refl, inl, inr, Option, some, List, [], ◌∷◌, Bool-cases, String}
use ledger_service.Client.Laws.{one_result_iff, at_most_one-some_iff}
use ledger_service.Client.{create_account, create_transfer, lookup_account, lookup_transfer}
use ledger_service.Domain.{OperationKind, Result, ok}
use ledger_service.Sdk.{Account, AccountResult, Transfer, done}
use ledger_service.Service.Calls.{
  ledger_create_account, ledger_create_transfer, ledger_lookup_account, ledger_lookup_transfer,
}
use ledger_service.Service.Reporting.{
  Announces, observed_call-IsReported, observe_completion-IsReported,
}
use ledger_service.Service.Rules.{
  LedgerLaws, IsMade, account_entry, transfer_entry, Later, IsSound, Wp, submissions, Quiet,
}
use ledger_service.Service.World.{
  Service, World, now, observed_call, observe_completion, Event, sent_account, sent_transfer,
  Attribute, sent_account_lookup, sent_transfer_lookup, calls_in_flight,
}
use ledger_service.Service.Rules.Backing.{IsSound-Later}

submissions_below :
    (event : Event) (n : ℕ) (events : List Event)
    → submissions (event ∷ calls_in_flight n ∷ events) ≡ submissions (event ∷ events)
submissions_below (sent_transfer t) n events = refl
submissions_below _ n events = refl

module _ {S : Type 0} (s : Service S) (laws : LedgerLaws s.env) where
  -- a transfer that is found the ledger has, under the ID
  abbrev pub Found : ℕ → Result (Option Transfer) → S → Type 0
  Found id r e = (t : Transfer) → r ≡ ok (some t) → laws.Holds e (transfer_entry t) × (t.id ≡ id)

  -- an account that is found is the one in the ledger's reply to a lookup of the ID
  abbrev pub LookedUp : ℕ → Result (Option Account) → S → Type 0
  LookedUp id r e =
      (a : Account)
      → r ≡ ok (some a)
      → (asked : S) × ((s.env.lookup_accounts (id ∷ []) asked).0 ≡ done (a ∷ []))
        × Later s laws (s.env.lookup_accounts (id ∷ []) asked).1 e

  -- the result of a creation is the one in the ledger's reply to the request for it
  abbrev pub Replied : Account → AccountResult → S → Type 0
  Replied a q e =
      (asked : S) × ((s.env.create_accounts (a ∷ []) asked).0 ≡ done (q ∷ []))
      × Later s laws (s.env.create_accounts (a ∷ []) asked).1 e

  -- the ledger has an account that its reply reports as created or existing
  pub held_if_made :
      (a : Account) (q : AccountResult) (e : S)
      → Replied a q e
      → IsMade q.status
      → laws.Holds e (account_entry a)
  held_if_made a q e (asked, replied, later) made =
      later (account_entry a) (laws.provisioned a asked q replied made)

  module _ (w : World S) (sound : IsSound s laws w) where
    -- the clock
    pub Wp-now : Wp s laws (now s) w (Quiet w (λ _ _. Unit {0}))
    unfolding now
    Wp-now =
        let later = laws.kept_now w.env in
        (
          IsSound-Later s laws sound later refl
              (record { metered = sound.reported.metered; idle = sound.reported.idle }),
          later,
          (refl, tt),
        )

    -- the reading of the clock
    pub Wp-now_read : Wp s laws (now s) w (Quiet w (λ r _. r ≡ ok (s.env.now w.env).0))
    unfolding now
    Wp-now_read = let (sound', later, (same, _)) = Wp-now in (sound', later, (same, refl))

    pub Wp-observe_completion :
        (kind : OperationKind) (request_id status : String) (amount started : ℕ)
        (ledger_status : String) (attributes : List (String × Attribute))
        → Wp s laws
            (observe_completion s kind request_id status amount started ledger_status attributes)
            w
            (Quiet w (λ r _. r ≡ ok tt))
    unfolding observe_completion
    Wp-observe_completion kind request_id status amount started ledger_status attributes =
        let later = laws.kept_now w.env in
        (
          IsSound-Later s laws sound later refl (
              observe_completion-IsReported s w sound.reported kind request_id status amount started
                ledger_status attributes),
          later,
          (elim (Bool-cases s.has_metrics) [ inl on ↦ rw on refl | inr off ↦ rw off refl ], refl),
        )

    -- An observed call sends its event, and leaves what the call itself leaves: `Q` of its result and
    -- of any later state.
    module _ {A : Type 0} (kind : String) (event : Event) (call : S → Result A × S) where
      submissions-observed_call :
          submissions (observed_call s kind event call w).1.events ≡ submissions (event ∷ w.events)
      unfolding observed_call
      submissions-observed_call = elim (Bool-cases s.has_metrics) [
        | inl on ↦ rw on (submissions_below event _ w.events)
        | inr off ↦ rw off refl
      ]

      Wp-observed_call :
          (Q : Result A → S → Type 0)
          → Announces kind event
          → ((e : S) → Later s laws e (call e).1)
          → ((e : S) → Q (call e).0 (call e).1)
          → ((r : Result A) (e e' : S) → Later s laws e e' → Q r e → Q r e')
          → Wp s laws
              (observed_call s kind event call)
              w
              (λ r w'. (submissions w'.events ≡ submissions (event ∷ w.events)) × Q r w'.env)
      unfolding observed_call
      Wp-observed_call Q announces keeps holds stable =
          let e = (s.env.now w.env).1 in
          let e' = (call e).1 in
          let last = laws.kept_now e' in
          let later : Later s laws w.env (s.env.now e').1 =
            λ a h. last a (keeps e a (laws.kept_now w.env a h)) in
          (
            IsSound-Later s laws sound later refl
                (observed_call-IsReported s w sound.reported kind event call announces),
            later,
            (submissions-observed_call, stable (call e).0 e' (s.env.now e').1 last (holds e)),
          )

    -- The lookup of an account finds one that the ledger has, under the ID that was asked for.
    pub Wp-ledger_lookup_account :
        (id : ℕ)
        → Wp s laws (ledger_lookup_account s id) w (
            Quiet w (λ r e.
              (a : Account) → r ≡ ok (some a) → laws.Holds e (account_entry a) × (a.id ≡ id)))
    unfolding ledger_lookup_account lookup_account
    Wp-ledger_lookup_account id =
        Wp-observed_call "lookup_account" (sent_account_lookup id) (lookup_account s.env id)
          (λ r e. (a : Account) → r ≡ ok (some a) → laws.Holds e (account_entry a) × (a.id ≡ id))
          (λ _ _. (refl, refl)) (λ e. laws.kept_account_lookup (id ∷ []) e)
          (λ e a h. laws.found id e a ((at_most_one-some_iff "lookup account" _ a).0 h))
          (λ r e e' later q a h. (later (account_entry a) (q a h).0, (q a h).1))

    pub Wp-ledger_lookup_account_reply :
        (id : ℕ) → Wp s laws (ledger_lookup_account s id) w (Quiet w (LookedUp id))
    unfolding ledger_lookup_account lookup_account
    Wp-ledger_lookup_account_reply id =
        Wp-observed_call "lookup_account" (sent_account_lookup id) (lookup_account s.env id)
          (LookedUp id) (λ _ _. (refl, refl)) (λ e. laws.kept_account_lookup (id ∷ []) e)
          (λ e a h. (e, (at_most_one-some_iff "lookup account" _ a).0 h, λ _ x. x))
          (λ r e e' later q a h.
            let (asked, replied, before) = q a h in
            (asked, replied, λ x held. later x (before x held)))

    -- The lookup of a transfer finds one that the ledger has, under the ID that was asked for.
    pub Wp-ledger_lookup_transfer :
        (id : ℕ) → Wp s laws (ledger_lookup_transfer s id) w (Quiet w (Found id))
    unfolding ledger_lookup_transfer lookup_transfer
    Wp-ledger_lookup_transfer id =
        Wp-observed_call "lookup_transfer" (sent_transfer_lookup id) (lookup_transfer s.env id)
          (Found id) (λ _ _. (refl, refl)) (λ e. laws.kept_transfer_lookup (id ∷ []) e)
          (λ e t h. laws.found_transfer id e t ((at_most_one-some_iff "lookup transfer" _ t).0 h))
          (λ r e e' later q t h. (later (transfer_entry t) (q t h).0, (q t h).1))

    -- The result of the creation of an account is the ledger's.
    pub Wp-ledger_create_account :
        (a : Account)
        → Wp s laws
            (ledger_create_account s a)
            w
            (Quiet w (λ r e. (q : AccountResult) → r ≡ ok q → Replied a q e))
    unfolding ledger_create_account create_account
    Wp-ledger_create_account a =
        Wp-observed_call "create_account" (sent_account a) (create_account s.env a)
          (λ r e. (q : AccountResult) → r ≡ ok q → Replied a q e) (λ _ _. (refl, refl))
          (λ e. laws.kept_accounts (a ∷ []) e)
          (λ e q h. (e, (one_result_iff "create account" _ q).0 h, λ _ x. x))
          (λ r e e' later holds q h.
            let (asked, replied, before) = holds q h in
            (asked, replied, λ x held. later x (before x held)))

    -- The creation of a transfer sends it, once.
    pub Wp-ledger_create_transfer :
        (t : Transfer)
        → Wp s laws
            (ledger_create_transfer s t)
            w
            (λ r w'. (submissions w'.events ≡ t ∷ submissions w.events) × Unit {0})
    unfolding ledger_create_transfer create_transfer
    Wp-ledger_create_transfer t =
        Wp-observed_call "create_transfer" (sent_transfer t) (create_transfer s.env t)
          (λ _ _. Unit {0}) (λ _ _. (refl, refl)) (λ e. laws.kept_transfers (t ∷ []) e) (λ _. tt)
          (λ _ _ _ _ _. tt)
