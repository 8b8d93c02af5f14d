-- ===== src/Service/Accounts/Answers.antt =====
-- What `EnsureSystemAccounts`, `CreateAccount` and `Balance` leave and answer
-- (internal/service/service.go).
use ledger_service.Prelude.{
  ℕ, Bool, true, false, ◌≡◌, ◌≢◌, [], ◌∷◌, refl, sym, ap, ◌⊎◌, inl, inr, not, ◌&&◌, String, str_eq,
  Option, none, some, arith, Option-cases, if◌then◌else◌,
}
use ledger_service.Cache.{AccountMetadata}
use ledger_service.Domain.Laws.{eq_of_kind_eq}
use ledger_service.Recipe.Laws.{account-IsAccount}
use ledger_service.Service.Metadata.Balances.{balances_lem}
use ledger_service.Service.Accounts.Replies.{
  public_id-IsPublicText, IsBalance, IsBalance-err, IsBalance-ok, ParentNamed, IsCreated, IsOutcome,
  IsCreation, IsCreation-err, IsCreation-ok, ParentNamed-Later, IsCreated-Later,
}
use ledger_service.Domain.{
  AccountKind, kind_eq, card_wallet, corporate_wallet, CreateAccountRequest, AccountResponse, Error,
  Result, ok, err, invalid_request, account_not_found, idempotency_conflict, rejected,
}
use ledger_service.Sdk.{Account, AccountResult, AccountStatus, Transfer, done}
use ledger_service.Service.Accounts.{
  account_parsed, parent_id, answer_creation, create_account, balance_response, balance_found,
  balance,
}
use ledger_service.Service.Calls.{remember_account}
use ledger_service.Service.Ids.{public_id, parse_public_id}
use ledger_service.Service.Metadata.Laws.{metadata_for_account_iff}
use ledger_service.Service.Metadata.{metadata_for_account}
use ledger_service.Service.Rules.Calls.{Admitted, Wp-remember_account, Wp-require_account_kind}
use ledger_service.Service.Rules.Ledger.{
  LookedUp, Replied, held_if_made, Wp-ledger_create_account, Wp-ledger_lookup_account_reply,
}
use ledger_service.Service.Rules.Steps.{
  Sends, Sends-lift, Sends-fail_if, Sends-bind, Sends-answer, Sends-if,
}
use ledger_service.Service.Rules.{LedgerLaws, IsMade, account_entry, IsSound, Later, Wp, Quiet}
use ledger_service.Service.Status.{is_account_idempotency_conflict}
use ledger_service.Service.World.{Service, World, M, ◌>>◌, pure, raise}

-- no transfer is sent
abbrev pub Never : {S : Type 0} → S → Transfer → Type 0
Never _ _ = ⊥

module _ {S : Type 0} (s : Service S) (laws : LedgerLaws s.env) where
  -- a call that may send no transfer sends none
  Quiet-of_Sends :
      {A : Type 0} (N : Result A → S → Type 0) (m : M S A) (w : World S)
      → Sends s laws N Never m w
      → Wp s laws m w (Quiet w N)
  Quiet-of_Sends N m w sends =
      let (sound, later, sent) = sends.run in
      (sound, later, elim sent [ inl quiet ↦ quiet | inr (t, never, _) ↦ absurd never ])

  Quiet-err : (id_value : String) → (e : Error) (env : S) → IsBalance s laws id_value (err e) env
  Quiet-err id_value e env = IsBalance-err s laws id_value e env

  module _ (id_value : String) (id : ℕ) (named : parse_public_id s.sdk id_value ≡ some id) where
    balance_response-IsBalance :
        (a : Account) (m : AccountMetadata) (e e' : S)
        → metadata_for_account s.sdk s.ledger_id a ≡ some m
        → (asked : S) × ((s.env.lookup_accounts (id ∷ []) asked).0 ≡ done (a ∷ []))
          × Later s laws (s.env.lookup_accounts (id ∷ []) asked).1 e
        → Later s laws e e'
        → IsBalance s laws id_value (ok (balance_response s a m)) e'
    unfolding balance_response
    balance_response-IsBalance a m e e' reads (asked, replied, kept) later =
        let (held, same) = laws.found id asked a replied in
        let last : Later s laws (s.env.lookup_accounts (id ∷ []) asked).1 e' =
          λ x h. later x (kept x h) in
        IsBalance-ok s laws id_value (balance_response s a m) e' (record {
          id = id;
          found = a;
          metadata = m;
          asked = asked;
          id_named = named;
          replied = replied;
          kept = last;
          held = (last (account_entry a) held, same);
          follows = (metadata_for_account_iff s.sdk s.ledger_id a m).0 reads;
          answered_id = ap s.sdk.uint128_string same;
          answered_kind = refl;
          answered_parent = public_id-IsPublicText s.sdk a.user_data_128;
          answered_debits = (refl, refl);
          answered_credits = (refl, refl);
          answered_balances = balances_lem a m.kind;
          answered_at = refl;
        })

    Sends-balance_found :
        (found : Option Account) (w : World S)
        → IsSound s laws w
        → LookedUp s laws id (ok found) w.env
        → Sends s laws (IsBalance s laws id_value) Never (balance_found s found) w
    unfolding balance_found
    Sends-balance_found none w sound looked =
        Sends-answer s laws (IsBalance s laws id_value) Never w (err account_not_found) sound
          (Quiet-err id_value account_not_found w.env)
    Sends-balance_found (some a) w sound looked =
        elim (Option-cases (metadata_for_account s.sdk s.ledger_id a)) [
          | inl unknown ↦
              rw (unknown, balance_found)
                (Sends-answer s laws (IsBalance s laws id_value) Never w (err account_not_found)
                  sound (Quiet-err id_value account_not_found w.env))
          | inr (m, reads) ↦
              let (asked, replied, kept) = looked a refl in
              let held = kept (account_entry a) (laws.found id asked a replied).0 in
              rw (reads, balance_found)
                (Sends-bind s laws (IsBalance s laws id_value) Never (Quiet-err id_value) w sound
                  (remember_account s a) (λ _. pure (balance_response s a m)) (λ r _. r ≡ ok tt)
                  (Wp-remember_account s laws w sound a held)
                  (λ _ w' sound' later _.
                    Sends-answer s laws (IsBalance s laws id_value) Never w'
                      (ok (balance_response s a m)) sound'
                      (balance_response-IsBalance a m w.env w'.env reads (asked, replied, kept)
                        later)))
        ]

  account_parsed_lem : (o : Option ℕ) (id : ℕ) → account_parsed s o ≡ ok id → o ≡ some id
  account_parsed_lem none id h = cc
  account_parsed_lem (some n) id h = let e : n ≡ id = cc in ap some e

  -- From a sound state `Balance` leaves a sound state and sends no transfer; where it succeeds, it
  -- answers the balance of the account that the ledger has replied to a lookup of the ID asked for,
  -- which follows the accounting table: its kind, parent and amounts, its posted balance, and the available
  -- balance, which is less by what is pending.
  pub balance-Sends :
      (id_value : String) (w : World S)
      → IsSound s laws w
      → Sends s laws (IsBalance s laws id_value) Never (balance s id_value) w
  unfolding balance
  balance-Sends id_value w sound =
      Sends-lift s laws (IsBalance s laws id_value) Never (Quiet-err id_value) w sound _ _
        (λ _ valid.
          Sends-lift s laws (IsBalance s laws id_value) Never (Quiet-err id_value) w sound _ _
            (λ id known.
              Sends-bind s laws (IsBalance s laws id_value) Never (Quiet-err id_value) w sound _ _
                (LookedUp s laws id) (Wp-ledger_lookup_account_reply s laws w sound id)
                (λ found w' sound' later looked.
                  Sends-balance_found id_value id (account_parsed_lem _ id known) found w' sound'
                    looked)))

  module _ (request : CreateAccountRequest) where
    created-err : (e : Error) (env : S) → IsCreation s laws request (err e) env
    created-err e env = IsCreation-err s laws request e env

    module _ (a : Account) (q : AccountResult) (id parent : ℕ) (r : AccountResponse) (w : World S)
        (sound : IsSound s laws w) where
      -- the account is remembered, and then answered
      Sends-remembered :
          (text : String) (http_status : ℕ)
          → IsCreated s laws request a q id parent w.env (record r { status = text })
          → IsOutcome s laws q.status text http_status
          → Sends s laws
              (IsCreation s laws request)
              Never
              (remember_account s a >> pure (record r { status = text }, http_status))
              w
      Sends-remembered text http_status created outcome =
          Sends-bind s laws (IsCreation s laws request) Never created-err w sound
            (remember_account s a) (λ _. pure (record r { status = text }, http_status))
            (λ r _. r ≡ ok tt) (Wp-remember_account s laws w sound a created.held)
            (λ _ w' sound' later _.
              Sends-answer s laws (IsCreation s laws request) Never w'
                (ok (record r { status = text }, http_status)) sound'
                (IsCreation-ok s laws request a q id parent w'.env (record r { status = text })
                  http_status (IsCreated-Later s laws later created) outcome))

      Sends-refused :
          (conflict : Bool) (e e' : Error)
          → Sends s laws
              (IsCreation s laws request)
              Never
              (if conflict then raise e else raise e')
              w
      Sends-refused true e e' =
          Sends-answer s laws (IsCreation s laws request) Never w (err e) sound
            (created-err e w.env)
      Sends-refused false e e' =
          Sends-answer s laws (IsCreation s laws request) Never w (err e') sound
            (created-err e' w.env)

      Sends-answer_status :
          (status : AccountStatus)
          → status ≡ q.status
          → (IsMade q.status
              → (text : String)
              → IsCreated s laws request a q id parent w.env (record r { status = text }))
          → Sends s laws
              (IsCreation s laws request)
              Never
              (answer_creation s a r (record q { status = status }))
              w
      unfolding answer_creation
      Sends-answer_status AccountStatus.created e made =
          Sends-remembered "created" 201 (made (inl (sym e)) "created") (inl (sym e, refl, refl))
      Sends-answer_status AccountStatus.exists e made =
          Sends-remembered "exists" 200 (made (inr (sym e)) "exists") (inr (sym e, refl, refl))
      Sends-answer_status status e made =
          Sends-refused (is_account_idempotency_conflict status) idempotency_conflict
            (rejected (s.sdk.account_status_string status))

  wallet_of_guard :
      (kind : AccountKind)
      → (not (kind_eq kind corporate_wallet) && not (kind_eq kind card_wallet)) ≡ false
      → (kind ≡ corporate_wallet) ⊎ (kind ≡ card_wallet)
  wallet_of_guard corporate_wallet h = inl refl
  wallet_of_guard card_wallet h = inr refl
  wallet_of_guard _ h = absurd (ground arith)

  other_than_card : (kind : AccountKind) → kind_eq kind card_wallet ≡ false → kind ≢ card_wallet
  other_than_card kind other same = let h = (rw same at other) in cc

  -- the parent that `CreateAccount` goes on with
  abbrev Parent : CreateAccountRequest → Result ℕ → S → Type 0
  Parent request r e = (parent : ℕ) → r ≡ ok parent → ParentNamed s laws request parent e

  Wp-parent_id :
      (id : ℕ) (request : CreateAccountRequest) (w : World S)
      → IsSound s laws w
      → Wp s laws (parent_id s id request) w (Quiet w (Parent request))
  unfolding parent_id
  Wp-parent_id id request w sound = Quiet-of_Sends (Parent request) (parent_id s id request) w (
      Sends-if s laws (Parent request) Never w (kind_eq request.kind card_wallet) _ _
        (λ _.
          Sends-lift s laws (Parent request) Never (λ e env parent h. cc) w sound _ _
            (λ corporate named.
              Sends-fail_if s laws (Parent request) Never (λ e env parent h. cc) w sound _ _ _
                (λ other.
                  Sends-bind s laws (Parent request) Never (λ e env parent h. cc) w sound _ _
                    (Admitted s laws corporate corporate_wallet)
                    (Wp-require_account_kind s laws w sound corporate corporate_wallet)
                    (λ wallet w' sound' later admitted.
                      let (backed, same) = admitted wallet refl in
                      Sends-answer s laws (Parent request) Never w' (ok corporate) sound'
                        (λ parent h card.
                          let e : corporate ≡ parent = cc in
                          rw (← e) (
                            named,
                            (wallet, backed, eq_of_kind_eq wallet.kind corporate_wallet same),
                          ))))))
        (λ other.
          Sends-if s laws (Parent request) Never w (not (str_eq request.corporate_account_id ""))
            (raise (invalid_request "corporate_account_id is only valid for card_wallet")) (pure 0)
            (λ _. Sends-answer s laws (Parent request) Never w _ sound (λ parent h. cc))
            (λ _.
              Sends-answer s laws (Parent request) Never w (ok 0) sound
                (λ parent h card. absurd (other_than_card request.kind other card)))))

  -- From a sound state `CreateAccount` leaves a sound state and sends no transfer; where it succeeds,
  -- the ledger has the account that the request names, a wallet of the kind asked for that follows the accounting
  -- table, a card under the corporate wallet that the request names; and the answer is for that account, with 201
  -- where the ledger replied that it was created, and 200 where that it exists.
  pub create_account-Sends :
      (request : CreateAccountRequest) (w : World S)
      → IsSound s laws w
      → Sends s laws (IsCreation s laws request) Never (create_account s request) w
  unfolding create_account
  create_account-Sends request w sound =
      let N = IsCreation s laws request in
      let failed = created-err request in
      Sends-lift s laws N Never failed w sound _ _ (λ id named.
        Sends-fail_if s laws N Never failed w sound _ _ _ (λ wallet.
          Sends-bind s laws N Never failed w sound _ _ (Parent request)
            (Wp-parent_id id request w sound)
            (λ corporate w' sound' later parent_named.
              Sends-lift s laws N Never failed w' sound' _ _ (λ a made.
                let built = account-IsAccount s.sdk request.kind id corporate s.ledger_id made in
                Sends-bind s laws N Never failed w' sound' _ _
                  (λ r e. (q : AccountResult) → r ≡ ok q → Replied s laws a q e)
                  (Wp-ledger_create_account s laws w' sound' a)
                  (λ q w'' sound'' later' replied.
                    Sends-answer_status request a q id corporate
                      (record {
                        account_id = s.sdk.uint128_string a.id;
                        kind = request.kind;
                        corporate_account_id = public_id s.sdk corporate;
                        status = "";
                        timestamp = q.timestamp;
                      })
                      w'' sound'' q.status refl
                      (λ good text. record {
                        id_named = named;
                        wallet = wallet_of_guard request.kind wallet;
                        parent_named =
                            ParentNamed-Later s laws request corporate later'
                              (parent_named corporate refl);
                        built = built;
                        replied = replied q refl;
                        held = held_if_made s laws a q w''.env (replied q refl) good;
                        answered_id = ap s.sdk.uint128_string built.id_kept.0;
                        answered_kind = refl;
                        answered_parent = public_id-IsPublicText s.sdk corporate;
                        answered_at = refl;
                      }))))))
