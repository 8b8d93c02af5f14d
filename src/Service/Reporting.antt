-- ===== src/Service/Reporting.antt =====
-- What the service reports of its calls of the SDK, through `observedLedger` in internal/service/health.go.
use ledger_service.Prelude.{
  ℕ, ◌+◌, ◌%◌, ◌^◌, ◌∙◌, ◌≡◌, ◌==◌, ==_iff, refl, Bool, true, false, str_eq, String, List, [], ◌∷◌,
  if◌then◌else◌, arith, ap, length,
}
use ledger_service.Prelude.Int.{ℤ, pos, ltb_ℤ}
use ledger_service.Assoc.{insert, erase}
use ledger_service.Domain.{OperationKind, Result}
use ledger_service.Health.{
  ObservedLedger, new_observed_ledger, health, begin, finish, find_oldest, scan,
}
use ledger_service.Service.World.{
  Service, World, Event, sent_account, sent_transfer, sent_account_lookup, sent_transfer_lookup,
  calls_in_flight, ledger_call, operation, logged, Attribute, observed_call, observe_completion,
}

abbrev one_of : String → String → ℕ
one_of kind k = if str_eq kind k then 1 else 0

-- the calls of the SDK of a kind
abbrev pub calls_sent : String → List Event → ℕ
calls_sent kind [] = 0
calls_sent kind (sent_account _ ∷ es) = one_of kind "create_account" + calls_sent kind es
calls_sent kind (sent_transfer _ ∷ es) = one_of kind "create_transfer" + calls_sent kind es
calls_sent kind (sent_account_lookup _ ∷ es) = one_of kind "lookup_account" + calls_sent kind es
calls_sent kind (sent_transfer_lookup _ ∷ es) = one_of kind "lookup_transfer" + calls_sent kind es
calls_sent kind (calls_in_flight _ ∷ es) = calls_sent kind es
calls_sent kind (ledger_call _ _ _ ∷ es) = calls_sent kind es
calls_sent kind (operation _ _ _ ∷ es) = calls_sent kind es
calls_sent kind (logged _ ∷ es) = calls_sent kind es

-- those that `ObserveLedgerCall` has counted
abbrev pub calls_counted : String → List Event → ℕ
calls_counted kind [] = 0
calls_counted kind (sent_account _ ∷ es) = calls_counted kind es
calls_counted kind (sent_transfer _ ∷ es) = calls_counted kind es
calls_counted kind (sent_account_lookup _ ∷ es) = calls_counted kind es
calls_counted kind (sent_transfer_lookup _ ∷ es) = calls_counted kind es
calls_counted kind (calls_in_flight _ ∷ es) = calls_counted kind es
calls_counted kind (ledger_call k _ _ ∷ es) = one_of kind k + calls_counted kind es
calls_counted kind (operation _ _ _ ∷ es) = calls_counted kind es
calls_counted kind (logged _ ∷ es) = calls_counted kind es

-- no call is in flight, and the threshold of a stall is positive
pub record IsIdle (l : ObservedLedger) : Type 0 where
  pub patient : ltb_ℤ (pos 0) l.stall_threshold ≡ true
  pub none_active : l.active ≡ []
  pub none_oldest : l.oldest_started ≡ 0

pub new_observed_ledger-IsIdle : (threshold : ℤ) → IsIdle (new_observed_ledger threshold)
unfolding new_observed_ledger
new_observed_ledger-IsIdle threshold = record {
  patient = ground arith;
  none_active = refl;
  none_oldest = refl;
}

-- between the calls of a process `Health` is ready, with no call in flight
pub health_idle :
    (l : ObservedLedger) (t : ℕ)
    → IsIdle l
    → ((health l t).ready ≡ true) × ((health l t).in_flight ≡ 0)
unfolding health
health_idle l t idle = (rw idle.none_oldest idle.patient, ap length idle.none_active)

-- With metrics every call of the SDK is counted once under its kind, and without none is.
abbrev pub IsMetered : Bool → List Event → Type 0
IsMetered has_metrics events =
    (kind : String)
    → calls_counted kind events ≡ (if has_metrics then calls_sent kind events else 0)

-- what a call of the SDK sends: one event of its kind
abbrev pub Announces : String → Event → Type 0
Announces name event =
    (kind : String) (es : List Event)
    → (calls_sent kind (event ∷ es) ≡ one_of kind name + calls_sent kind es)
      × (calls_counted kind (event ∷ es) ≡ calls_counted kind es)

abbrev noted : ObservedLedger → ℕ → ℕ → ObservedLedger
noted l id started = record {
  stall_threshold = l.stall_threshold;
  next_id = id;
  active = (id, started) ∷ [];
  oldest_id = id;
  oldest_started = started;
  last_success = l.last_success;
}

begin_idle :
    (l : ObservedLedger) (started : ℕ)
    → IsIdle l
    → let id = (l.next_id + 1) % 2 ^ 64 in begin l started ≡ (noted l id started, id)
unfolding begin insert
begin_idle l started idle = ground (arith, idle.none_active, idle.none_oldest)

finish-noted-IsIdle :
    (l : ObservedLedger) (id started completed : ℕ) (failed : Bool)
    → ltb_ℤ (pos 0) l.stall_threshold ≡ true
    → IsIdle (finish (noted l id started) id completed failed)
unfolding finish find_oldest scan erase
finish-noted-IsIdle l id started completed failed patient =
    let same : (id == id) ≡ true = (==_iff id id).1 refl in
    record {
      patient = rw (same, finish) patient;
      none_active = rw same refl;
      none_oldest = rw same refl;
    }

-- a call that `begin` has noted, and behind it the function that `begin` returns
finish-begin-IsIdle :
    (l : ObservedLedger) (started completed : ℕ) (failed : Bool)
    → IsIdle l
    → IsIdle (finish (begin l started).0 (begin l started).1 completed failed)
finish-begin-IsIdle l started completed failed idle =
    rw (begin_idle l started idle)
      (finish-noted-IsIdle l ((l.next_id + 1) % 2 ^ 64) started completed failed idle.patient)

operation-IsMetered :
    (on : Bool) (kind : OperationKind) (status : String) (elapsed : ℤ) (es : List Event)
    → IsMetered on es
    → IsMetered on (if on then operation kind status elapsed ∷ es else es)
operation-IsMetered true kind status elapsed es h = h
operation-IsMetered false kind status elapsed es h = h

call-IsMetered :
    (on : Bool) (name outcome : String) (elapsed : ℤ) (m n : ℕ) (event : Event) (es : List Event)
    → Announces name event
    → IsMetered on es
    → IsMetered on (
        let before = if on then calls_in_flight m ∷ es else es in
        let after = if on then calls_in_flight n ∷ event ∷ before else event ∷ before in
        if on then ledger_call name outcome elapsed ∷ after else after)
call-IsMetered true name outcome elapsed m n event es announces h kind =
    let (sent, counted) = announces kind (calls_in_flight m ∷ es) in
    omega (arith, h kind, sent, counted)
call-IsMetered false name outcome elapsed m n event es announces h kind =
    (announces kind es).1 ∙ h kind

module _ {S : Type 0} (s : Service S) where
  -- what the requests so far leave reported
  pub record IsReported (w : World S) : Type 0 where
    pub metered : IsMetered s.has_metrics w.events
    pub idle : IsIdle w.observed

  module _ (w : World S) (r : IsReported w) where
    pub observed_call-IsReported :
        {A : Type 0} (name : String) (event : Event) (call : S → Result A × S)
        → Announces name event
        → IsReported (observed_call s name event call w).1
    unfolding observed_call
    observed_call-IsReported name event call announces = record {
      metered = call-IsMetered s.has_metrics name _ _ _ _ event w.events announces r.metered;
      idle = finish-begin-IsIdle w.observed _ _ _ r.idle;
    }

    pub observe_completion-IsReported :
        (kind : OperationKind) (request_id status : String) (amount started : ℕ)
        (ledger_status : String) (attributes : List (String × Attribute))
        → IsReported
            (observe_completion s kind request_id status amount started ledger_status attributes
              w).1
    unfolding observe_completion
    observe_completion-IsReported kind request_id status amount started ledger_status attributes =
        record {
          metered = operation-IsMetered s.has_metrics kind status _ w.events r.metered;
          idle = r.idle;
        }
