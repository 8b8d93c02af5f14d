-- ===== src/Http/Metrics.antt =====
-- internal/observability/metrics.go: what the service reports to the Prometheus client, and the writer
-- that notes the status of a response.
use ledger_service.Prelude.{ℕ, Bool, true, false, not, String, List, [], ◌∷◌, ◌++◌, if◌then◌else◌}
use ledger_service.Prelude.Int.{ℤ}
use ledger_service.Domain.{OperationKind}
use ledger_service.Http.Writer.{Call, set_header, write_header, write}
use ledger_service.Service.World.{
  Event, sent_account, sent_transfer, sent_account_lookup, sent_transfer_lookup, calls_in_flight,
  ledger_call, operation, logged,
}

-- A call on one of the collectors, with its labels; the label of a status is its number, in decimal.
pub data Sample : Type 0 where
  ledger_operations_total : OperationKind → String → Sample
  ledger_operation_duration_seconds : OperationKind → ℤ → Sample
  ledger_http_requests_total : String → String → ℕ → Sample
  ledger_admission_in_flight_inc ledger_admission_in_flight_dec : Sample
  ledger_admission_rejected_total : String → Sample
  ledger_dependency_calls_total : String → String → Sample
  ledger_dependency_call_duration_seconds : String → ℤ → Sample
  ledger_dependency_calls_in_flight : ℕ → Sample

-- The samples so far, the newest first.
abbrev pub Samples : Type 0
Samples = List Sample

-- `BeginAdmission` and `EndAdmission`
abbrev pub begin_admission : Samples → Samples
begin_admission samples = ledger_admission_in_flight_inc ∷ samples

abbrev pub end_admission : Samples → Samples
end_admission samples = ledger_admission_in_flight_dec ∷ samples

-- `ObserveAdmissionRejection`
abbrev pub observe_admission_rejection : String → Samples → Samples
observe_admission_rejection reason samples = ledger_admission_rejected_total reason ∷ samples

-- `ObserveLedgerCall`
abbrev pub observe_ledger_call : String → String → ℤ → Samples → Samples
observe_ledger_call kind outcome elapsed samples =
    ledger_dependency_call_duration_seconds kind elapsed
    ∷ ledger_dependency_calls_total kind outcome
    ∷ samples

-- `SetLedgerCallsInFlight`
abbrev pub set_ledger_calls_in_flight : ℕ → Samples → Samples
set_ledger_calls_in_flight in_flight samples = ledger_dependency_calls_in_flight in_flight ∷ samples

-- `ObserveOperation`
abbrev pub observe_operation : OperationKind → String → ℤ → Samples → Samples
observe_operation kind outcome elapsed samples =
    ledger_operation_duration_seconds kind elapsed ∷ ledger_operations_total kind outcome ∷ samples

-- the samples of the service's events, which are the newest first
unfoldable pub samples : List Event → Samples
samples [] = []
samples (sent_account _ ∷ events) = samples events
samples (sent_transfer _ ∷ events) = samples events
samples (sent_account_lookup _ ∷ events) = samples events
samples (sent_transfer_lookup _ ∷ events) = samples events
samples (calls_in_flight n ∷ events) = set_ledger_calls_in_flight n (samples events)
samples (ledger_call kind outcome elapsed ∷ events) =
    observe_ledger_call kind outcome elapsed (samples events)
samples (operation kind outcome elapsed ∷ events) =
    observe_operation kind outcome elapsed (samples events)
samples (logged _ ∷ events) = samples events

-- `statusWriter`, but for the writer inside
pub record StatusWriter : Type 0 where
  pub status : ℕ
  pub wrote_header : Bool

-- `&statusWriter{…}` in `HTTPMiddleware`
abbrev pub new_status_writer : StatusWriter
new_status_writer = record { status = 200; wrote_header = false }

-- `statusWriter.WriteHeader`: the writer then, and its calls on the writer inside
unfoldable pub write_header_captured : StatusWriter → ℕ → StatusWriter × List Call
write_header_captured w status =
    if w.wrote_header
    then (w, [])
    else (record { status = status; wrote_header = true }, write_header status ∷ [])

-- one call on a `statusWriter`: `Header` is the writer's inside, the rest its own `WriteHeader` and
-- `Write`
unfoldable pub captured : StatusWriter → Call → StatusWriter × List Call
unfolding write_header_captured
captured w (set_header key value) = (w, set_header key value ∷ [])
captured w (write_header status) = write_header_captured w status
captured w (write body) =
    let (w', calls) = if not w.wrote_header then write_header_captured w 200 else (w, []) in
    (w', calls ++ write body ∷ [])

-- the calls of a handler on a `statusWriter`, one after the other
unfoldable pub capture : StatusWriter → List Call → StatusWriter × List Call
unfolding captured
capture w [] = (w, [])
capture w (call ∷ calls) =
    let (w', first) = captured w call in let (w'', rest) = capture w' calls in (w'', first ++ rest)
