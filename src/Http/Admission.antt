-- ===== src/Http/Admission.antt =====
-- The requests inside `admissionController.Wrap` (internal/httpapi/admission.go), each at its own point of
-- it, in any interleaving of their steps.
pub mod Invariant
use ledger_service.Prelude.{
  ℕ, zero, suc, ◌+◌, ◌-◌, ◌*◌, ◌≤◌, ◌<◌, ◌≡◌, ◌↔◌, refl, ap, Bool, true, false, not, ltb, Option,
  some, List, [], ◌∷◌, ◌++◌, get_elem?, set, if◌then◌else◌, arith, Bool-cases, inl, inr,
}

-- Where a request stands: before the test of readiness, behind the send to `slots`, in the handler,
-- behind the receive from `slots`, at the end, or turned away.
pub data Phase : Type 0 where
  arrived holding running released finished rejected : Phase

-- What the requests share: the values in the channel, and the gauge of the metrics.
pub record Shared : Type 0 where
  pub slots : ℕ
  pub in_flight : ℕ

-- The next step of a request. `limit` is the capacity of the channel, and `ready` what the ledger's
-- health is at the step. A handler may return or panic: the deferred function runs either way.
unfoldable pub advance : ℕ → Bool → Phase → Shared → Phase × Shared
advance limit ready arrived σ =
    if not ready
    then (rejected, σ)
    else if ltb σ.slots limit
    then (holding, record σ { slots = σ.slots + 1 })
    else (rejected, σ)
advance limit ready holding σ = (running, record σ { in_flight = σ.in_flight + 1 })
advance limit ready running σ = (released, record σ { slots = σ.slots - 1 })
advance limit ready released σ = (finished, record σ { in_flight = σ.in_flight - 1 })
advance limit ready finished σ = (finished, σ)
advance limit ready rejected σ = (rejected, σ)

-- a request that has steps left
abbrev pub is_open : Phase → Bool
is_open finished = false
is_open rejected = false
is_open _ = true

-- The states after `arrivals` requests have come and `steps` steps were taken, each by a request
-- that has steps left.
pub data Reach (limit : ℕ) : ℕ → ℕ → List Phase → Shared → Type 0 where
  start : Reach limit 0 0 [] (record { slots = 0; in_flight = 0 })
  arrives :
      {arrivals steps : ℕ} {requests : List Phase} {σ : Shared}
      → Reach limit arrivals steps requests σ
      → Reach limit (suc arrivals) steps (arrived ∷ requests) σ
  advances :
      {arrivals steps : ℕ} {requests requests' : List Phase} {σ σ' : Shared} {phase : Phase} (i : ℕ)
      (ready : Bool)
      → Reach limit arrivals steps requests σ
      → get_elem? requests i ≡ some phase
      → is_open phase ≡ true
      → requests' ≡ set requests i (advance limit ready phase σ).0
      → σ' ≡ (advance limit ready phase σ).1
      → Reach limit arrivals (suc steps) requests' σ'

-- the requests that hold a slot, those that the gauge counts, and those in the handler
abbrev pub holds_slot : Phase → ℕ
holds_slot holding = 1
holds_slot running = 1
holds_slot _ = 0

abbrev pub is_counted : Phase → ℕ
is_counted running = 1
is_counted released = 1
is_counted _ = 0

abbrev pub is_running : Phase → ℕ
is_running running = 1
is_running _ = 0
