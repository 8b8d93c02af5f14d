-- ===== src/Service/Authorization/Same.antt =====
-- The comparison of transfers (internal/service/operations.go).
use ledger_service.Prelude.{◌≡◌, ◌↔◌, true, arith}
use ledger_service.Sdk.{Transfer}
use ledger_service.Service.Authorization.{same_transfer, same_transfer_except_timeout}

-- `sameTransferExceptTimeout` holds exactly of transfers that are equal but for the timeout and the
-- timestamp.
pub same_transfer_except_timeout_iff :
    (left right : Transfer)
    → (same_transfer_except_timeout left right ≡ true)
      ↔ (record left { timeout = right.timeout; timestamp = right.timestamp } ≡ right)
unfolding same_transfer_except_timeout
same_transfer_except_timeout_iff left right = (λ h. ground arith, λ h. rw (← h) (ground arith))

-- `sameTransfer` holds exactly of transfers that are equal but for the timestamp.
pub same_transfer_iff :
    (left right : Transfer)
    → (same_transfer left right ≡ true) ↔ (record left { timestamp = right.timestamp } ≡ right)
unfolding same_transfer same_transfer_except_timeout
same_transfer_iff left right = (λ h. ground arith, λ h. rw (← h) (ground arith))
