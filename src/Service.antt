-- ===== src/Service.antt =====
-- internal/service: the ledger service over its cache, its view of the ledger's health and the SDK.
pub mod Text
pub mod Ids
pub mod Metadata
pub mod World
pub mod Reporting
pub mod Status
pub mod Calls
pub mod Transactions
pub mod Authorization
pub mod Increment
pub mod Accounts
pub mod Rules
pub mod Statuses
pub mod Panics
pub mod Start
