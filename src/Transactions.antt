-- ===== src/Transactions.antt =====
-- backend/src/drc_pay_api/domains/transactions/.
pub mod States
pub mod Models
pub mod Pricing
pub mod Store
pub mod Steps
pub mod Orchestrator
pub mod OnNet
pub mod Books
pub mod Invariant
pub mod Focus
pub mod Rules
pub mod Routed
pub mod RoutedKeeps
pub mod NewRows
pub mod StartKeeps
pub mod OnNetKeeps
pub mod Fees
