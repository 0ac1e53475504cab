-- ===== src/Http.antt =====
-- backend/src/drc_pay_api/http/.
pub mod Guards
pub mod MerchantApi
pub mod PublicRoutes
pub mod Keeps
pub mod Session
pub mod Admin
pub mod SignupRoute
pub mod SignupKeep
pub mod Operations
pub mod Gate
pub mod PublicKeeps
pub mod Orders
pub mod Paid
