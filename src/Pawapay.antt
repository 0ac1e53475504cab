-- ===== src/Pawapay.antt =====
-- backend/src/drc_pay_api/integrations/pawapay/.
pub mod Status
pub mod Simulator
pub mod Rail
pub mod Providers
pub mod Client
pub mod Scan
pub mod Signatures
pub mod Requests
