-- ===== src/Ledger.antt =====
-- The double-entry ledger: backend/src/drc_pay_api/domains/ledger/.
pub mod Money
pub mod Posting
pub mod Balance
pub mod Amounts
pub mod RoundTrip
