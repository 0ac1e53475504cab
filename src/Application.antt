-- ===== src/Application.antt =====
-- backend/src/drc_pay_api/application/.
pub mod Payments
pub mod Outcomes
pub mod OutcomesKeep
pub mod PlayOut
pub mod PaymentsKeep
pub mod Onboarding
pub mod PaymentCodes
