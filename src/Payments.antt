-- ===== src/Payments.antt =====
-- app/payments and app/services/payment_service.py.
pub mod StkPush
pub mod Outcomes
pub mod Providers
pub mod Records
pub mod Service
pub mod Adapters
pub mod Initiation
pub mod Execution
