-- ===== src/Receipts.antt =====
-- The receipts of app/receipts and app/services/receipt_service.py.
pub mod Generator
pub mod Service
