-- ===== src/Storage/Records.antt =====
-- `PendingTransaction` of app/storage/repositories.py, and the arguments of
-- `save_pending_transaction`. A time is a number of microseconds.
use mpesa_mcp_server.Common.{ℕ, String, Option}
use mpesa_mcp_server.Common.Int.{ℤ}

pub record PendingTransaction : Type 0 where
  pub transaction_id : String
  pub idempotency_key : Option String
  pub provider : String
  pub rail : String
  pub provider_transaction_id : Option String
  pub provider_reference : Option String
  pub phone_number : String
  pub amount : ℤ
  pub account_reference : String
  pub description : String
  pub checkout_request_id : String
  pub merchant_request_id : String
  pub created_at : ℕ
  pub updated_at : ℕ
  pub status : String
  pub result_code : Option ℤ
  pub result_description : Option String
  pub mpesa_receipt_number : Option String

-- The keyword arguments of `save_pending_transaction`.
pub record NewTransaction : Type 0 where
  pub phone_number : String
  pub amount : ℤ
  pub account_reference : String
  pub description : String
  pub checkout_request_id : String
  pub merchant_request_id : String
  pub idempotency_key : Option String
  pub provider : String
  pub rail : String
  pub provider_transaction_id : Option String
  pub provider_reference : Option String

-- The keyword arguments of `update_transaction_status`.
pub record StatusUpdate : Type 0 where
  pub checkout_request_id : String
  pub status : String
  pub result_code : ℤ
  pub result_description : String
  pub mpesa_receipt_number : Option String
