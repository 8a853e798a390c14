-- ===== src/Receipts/Generator.antt =====
-- `ReceiptGenerator` of app/receipts/generator.py.
use mpesa_mcp_server.Common.{
  ℕ, String, Bool, true, false, not, Option, none, some, ◌==◌, if◌then◌else◌,
}
use mpesa_mcp_server.Common.Int.{ℤ}
use mpesa_mcp_server.Common.Exec.{Exec, pure, ◌>>=◌}
use mpesa_mcp_server.Storage.Records.{PendingTransaction}
use mpesa_mcp_server.World.{Env, World, now, new_id}

pub record Receipt : Type 0 where
  pub receipt_id : String
  pub transaction_id : String
  pub checkout_request_id : String
  pub mpesa_receipt_number : String
  pub amount : ℤ
  pub phone_number : String
  pub status : String
  pub issued_at : ℕ

pub record ReceiptGenerationResult : Type 0 where
  pub status : String
  pub allowed : Bool
  pub reason : String
  pub receipt : Option Receipt

abbrev pub blocked : String → ReceiptGenerationResult
blocked reason = record { status = "blocked"; allowed = false; reason = reason; receipt = none }

abbrev pub receipt_of : PendingTransaction → String → String → ℕ → Receipt
receipt_of t number receipt_id issued_at = record {
  receipt_id = receipt_id;
  transaction_id = t.transaction_id;
  checkout_request_id = t.checkout_request_id;
  mpesa_receipt_number = number;
  amount = t.amount;
  phone_number = t.phone_number;
  status = t.status;
  issued_at = issued_at;
}

module _ (env : Env) where
  unfoldable pub generate_numbered :
      PendingTransaction → Option String → Exec World ReceiptGenerationResult
  generate_numbered t none =
      pure (blocked "Completed transaction is missing an M-Pesa receipt number.")
  generate_numbered t (some number) = do
    receipt_id ← new_id env
    issued_at ← now env
    pure (record {
      status = "generated";
      allowed = true;
      reason = "Receipt generated successfully.";
      receipt = some (receipt_of t number receipt_id issued_at);
    })

  -- `generate`
  unfoldable pub generate : PendingTransaction → Exec World ReceiptGenerationResult
  unfolding generate_numbered
  generate t =
      if not (t.status == "completed")
      then pure (blocked "Only completed transactions can generate receipts.")
      else generate_numbered t t.mpesa_receipt_number
