-- ===== src/Receipts/Service.antt =====
-- `ReceiptService` of app/services/receipt_service.py. The receipt is given as its record, where the
-- program gives the JSON document that tells the record's fields.
pub mod Laws
use mpesa_mcp_server.Common.{
  String, Bool, true, false, ◌||◌, Option, none, some, List, [], ◌∷◌, ◌==◌, first, if◌then◌else◌,
}
use mpesa_mcp_server.Common.Exec.{Exec, pure, gets, ◌>>=◌, ◌>>◌}
use mpesa_mcp_server.Common.Json.{Json, str}
use mpesa_mcp_server.Storage.Records.{PendingTransaction}
use mpesa_mcp_server.Storage.Repository.{find_by_checkout_request_id, list_transactions, is_text}
use mpesa_mcp_server.Audit.Logger.{log_event}
use mpesa_mcp_server.Observability.Metrics.{Counter}
use mpesa_mcp_server.Receipts.Generator.{Receipt, ReceiptGenerationResult, generate}
use mpesa_mcp_server.World.{Env, World, increment}

pub record ReceiptServiceResponse : Type 0 where
  pub status : String
  pub allowed : Bool
  pub reason : String
  pub receipt : Option Receipt

abbrev pub refused : String → String → ReceiptServiceResponse
refused status reason = record { status = status; allowed = false; reason = reason; receipt = none }

-- A generation's result as the service's response.
abbrev pub response_of : ReceiptGenerationResult → ReceiptServiceResponse
response_of r = record {
  status = r.status;
  allowed = r.allowed;
  reason = r.reason;
  receipt = r.receipt;
}

abbrev pub has_reference : String → PendingTransaction → Bool
has_reference reference t =
    is_text t.provider_transaction_id reference || is_text t.provider_reference reference

module _ (env : Env) where
  unfoldable pub deliver :
      PendingTransaction
      → ReceiptGenerationResult
      → Option Receipt
      → Exec World ReceiptServiceResponse
  deliver t result none = pure (response_of result)
  deliver t result (some receipt) = do
    log_event env "receipt_generated"
        (("receipt_id", str receipt.receipt_id)
          ∷ ("transaction_id", str t.transaction_id)
          ∷ ("checkout_request_id", str t.checkout_request_id)
          ∷ [])
        none none none
    increment Counter.receipt_generated_count
    pure (response_of result)

  unfoldable pub generate_found : Option PendingTransaction → Exec World ReceiptServiceResponse
  unfolding deliver
  generate_found none = pure (refused "not_found" "Transaction was not found.")
  generate_found (some t) = do result ← generate env t; deliver t result result.receipt

  -- `generate_receipt`
  unfoldable pub generate_receipt : String → Exec World ReceiptServiceResponse
  unfolding generate_found
  generate_receipt checkout_request_id =
      if checkout_request_id == ""
      then pure (refused "blocked" "Checkout request ID is required.")
      else (do found ← gets (find_by_checkout_request_id checkout_request_id); generate_found found)

  -- The transaction with the reference, by its checkout request first.
  abbrev pub or_referenced :
      String → Option PendingTransaction → List PendingTransaction → Option PendingTransaction
  or_referenced reference (some t) transactions = some t
  or_referenced reference none transactions = first (has_reference reference) transactions

  unfoldable pub generate_referenced : Option PendingTransaction → Exec World ReceiptServiceResponse
  unfolding generate_receipt
  generate_referenced none = pure (refused "not_found" "Transaction was not found.")
  generate_referenced (some t) = generate_receipt t.checkout_request_id

  -- `generate_receipt_by_reference`
  unfoldable pub generate_receipt_by_reference : String → Exec World ReceiptServiceResponse
  unfolding generate_referenced
  generate_receipt_by_reference reference =
      if reference == "" then pure (refused "blocked" "Transaction reference is required.") else (do
        found ← gets (find_by_checkout_request_id reference)
        transactions ← gets list_transactions
        generate_referenced (or_referenced reference found transactions))
