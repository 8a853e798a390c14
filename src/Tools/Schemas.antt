-- ===== src/Tools/Schemas.antt =====
-- The inputs and the answer of the tools, app/mcp/schemas.py. The data of an answer is given as the
-- record whose fields the program dumps.
use mpesa_mcp_server.Common.{ℕ, String, Bool, Option, List}
use mpesa_mcp_server.Common.Int.{ℤ}
use mpesa_mcp_server.Common.Dict.{Dict}
use mpesa_mcp_server.Common.Json.{Json}
use mpesa_mcp_server.Storage.Records.{PendingTransaction}
use mpesa_mcp_server.Payments.Records.{PaymentResponse, ApprovalExecutionResponse}
use mpesa_mcp_server.Approvals.Answers.{ApprovalServiceResponse}
use mpesa_mcp_server.Transactions.StatusService.{TransactionStatusServiceResponse}
use mpesa_mcp_server.Receipts.Service.{ReceiptServiceResponse}
use mpesa_mcp_server.Analytics.Service.{DailyAnalyticsSummary}
use mpesa_mcp_server.Reconciliation.Service.{ReconciliationSummary}

pub record InitiateStkPushInput : Type 0 where
  pub phone_number : String
  pub amount : ℤ
  pub account_reference : String
  pub description : String
  pub idempotency_key : Option String

-- The same fields as those of a push.
pub record InitiatePaymentInput : Type 0 where
  pub phone_number : String
  pub amount : ℤ
  pub account_reference : String
  pub description : String
  pub idempotency_key : Option String

pub record CheckTransactionStatusInput : Type 0 where
  pub checkout_request_id : String

pub record CheckPaymentStatusInput : Type 0 where
  pub provider_transaction_id : String

pub record GenerateReceiptInput : Type 0 where
  pub checkout_request_id : String

pub record ApprovePaymentRequestInput : Type 0 where
  pub approval_id : String

pub record RejectPaymentRequestInput : Type 0 where
  pub approval_id : String

-- The inputs without fields.
pub data GetTodaySummaryInput : Type 0 where
  today_summary_input : GetTodaySummaryInput

pub data GetFailedTransactionsInput : Type 0 where
  failed_transactions_input : GetFailedTransactionsInput

pub data RunReconciliationInput : Type 0 where
  run_reconciliation_input : RunReconciliationInput

pub data ToolData : Type 0 where
  no_data : ToolData
  payment : PaymentResponse → ToolData
  transaction : TransactionStatusServiceResponse → ToolData
  receipt : ReceiptServiceResponse → ToolData
  summary : DailyAnalyticsSummary → ToolData
  transactions : List PendingTransaction → ToolData
  execution : ApprovalExecutionResponse → ToolData
  approval : ApprovalServiceResponse → ToolData
  reconciliation : ReconciliationSummary → ToolData
  -- the key, the limit and the seconds to the reset
  rate_limit : String → ℕ → ℕ → ToolData

pub record McpToolResponse : Type 0 where
  pub status : String
  pub allowed : Bool
  pub reason : String
  pub requires_approval : Bool
  pub tool_data : ToolData
  pub errors : List String

-- What pydantic makes of a dict: the input, or the messages of its errors.
pub data Validation (A : Type 0) : Type 0 where
  valid : A → Validation A
  invalid : List String → Validation A

-- `X | dict[str, Any]`
pub data InputData (A : Type 0) : Type 0 where
  given : A → InputData A
  raw : Dict Json → InputData A

-- `model_validate` of each input: pydantic's.
pub record Validators : Type 0 where
  pub initiate_stk_push : Dict Json → Validation InitiateStkPushInput
  pub initiate_payment : Dict Json → Validation InitiatePaymentInput
  pub check_transaction_status : Dict Json → Validation CheckTransactionStatusInput
  pub check_payment_status : Dict Json → Validation CheckPaymentStatusInput
  pub generate_receipt : Dict Json → Validation GenerateReceiptInput
  pub get_today_summary : Dict Json → Validation GetTodaySummaryInput
  pub get_failed_transactions : Dict Json → Validation GetFailedTransactionsInput
  pub approve_payment_request : Dict Json → Validation ApprovePaymentRequestInput
  pub reject_payment_request : Dict Json → Validation RejectPaymentRequestInput
  pub run_reconciliation : Dict Json → Validation RunReconciliationInput

-- `_validate_input` and its like: an input that is given is taken as it is.
abbrev pub validate : {A : Type 0} → (Dict Json → Validation A) → InputData A → Validation A
validate model_validate (given input) = valid input
validate model_validate (raw fields) = model_validate fields
