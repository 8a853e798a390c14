-- ===== src/Tests/Samples.antt =====
-- Sample surroundings and requests.
use mpesa_mcp_server.Common.{ℕ, zero, suc, ◌*◌, String, true, none, some}
use mpesa_mcp_server.Common.Int.{pos}
use mpesa_mcp_server.Common.Exec.{ok, err, exception}
use mpesa_mcp_server.Payments.Providers.{
  PaymentProvider, PaymentInitiationResponse, PaymentStatusResponse,
}
use mpesa_mcp_server.Payments.Records.{StkPush, PaymentSettings}
use mpesa_mcp_server.World.{Env}

abbrev pub accepted : PaymentInitiationResponse
accepted = record {
  provider = "daraja";
  rail = "mpesa";
  checkout_request_id = "ws_1";
  merchant_request_id = "m_1";
  provider_transaction_id = some "ws_1";
  provider_reference = some "m_1";
  response_code = "0";
  response_description = "Accepted";
  status = "pending";
  error_category = none;
  raw_response = none;
}

abbrev pub queried : PaymentStatusResponse
queried = record {
  provider = "daraja";
  rail = "mpesa";
  checkout_request_id = "ws_1";
  provider_transaction_id = some "ws_1";
  provider_reference = some "ws_1";
  result_code = "0";
  result_description = "Done";
  status = "completed";
  error_category = none;
  raw_response = none;
}

abbrev pub accepting : PaymentProvider
accepting = record {
  initiate_payment = λ calls request. ok accepted;
  check_transaction_status = λ calls reference. ok queried;
}

-- Distinct identifiers that need no arithmetic: as many dashes as identifiers before.
abbrev pub dashes : ℕ → String
dashes zero = ""
dashes (suc n) = String.◌∷◌ "-" (dashes n)

-- The clock moves on by a second with each reading.
abbrev pub env : Env
env = record {
  clock = λ n. n * 1000000;
  new_id = λ n. dashes (suc n);
  sha256 = λ text. text;
  correlation_id = none;
  payment_provider = accepting;
}

-- A provider that never answers.
abbrev pub failing : Env
failing = record env {
  payment_provider = record {
    initiate_payment = λ calls request. err (exception "timeout");
    check_transaction_status = λ calls reference. err (exception "timeout");
  };
}

abbrev pub settings : PaymentSettings
settings = record {
  max_stk_amount = pos 10000;
  approvals = record {
    expiry_minutes = 30;
    required_reviewers = 1;
    high_risk_required_reviewers = 2;
    high_risk_amount_threshold = pos 50000;
    has_audit_logger = true;
  };
}

abbrev pub push : ℕ → StkPush
push n = record {
  phone_number = some "254700000000";
  amount = some (pos n);
  account_reference = "INV-1";
  description = "Invoice";
  idempotency_key = some "key-1";
}
