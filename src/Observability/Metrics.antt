-- ===== src/Observability/Metrics.antt =====
-- app/observability/metrics.py
use mpesa_mcp_server.Common.{ℕ, suc}

pub record MetricsSnapshot : Type 0 where
  pub tool_call_count : ℕ
  pub successful_payment_count : ℕ
  pub failed_payment_count : ℕ
  pub approval_required_count : ℕ
  pub callback_received_count : ℕ
  pub receipt_generated_count : ℕ

-- The names that the program passes to `increment`.
pub data Counter : Type 0 where
  tool_call_count successful_payment_count failed_payment_count : Counter
  approval_required_count callback_received_count receipt_generated_count : Counter

unfoldable pub increment : Counter → MetricsSnapshot → MetricsSnapshot
increment tool_call_count m = record m { tool_call_count = suc m.tool_call_count }
increment successful_payment_count m = record m {
  successful_payment_count = suc m.successful_payment_count;
}
increment failed_payment_count m = record m { failed_payment_count = suc m.failed_payment_count }
increment approval_required_count m = record m {
  approval_required_count = suc m.approval_required_count;
}
increment callback_received_count m = record m {
  callback_received_count = suc m.callback_received_count;
}
increment receipt_generated_count m = record m {
  receipt_generated_count = suc m.receipt_generated_count;
}

abbrev pub no_metrics : MetricsSnapshot
no_metrics = record {
  tool_call_count = 0;
  successful_payment_count = 0;
  failed_payment_count = 0;
  approval_required_count = 0;
  callback_received_count = 0;
  receipt_generated_count = 0;
}
