-- ===== src/World.antt =====
-- The state that the program's objects share, and what they take from outside.
pub mod Quiet
use mpesa_mcp_server.Common.{ℕ, suc, ◌<◌, ◌≡◌, String, Option, List, [], ◌∷◌, ◌++◌}
use mpesa_mcp_server.Common.Dict.{Dict}
use mpesa_mcp_server.Common.Exec.{Exec, ok}
use mpesa_mcp_server.Storage.Records.{PendingTransaction}
use mpesa_mcp_server.Approvals.Models.{ApprovalRequest}
use mpesa_mcp_server.Audit.Events.{AuditEvent}
use mpesa_mcp_server.Observability.Metrics
use mpesa_mcp_server.Observability.Metrics.{MetricsSnapshot, Counter, no_metrics}
use mpesa_mcp_server.Payments.Providers.{
  PaymentProvider, PaymentRequest, PaymentInitiationResponse, PaymentStatusResponse, ProviderCall,
  initiate, check_status,
}

-- `clock n` is the n-th reading of the clock, in microseconds; `new_id n` is the n-th `uuid4()`.
pub record Env : Type 0 where
  pub clock : ℕ → ℕ
  pub new_id : ℕ → String
  pub sha256 : String → String
  pub correlation_id : Option String
  pub payment_provider : PaymentProvider

pub record World : Type 0 where
  -- `InMemoryTransactionRepository._transactions`
  pub transactions : Dict PendingTransaction
  -- `InMemoryApprovalRepository._approvals`
  pub approvals : Dict ApprovalRequest
  -- `InMemoryAuditRepository._events`
  pub audit_events : List AuditEvent
  -- `InMemoryMetricsRecorder._snapshot`
  pub metrics : MetricsSnapshot
  pub clock_reads : ℕ
  pub ids_issued : ℕ
  -- the calls that the payment provider has had, the oldest first
  pub provider_calls : List ProviderCall

abbrev pub start : World
start = record {
  transactions = [];
  approvals = [];
  audit_events = [];
  metrics = no_metrics;
  clock_reads = 0;
  ids_issued = 0;
  provider_calls = [];
}

-- `metrics_recorder.increment(name)`
unfoldable pub increment : Counter → Exec World Unit
increment counter w = (ok tt, record w { metrics = Metrics.increment counter w.metrics })

module _ (env : Env) where
  -- The identifier is one of the first `n` that were issued.
  abbrev pub IsIssued : ℕ → String → Type 0
  IsIssued n id = (i : ℕ) × (i < n) × (id ≡ env.new_id i)

  -- `datetime.now(UTC)`
  unfoldable pub now : Exec World ℕ
  now w = (ok (env.clock w.clock_reads), record w { clock_reads = suc w.clock_reads })

  -- `str(uuid4())`
  unfoldable pub new_id : Exec World String
  new_id w = (ok (env.new_id w.ids_issued), record w { ids_issued = suc w.ids_issued })

  -- `payment_provider.initiate_payment(...)`
  unfoldable pub initiate_payment : PaymentRequest → Exec World PaymentInitiationResponse
  initiate_payment request w = (
    env.payment_provider.initiate_payment w.provider_calls request,
    record w { provider_calls = w.provider_calls ++ initiate request ∷ [] },
  )

  -- `payment_provider.check_transaction_status(reference)`
  unfoldable pub check_transaction_status : String → Exec World PaymentStatusResponse
  check_transaction_status reference w = (
    env.payment_provider.check_transaction_status w.provider_calls reference,
    record w { provider_calls = w.provider_calls ++ check_status reference ∷ [] },
  )
