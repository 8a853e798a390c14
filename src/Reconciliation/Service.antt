-- ===== src/Reconciliation/Service.antt =====
-- `ReconciliationService` of app/reconciliation/service.py.
pub mod ReadOnly
pub mod Counts
pub mod Mismatch
use mpesa_mcp_server.Common.{
  ℕ, suc, ◌+◌, ◌*◌, String, Bool, true, false, not, ◌&&◌, Option, none, some, List, [], ◌∷◌, ◌++◌,
  ◌==◌, length, ltb, or_else, contains, if◌then◌else◌,
}
use mpesa_mcp_server.Common.Dict.{Dict, lookup, insert}
use mpesa_mcp_server.Common.Exec.{Exec, Result, ok, err, exception, pure, lift, gets, ◌>>=◌, ◌>>◌}
use mpesa_mcp_server.Storage.Records.{PendingTransaction}
use mpesa_mcp_server.Storage.Repository.{list_transactions}
use mpesa_mcp_server.Payments.Providers.{PaymentStatusResponse}
use mpesa_mcp_server.World.{Env, World, now, check_transaction_status}

abbrev pub reconcilable_statuses : List String
reconcilable_statuses = "pending" ∷ "completed" ∷ "failed" ∷ []

abbrev pub final_provider_statuses : List String
final_provider_statuses = "completed" ∷ "failed" ∷ []

pub record ReconciliationFinding : Type 0 where
  pub finding_type : String
  pub transaction_id : String
  pub checkout_request_id : String
  pub local_status : String
  pub provider_status : Option String
  pub provider : String
  pub rail : String
  pub reason : String

pub record ReconciliationSummary : Type 0 where
  pub status : String
  pub checked_transactions : ℕ
  pub finding_count : ℕ
  pub pending_local_but_provider_completed : ℕ
  pub pending_local_but_provider_failed : ℕ
  pub completed_local_but_provider_failed : ℕ
  pub failed_local_but_provider_completed : ℕ
  pub stale_pending_transaction : ℕ
  pub provider_status_unknown : ℕ
  pub findings : List ReconciliationFinding

-- `_finding`
abbrev pub finding : String → PendingTransaction → Option String → String → ReconciliationFinding
finding finding_type t provider_status reason = record {
  finding_type = finding_type;
  transaction_id = t.transaction_id;
  checkout_request_id = t.checkout_request_id;
  local_status = t.status;
  provider_status = provider_status;
  provider = t.provider;
  rail = t.rail;
  reason = reason;
}

-- `_stale_pending_findings`: `created_at > now - threshold` is written without the subtraction.
unfoldable pub stale_pending_findings : ℕ → PendingTransaction → ℕ → List ReconciliationFinding
stale_pending_findings stale_pending_minutes t time =
    if not (t.status == "pending")
    then []
    else if ltb time (t.created_at + stale_pending_minutes * 60000000)
    then []
    else finding "stale_pending_transaction" t none
        "Local pending transaction is older than the configured threshold."
      ∷ []

abbrev pub status_unknown : PendingTransaction → Option String → List ReconciliationFinding
status_unknown t provider_status =
    finding "provider_status_unknown" t provider_status
      "Provider status could not be resolved to a final state."
    ∷ []

-- `_provider_mismatch_findings` after the provider's answer
unfoldable pub mismatch_findings :
    PendingTransaction → Option PaymentStatusResponse → List ReconciliationFinding
mismatch_findings t none = status_unknown t none
mismatch_findings t (some answer) =
    if not (contains final_provider_statuses answer.status)
    then status_unknown t (some answer.status)
    else if t.status == "pending" && answer.status == "completed"
    then finding "pending_local_but_provider_completed" t (some answer.status)
        "Local transaction is pending but provider reports completed."
      ∷ []
    else if t.status == "pending" && answer.status == "failed"
    then finding "pending_local_but_provider_failed" t (some answer.status)
        "Local transaction is pending but provider reports failed."
      ∷ []
    else if t.status == "completed" && answer.status == "failed"
    then finding "completed_local_but_provider_failed" t (some answer.status)
        "Local transaction is completed but provider reports failed."
      ∷ []
    else if t.status == "failed" && answer.status == "completed"
    then finding "failed_local_but_provider_completed" t (some answer.status)
        "Local transaction is failed but provider reports completed."
      ∷ []
    else []

-- The keys of `counts`
abbrev pub finding_types : List String
finding_types =
    "pending_local_but_provider_completed" ∷ "pending_local_but_provider_failed"
    ∷ "completed_local_but_provider_failed" ∷ "failed_local_but_provider_completed"
    ∷ "stale_pending_transaction" ∷ "provider_status_unknown" ∷ []

abbrev pub zeros : List String → Dict ℕ
zeros [] = []
zeros (key ∷ keys) = (key, 0) ∷ zeros keys

abbrev pub add_one : String → Option ℕ → Dict ℕ → Result (Dict ℕ)
add_one key none counts = err (exception key)
add_one key (some n) counts = ok (insert key (suc n) counts)

-- What follows a step that may raise.
abbrev and_then : {A B : Type 0} → Result A → (A → Result B) → Result B
and_then (ok a) f = f a
and_then (err e) f = err e

-- `for finding in findings: counts[finding.finding_type] += 1`; a missing key raises KeyError
unfoldable pub tally : List ReconciliationFinding → Dict ℕ → Result (Dict ℕ)
tally [] counts = ok counts
tally (f ∷ findings) counts =
    and_then (add_one f.finding_type (lookup f.finding_type counts) counts) (tally findings)

abbrev number : Option ℕ → ℕ
number none = 0
number (some n) = n

-- `counts[key]`, for a key that stands in `counts` from the start
abbrev pub count_at : String → Dict ℕ → ℕ
count_at key counts = number (lookup key counts)

abbrev pub summary_of : ℕ → List ReconciliationFinding → Dict ℕ → ReconciliationSummary
summary_of checked findings counts = record {
  status = "ok";
  checked_transactions = checked;
  finding_count = length findings;
  pending_local_but_provider_completed = count_at "pending_local_but_provider_completed" counts;
  pending_local_but_provider_failed = count_at "pending_local_but_provider_failed" counts;
  completed_local_but_provider_failed = count_at "completed_local_but_provider_failed" counts;
  failed_local_but_provider_completed = count_at "failed_local_but_provider_completed" counts;
  stale_pending_transaction = count_at "stale_pending_transaction" counts;
  provider_status_unknown = count_at "provider_status_unknown" counts;
  findings = findings;
}

abbrev pub summary_of_result :
    ℕ → List ReconciliationFinding → Result (Dict ℕ) → Result ReconciliationSummary
summary_of_result checked findings (ok counts) = ok (summary_of checked findings counts)
summary_of_result checked findings (err e) = err e

-- `_build_summary`
unfoldable pub build_summary : ℕ → List ReconciliationFinding → Result ReconciliationSummary
build_summary checked findings =
    summary_of_result checked findings (tally findings (zeros finding_types))

-- `except Exception: return None`
abbrev pub answer_or_none : Result PaymentStatusResponse → Option PaymentStatusResponse
answer_or_none (ok answer) = some answer
answer_or_none (err e) = none

module _ (env : Env) (stale_pending_minutes : ℕ) where
  abbrev pub reference : PendingTransaction → String
  reference t = or_else t.provider_transaction_id t.checkout_request_id

  -- `_provider_status`
  unfoldable pub provider_status : PendingTransaction → Exec World (Option PaymentStatusResponse)
  provider_status t w =
      let (answer, w') = check_transaction_status env (reference t) w in
      (ok (answer_or_none answer), w')

  -- `_provider_mismatch_findings`
  unfoldable pub provider_mismatch_findings :
      PendingTransaction → Exec World (List ReconciliationFinding)
  provider_mismatch_findings t = do answer ← provider_status t; pure (mismatch_findings t answer)

  -- The loop of `run_reconciliation`: the number of checked transactions and the findings.
  unfoldable pub reconcile_each :
      ℕ
      → List PendingTransaction
      → ℕ
      → List ReconciliationFinding
      → Exec World (ℕ × List ReconciliationFinding)
  reconcile_each time [] checked findings = pure (checked, findings)
  reconcile_each time (t ∷ transactions) checked findings =
      if not (contains reconcilable_statuses t.status)
      then reconcile_each time transactions checked findings
      else (do
        mismatches ← provider_mismatch_findings t
        reconcile_each time transactions (suc checked)
            (findings ++ stale_pending_findings stale_pending_minutes t time ++ mismatches))

  -- `run_reconciliation`
  unfoldable pub run_reconciliation : Exec World ReconciliationSummary
  run_reconciliation = do
    time ← now env
    transactions ← gets list_transactions
    (checked, findings) ← reconcile_each time transactions 0 []
    lift (build_summary checked findings)
