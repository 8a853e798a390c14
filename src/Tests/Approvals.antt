-- ===== src/Tests/Approvals.antt =====
-- Runs of the approval service of app/approvals/service.py.
use mpesa_mcp_server.Common.{
  ℕ, zero, suc, ◌*◌, ◌<◌, ◌≤◌, String, ◌≡◌, Bool, refl, ap, true, false, some, [], ◌∷◌, arith,
  eq_iff,
}
use Prim.Native.String as S
use text.Mathlib.TextLemmas.{tail-eq_of_cons-eq}
use mpesa_mcp_server.Common.Exec.{ok}
use mpesa_mcp_server.Common.Dict.{lookup}
use mpesa_mcp_server.World.{Env, World, increment, now}
use mpesa_mcp_server.Observability.Metrics
use mpesa_mcp_server.Safety.Policy.{evaluate}
use mpesa_mcp_server.Audit.Logger.{log_event}
use mpesa_mcp_server.Payments.Service.{initiate_stk_push}
use mpesa_mcp_server.Approvals.Repository
use mpesa_mcp_server.Approvals.Models.{ApprovalRequest}
use mpesa_mcp_server.Approvals.Repository.{with_status}
use mpesa_mcp_server.Approvals.Service.{
  approve_request, reject_request, create_approval_request, log_audit_event,
}
use mpesa_mcp_server.Approvals.Answers.{
  required_reviewers_for_payload, required_reviewers_for_amount,
}
use mpesa_mcp_server.Approvals.Review.{outcome, after_review, review_response, approve_request_lem}
use mpesa_mcp_server.Approvals.Rejection.{
  rejected, rejected_response, reject_request_pending, reject_request_closed,
}
use mpesa_mcp_server.Tests.Samples.{env, settings, dashes}
use mpesa_mcp_server.Tests.Payments.{asked, request, request_there}

approve_request_lem_example :
    ((approve_request env settings.approvals "-" "alice" asked).0
      ≡ ok (
          review_response (outcome request "alice" (env.clock asked.clock_reads)) (
            after_review
              (outcome request "alice" (env.clock asked.clock_reads))
              request
              "alice"
              (env.clock (suc asked.clock_reads)))))
    × (lookup "-" (approve_request env settings.approvals "-" "alice" asked).1.approvals
        ≡ some (
            after_review
              (outcome request "alice" (env.clock asked.clock_reads))
              request
              "alice"
              (env.clock (suc asked.clock_reads))))
approve_request_lem_example =
    approve_request_lem env settings.approvals "-" "alice" request asked request_there refl

abbrev is_empty : String → Bool
is_empty S.[] = true
is_empty (S.◌∷◌ c s) = false

-- No two identifiers of the samples agree.
dashes_once : (i j : ℕ) → dashes i ≡ dashes j → i ≡ j
dashes_once zero zero e = refl
dashes_once zero (suc j) e = absurd (ground (arith, ap is_empty e))
dashes_once (suc i) zero e = absurd (ground (arith, ap is_empty e))
dashes_once (suc i) (suc j) e = ap suc (dashes_once i j (tail-eq_of_cons-eq e))

pub issue_once : (i j : ℕ) → env.new_id i ≡ env.new_id j → i ≡ j
issue_once i j e = omega (arith, dashes_once (suc i) (suc j) e)

abbrev slow : Env
slow = record env { clock = λ n. n * 1000000000000 }

reads : asked.clock_reads ≡ 3
unfolding initiate_stk_push evaluate create_approval_request Repository.create increment
    log_audit_event log_event Metrics.increment required_reviewers_for_payload
    required_reviewers_for_amount lookup now
reads = refl

early : env.clock asked.clock_reads < request.expires_at
early = rw reads (omega arith)

late : request.expires_at ≤ slow.clock asked.clock_reads
late = rw reads (omega arith)

reject_request_pending_example :
    ((reject_request env settings.approvals "-" asked).0
      ≡ ok (rejected_response (rejected request (env.clock (suc asked.clock_reads)))))
    × (lookup "-" (reject_request env settings.approvals "-" asked).1.approvals
        ≡ some (rejected request (env.clock (suc asked.clock_reads))))
reject_request_pending_example =
    reject_request_pending env settings.approvals "-" request asked request_there refl early

-- An approval that was given is taken back.
abbrev approved : ApprovalRequest
approved = record request { status = "approved" }

abbrev with_approved : World
with_approved = record asked { approvals = ("-", approved) ∷ [] }

approved_there : lookup "-" with_approved.approvals ≡ some approved
unfolding lookup
approved_there = refl

reject_request_closed_example :
    ((reject_request env settings.approvals "-" with_approved).0
      ≡ ok (rejected_response (rejected approved (env.clock with_approved.clock_reads))))
    × (lookup "-" (reject_request env settings.approvals "-" with_approved).1.approvals
        ≡ some (rejected approved (env.clock with_approved.clock_reads)))
reject_request_closed_example =
    reject_request_closed env settings.approvals "-" approved with_approved approved_there
      (λ e. absurd (ground (arith, (eq_iff approved.status "pending").1 e)))
