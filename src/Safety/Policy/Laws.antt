-- ===== src/Safety/Policy/Laws.antt =====
-- When the policy of app/safety/policy.py lets an STK push through, when it wants an approval.
use mpesa_mcp_server.Common.{
  String, ◌≡◌, ◌≢◌, ◌↔◌, true, false, Option, none, some, arith, contains, eq_iff,
}
use mpesa_mcp_server.Common.Int.{ℤ, pos, ◌<ℤ◌, ◌≤ℤ◌}
use mpesa_mcp_server.Safety.Policy.{
  PaymentActionRequest, evaluate, read_only_actions, policy_blocked,
}

abbrev pub stk_push : Option ℤ → Option String → PaymentActionRequest
stk_push amount phone_number = record {
  action = "initiate_stk_push";
  amount = amount;
  phone_number = phone_number;
  recipient = none;
}

module _ (max_stk_amount : ℤ) where
  -- An STK push is allowed exactly when phone number and amount are given and the amount lies
  -- above 0 and within the limit.
  pub evaluate_allowed_iff :
      (amount : Option ℤ) (phone_number : Option String)
      → ((evaluate max_stk_amount (stk_push amount phone_number)).allowed ≡ true) ↔ (
          (n : ℤ) × (p : String) × (amount ≡ some n)
          × (phone_number ≡ some p)
          × (pos 0 <ℤ n)
          × (n ≤ℤ max_stk_amount))
  unfolding evaluate
  evaluate_allowed_iff none p = (λ h. ground arith, λ h. ground arith)
  evaluate_allowed_iff (some n) none = (λ h. ground arith, λ h. ground arith)
  evaluate_allowed_iff (some n) (some p) =
      (λ h. (n, p, ground arith, ground arith, ground arith, ground arith), λ h. ground arith)

  pub evaluate_within :
      (n : ℤ) (p : String)
      → (evaluate max_stk_amount (stk_push (some n) (some p))).allowed ≡ true
      → (pos 0 <ℤ n) × (n ≤ℤ max_stk_amount)
  unfolding evaluate
  evaluate_within n p h = (ground arith, ground arith)

  -- It wants an approval exactly when both are given and the amount lies above 0 and the limit.
  pub evaluate_requires_approval_iff :
      (amount : Option ℤ) (phone_number : Option String)
      → ((evaluate max_stk_amount (stk_push amount phone_number)).requires_approval ≡ true) ↔ (
          (n : ℤ) × (p : String) × (amount ≡ some n)
          × (phone_number ≡ some p)
          × (pos 0 <ℤ n)
          × (max_stk_amount <ℤ n))
  unfolding evaluate
  evaluate_requires_approval_iff none p = (λ h. ground arith, λ h. ground arith)
  evaluate_requires_approval_iff (some n) none = (λ h. ground arith, λ h. ground arith)
  evaluate_requires_approval_iff (some n) (some p) =
      (λ h. (n, p, ground arith, ground arith, ground arith, ground arith), λ h. ground arith)

  -- What is neither a read-only action nor an STK push is blocked, whatever its other fields.
  pub evaluate_unknown :
      (request : PaymentActionRequest)
      → contains read_only_actions request.action ≡ false
      → request.action ≢ "initiate_stk_push"
      → evaluate max_stk_amount request ≡ policy_blocked "Unknown action is blocked."
  unfolding evaluate
  evaluate_unknown request h ne = ground (arith, eq_iff request.action "initiate_stk_push")

  -- Approval is asked for only where the action is not allowed.
  pub evaluate_exclusive :
      (request : PaymentActionRequest)
      → (evaluate max_stk_amount request).requires_approval ≡ true
      → (evaluate max_stk_amount request).allowed ≡ false
  unfolding evaluate
  evaluate_exclusive request h = ground arith
