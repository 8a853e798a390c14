-- ===== src/Safety/Policy.antt =====
-- app/safety/policy.py
pub mod Laws
use mpesa_mcp_server.Common.{
  String, Bool, true, false, Option, none, some, List, [], ◌∷◌, ◌==◌, contains, if◌then◌else◌,
}
use mpesa_mcp_server.Common.Int.{ℤ, pos, ltb_ℤ, leb_ℤ}

abbrev pub read_only_actions : List String
read_only_actions =
    "check_transaction_status" ∷ "get_today_transactions" ∷ "get_failed_transactions"
    ∷ "generate_receipt" ∷ []

pub record PaymentActionRequest : Type 0 where
  pub action : String
  pub amount : Option ℤ
  pub phone_number : Option String
  pub recipient : Option String

pub record PolicyDecision : Type 0 where
  pub status : String
  pub allowed : Bool
  pub reason : String
  pub requires_approval : Bool

abbrev pub policy_blocked : String → PolicyDecision
policy_blocked reason = record {
  status = "blocked";
  allowed = false;
  reason = reason;
  requires_approval = false;
}

-- The tests on an amount that is given, with a phone number that is given.
evaluate_amount : ℤ → ℤ → PolicyDecision
evaluate_amount max_stk_amount amount =
    if leb_ℤ amount (pos 0)
    then policy_blocked "Amount must be greater than 0."
    else if ltb_ℤ max_stk_amount amount
    then record {
      status = "approval_required";
      allowed = false;
      reason = "Amount exceeds the configured STK push limit.";
      requires_approval = true;
    }
    else record {
      status = "allowed";
      allowed = true;
      reason = "STK push is within the configured limit.";
      requires_approval = false;
    }

-- `_evaluate_stk_push`
evaluate_stk_push : ℤ → Option ℤ → Option String → PolicyDecision
unfolding evaluate_amount
evaluate_stk_push max_stk_amount none phone_number =
    policy_blocked "Amount is required for STK push."
evaluate_stk_push max_stk_amount (some amount) none =
    policy_blocked "Phone number is required for STK push."
evaluate_stk_push max_stk_amount (some amount) (some phone_number) =
    evaluate_amount max_stk_amount amount

unfoldable pub evaluate : ℤ → PaymentActionRequest → PolicyDecision
unfolding evaluate_stk_push
evaluate max_stk_amount request =
    if contains read_only_actions request.action
    then record {
      status = "allowed";
      allowed = true;
      reason = "Read-only action is allowed.";
      requires_approval = false;
    }
    else if request.action == "initiate_stk_push"
    then evaluate_stk_push max_stk_amount request.amount request.phone_number
    else policy_blocked "Unknown action is blocked."
