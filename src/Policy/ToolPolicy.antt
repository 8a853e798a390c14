-- ===== src/Policy/ToolPolicy.antt =====
-- `ToolPolicyEngine` of app/policy/tool_policy.py. A set of names is the list of its elements.
pub mod Laws
use mpesa_mcp_server.Common.{
  String, Bool, true, false, not, ◌&&◌, ◌||◌, Option, none, some, List, [], ◌∷◌, ◌==◌, contains,
  if◌then◌else◌,
}
use Prim.Native.String as S
use Prim.Native.Char.{Char}

abbrev pub current_mcp_tools : List String
current_mcp_tools =
    "initiate_stk_push" ∷ "initiate_payment" ∷ "check_transaction_status" ∷ "check_payment_status"
    ∷ "generate_receipt" ∷ "get_today_summary" ∷ "get_failed_transactions"
    ∷ "approve_payment_request" ∷ "reject_payment_request" ∷ "run_reconciliation" ∷ []

abbrev pub approval_flow_tools : List String
approval_flow_tools = "approve_payment_request" ∷ "reject_payment_request" ∷ []

pub record ToolPolicyDecision : Type 0 where
  pub status : String
  pub allowed : Bool
  pub reason : String
  pub requires_approval : Bool

pub record ToolPolicyEngine : Type 0 where
  pub enabled_tools : List String
  pub blocked_tools : List String
  pub approval_required_tools : List String

-- `tools or default`: an empty set counts as absent.
abbrev pub or_tools : List String → List String → List String
or_tools [] default = default
or_tools (tool ∷ tools) default = tool ∷ tools

-- `__init__`
unfoldable pub engine : List String → List String → List String → ToolPolicyEngine
engine enabled_tools blocked_tools approval_required_tools = record {
  enabled_tools = or_tools enabled_tools current_mcp_tools;
  blocked_tools = or_tools blocked_tools [];
  approval_required_tools = or_tools approval_required_tools [];
}

-- `evaluate`
unfoldable pub evaluate : ToolPolicyEngine → String → ToolPolicyDecision
evaluate e tool_name =
    if contains e.blocked_tools tool_name || not (contains e.enabled_tools tool_name)
    then record {
      status = "blocked";
      allowed = false;
      reason = "Tool disabled by policy";
      requires_approval = false;
    }
    else if contains e.approval_required_tools tool_name
        && not (contains approval_flow_tools tool_name)
    then record {
      status = "approval_required";
      allowed = false;
      reason = "Tool requires approval by policy";
      requires_approval = true;
    }
    else record {
      status = "allowed";
      allowed = true;
      reason = "Tool allowed by policy";
      requires_approval = false;
    }

-- The texts between the commas, the last one first in the making.
abbrev pub split_onto : S.String → S.String → List String
split_onto S.[] part = part ∷ []
split_onto (S.◌∷◌ c rest) part =
    let here = split_onto rest S.[] in
    let longer = split_onto rest (S.◌++◌ part (S.◌∷◌ c S.[])) in
    if S.◌∷◌ c S.[] == "," then part ∷ here else longer

-- `value.split(",")`
unfoldable pub split_commas : String → List String
split_commas value = split_onto value S.[]

-- `str.isspace` of a character is a parameter: it stands in Unicode tables.
module _ (is_space : Char → Bool) where
  abbrev pub strip_left : String → String
  strip_left S.[] = S.[]
  strip_left (S.◌∷◌ c s) = let rest = strip_left s in if is_space c then rest else S.◌∷◌ c s

  abbrev pub add_left : Char → String → String
  add_left c S.[] = if is_space c then S.[] else S.◌∷◌ c S.[]
  add_left c (S.◌∷◌ d s) = S.◌∷◌ c (S.◌∷◌ d s)

  abbrev pub strip_right : String → String
  strip_right S.[] = S.[]
  strip_right (S.◌∷◌ c s) = add_left c (strip_right s)

  -- `item.strip()`
  unfoldable pub strip : String → String
  strip item = strip_left (strip_right item)

  unfoldable pub strip_all : List String → List String
  strip_all [] = []
  strip_all (item ∷ items) =
      let rest = strip_all items in if strip item == "" then rest else strip item ∷ rest

  -- `parse_tool_list`
  unfoldable pub parse_tool_list : String → List String
  unfolding strip_all
  parse_tool_list value = strip_all (split_commas value)

  -- `from_settings`, from its three settings
  unfoldable pub from_settings : String → String → String → ToolPolicyEngine
  from_settings enabled_mcp_tools blocked_mcp_tools approval_required_mcp_tools =
      engine (or_tools (parse_tool_list enabled_mcp_tools) current_mcp_tools)
        (parse_tool_list blocked_mcp_tools) (parse_tool_list approval_required_mcp_tools)
