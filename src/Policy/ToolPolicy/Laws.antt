-- ===== src/Policy/ToolPolicy/Laws.antt =====
-- When app/policy/tool_policy.py lets a tool run.
use mpesa_mcp_server.Common.{
  String, true, false, ◌≡◌, ◌↔◌, ◌⊎◌, inl, inr, refl, arith, contains, Bool-cases,
}
use mpesa_mcp_server.Policy.ToolPolicy.{ToolPolicyEngine, evaluate, approval_flow_tools}

-- A tool may run exactly if it is enabled, not blocked, and needs no approval, which the tools of
-- the approvals never do.
pub evaluate_runs_iff :
    (e : ToolPolicyEngine) (tool : String)
    → ((evaluate e tool).allowed ≡ true) ↔ (
        (contains e.enabled_tools tool ≡ true)
        × (contains e.blocked_tools tool ≡ false)
        × ((contains e.approval_required_tools tool ≡ false)
            ⊎ (contains approval_flow_tools tool ≡ true)))
unfolding evaluate
evaluate_runs_iff e tool = elim (Bool-cases (contains e.blocked_tools tool)) [
  | inl blocked ↦ rw blocked (λ h. absurd (ground arith), λ h. absurd (ground arith))
  | inr free ↦ elim (Bool-cases (contains e.enabled_tools tool)) [
    | inr off ↦ rw (free, off) (λ h. absurd (ground arith), λ h. absurd (ground arith))
    | inl on ↦ elim (Bool-cases (contains e.approval_required_tools tool)) [
      | inr direct ↦ rw (free, on, direct) (λ h. (refl, refl, inl refl), λ h. refl)
      | inl asked ↦ elim (Bool-cases (contains approval_flow_tools tool)) [
        | inl flow ↦ rw (free, on, asked, flow) (λ h. (refl, refl, inr refl), λ h. refl)
        | inr other ↦
            rw (free, on, asked, other) (λ h. absurd (ground arith), λ h. absurd (ground arith))
      ]
    ]
  ]
]
