-- ===== src/Transactions/StateMachine/Laws.antt =====
-- Which moves the state machine of app/transactions/state_machine.py allows.
use mpesa_mcp_server.Common.{
  String, sym, refl, ◌==◌, eq_of_test, ◌≡◌, ◌≢◌, ◌↔◌, ◌⊎◌, subst, true, false, eq_iff, arith,
  contains, inl, inr, Bool-cases,
}
use mpesa_mcp_server.Common.Exec.{ok, err, transition_error}
use mpesa_mcp_server.Transactions.StateMachine.{
  can_transition, validate_transition, terminal_statuses, allowed_statuses,
}

abbrev pub IsTerminal : String → Type 0
IsTerminal status = contains terminal_statuses status ≡ true

-- A transaction can move exactly from `pending` to a terminal status.
pub can_transition_iff :
    (from_status to_status : String)
    → (can_transition from_status to_status ≡ true)
      ↔ ((from_status ≡ "pending") × IsTerminal to_status)
unfolding can_transition
can_transition_iff f t = (
  λ h. (ground (arith, eq_iff "pending" f), ground arith),
  λ h. ground (arith, eq_iff "pending" f),
)

pub not-IsTerminal-pending : (s : String) → IsTerminal s → s ≢ "pending"
not-IsTerminal-pending s h e =
    let pending : contains terminal_statuses "pending" ≡ true = subst IsTerminal e h in cc

pub terminal-allowed : (s : String) → IsTerminal s → contains allowed_statuses s ≡ true
terminal-allowed s h = ground arith

-- From a terminal status no move is allowed.
pub can_transition_terminal :
    (from_status to_status : String)
    → IsTerminal from_status
    → can_transition from_status to_status ≡ false
can_transition_terminal f t h = elim (Bool-cases (can_transition f t)) [
  | inl moved ↦ absurd (not-IsTerminal-pending f h ((can_transition_iff f t).0 moved).0)
  | inr stuck ↦ stuck
]

-- The check passes exactly for an allowed move, and its error names the two statuses.
pub validate_transition_cases :
    (f t : String)
    → ((can_transition f t ≡ true) × (validate_transition f t ≡ ok tt))
      ⊎ ((can_transition f t ≡ false) × (validate_transition f t ≡ err (transition_error f t)))
unfolding validate_transition
validate_transition_cases f t = ground arith

pub validate_transition_ok :
    (f t : String) → validate_transition f t ≡ ok tt → (f ≡ "pending") × IsTerminal t
unfolding validate_transition
validate_transition_ok f t h = (can_transition_iff f t).0 (ground arith)

-- A status is one word.
pub statuses_differ :
    (s : String)
    → ((s == "pending") ≡ true → (s == "completed") ≡ false)
      × ((s == "pending") ≡ true → (s == "failed") ≡ false)
      × ((s == "completed") ≡ true → (s == "failed") ≡ false)
statuses_differ s = (
  λ h. subst (λ x. (x == "completed") ≡ false) (sym (eq_of_test s "pending" h)) refl,
  λ h. subst (λ x. (x == "failed") ≡ false) (sym (eq_of_test s "pending" h)) refl,
  λ h. subst (λ x. (x == "failed") ≡ false) (sym (eq_of_test s "completed" h)) refl,
)
