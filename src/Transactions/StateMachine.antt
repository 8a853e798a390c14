-- ===== src/Transactions/StateMachine.antt =====
-- app/transactions/state_machine.py: the statuses of a transaction and the moves between them.
pub mod Laws
use mpesa_mcp_server.Common.{
  String, Bool, true, false, not, ◌||◌, List, [], ◌∷◌, ◌==◌, ◌&&◌, contains, if◌then◌else◌,
}
use mpesa_mcp_server.Common.Exec.{Result, ok, err, transition_error}

abbrev pub allowed_statuses : List String
allowed_statuses = "pending" ∷ "completed" ∷ "failed" ∷ "timed_out" ∷ "cancelled" ∷ []

abbrev pub terminal_statuses : List String
terminal_statuses = "completed" ∷ "failed" ∷ "timed_out" ∷ "cancelled" ∷ []

abbrev pub allowed_transitions : List (String × String)
allowed_transitions =
    ("pending", "completed")
    ∷ ("pending", "failed")
    ∷ ("pending", "timed_out")
    ∷ ("pending", "cancelled")
    ∷ []

-- `(from_status, to_status) in pairs`
abbrev pub contains_pair : List (String × String) → String → String → Bool
contains_pair [] a b = false
contains_pair ((x, y) ∷ rest) a b = if x == a && y == b then true else contains_pair rest a b

unfoldable pub can_transition : String → String → Bool
can_transition from_status to_status =
    if not (contains allowed_statuses from_status) || not (contains allowed_statuses to_status)
    then false
    else contains_pair allowed_transitions from_status to_status

unfoldable pub validate_transition : String → String → Result (Unit {0})
validate_transition from_status to_status =
    if not (can_transition from_status to_status)
    then err (transition_error from_status to_status)
    else ok tt
