-- ===== src/Approvals/Evolution.antt =====
-- The relation between a stored approval request of app/approvals and what it may become.
use mpesa_mcp_server.Common.{
  ℕ, String, ◌≡◌, ◌≢◌, refl, sym, subst, ◌∙◌, ◌⊎◌, inl, inr, Option, some, none, List, [], ◌++◌,
  arith, ◌==◌, eq_iff, Bool-cases,
}
use mpesa_mcp_server.Common.Dict.{Dict, lookup, insert, lookup-insert}
use mpesa_mcp_server.Approvals.Models.{ApprovalRequest}
use mathlib.Core.List.{append_assoc, append-nil}

abbrev pub StatusMove : String → String → Type 0
StatusMove s t =
    (t ≡ s) ⊎ ((t ≡ "expired") ⊎ ((t ≡ "rejected") ⊎ ((s ≡ "pending") × (t ≡ "approved"))))

expired-ne-pending : ◌≢◌ {A = String} "expired" "pending"
expired-ne-pending e = ground (arith, eq_iff "expired" "pending")

rejected-ne-pending : ◌≢◌ {A = String} "rejected" "pending"
rejected-ne-pending e = ground (arith, eq_iff "rejected" "pending")

pub StatusMove-trans : (s t u : String) → StatusMove s t → StatusMove t u → StatusMove s u
StatusMove-trans s t u p (inl e) = subst (StatusMove s) (sym e) p
StatusMove-trans s t u p (inr (inl e)) = inr (inl e)
StatusMove-trans s t u p (inr (inr (inl e))) = inr (inr (inl e))
StatusMove-trans s t u (inl f) (inr (inr (inr (e, g)))) = inr (inr (inr (sym f ∙ e, g)))
StatusMove-trans s t u (inr (inl f)) (inr (inr (inr (e, g)))) =
    absurd (expired-ne-pending (sym f ∙ e))
StatusMove-trans s t u (inr (inr (inl f))) (inr (inr (inr (e, g)))) =
    absurd (rejected-ne-pending (sym f ∙ e))
StatusMove-trans s t u (inr (inr (inr (f, h)))) (inr (inr (inr (e, g)))) = inr (inr (inr (f, g)))

pub record Advances (a b : ApprovalRequest) : Type 0 where
  pub approval_id : b.approval_id ≡ a.approval_id
  pub action : b.action ≡ a.action
  pub payload : b.payload ≡ a.payload
  pub reason : b.reason ≡ a.reason
  pub created_at : b.created_at ≡ a.created_at
  pub expires_at : b.expires_at ≡ a.expires_at
  pub required_reviewers : b.required_reviewers ≡ a.required_reviewers
  pub reviewers : (more : List String) × (b.reviewer_ids ≡ a.reviewer_ids ++ more)
  pub status : StatusMove a.status b.status

pub Advances-refl : (a : ApprovalRequest) → Advances a a
Advances-refl a = record {
  approval_id = refl;
  action = refl;
  payload = refl;
  reason = refl;
  created_at = refl;
  expires_at = refl;
  required_reviewers = refl;
  reviewers = ([], sym (append-nil a.reviewer_ids));
  status = inl refl;
}

-- A change of the status and of the two times of review and expiry.
pub Advances-status :
    (a : ApprovalRequest) (s : String) (reviewed expired : Option ℕ)
    → StatusMove a.status s
    → Advances a (record a { status = s; reviewed_at = reviewed; expired_at = expired })
Advances-status a s reviewed expired move = record {
  approval_id = refl;
  action = refl;
  payload = refl;
  reason = refl;
  created_at = refl;
  expires_at = refl;
  required_reviewers = refl;
  reviewers = ([], sym (append-nil a.reviewer_ids));
  status = move;
}

pub Advances-trans : {a b c : ApprovalRequest} → Advances a b → Advances b c → Advances a c
Advances-trans {a} {b} {c} p q = record {
  approval_id = q.approval_id ∙ p.approval_id;
  action = q.action ∙ p.action;
  payload = q.payload ∙ p.payload;
  reason = q.reason ∙ p.reason;
  created_at = q.created_at ∙ p.created_at;
  expires_at = q.expires_at ∙ p.expires_at;
  required_reviewers = q.required_reviewers ∙ p.required_reviewers;
  reviewers = (
    p.reviewers.0 ++ q.reviewers.0,
    q.reviewers.1 ∙ (rw p.reviewers.1 (append_assoc a.reviewer_ids p.reviewers.0 q.reviewers.0)),
  );
  status = StatusMove-trans a.status b.status c.status p.status q.status;
}

abbrev pub Evolves : Dict ApprovalRequest → Dict ApprovalRequest → Type 0
Evolves d e =
    (k : String) (a : ApprovalRequest)
    → lookup k d ≡ some a
    → (b : ApprovalRequest) × (lookup k e ≡ some b) × Advances a b

pub Evolves-refl : (d : Dict ApprovalRequest) → Evolves d d
Evolves-refl d k a h = (a, h, Advances-refl a)

pub Evolves-trans : (d e f : Dict ApprovalRequest) → Evolves d e → Evolves e f → Evolves d f
Evolves-trans d e f g h k a found =
    let (b, found', step) = g k a found in
    let (c, found'', step') = h k b found' in (c, found'', Advances-trans step step')

pub insert-Evolves_new :
    (id : String) (a : ApprovalRequest) (d : Dict ApprovalRequest)
    → lookup id d ≡ none
    → Evolves d (insert id a d)
insert-Evolves_new id a d fresh k b found =
    (b, ground (arith, eq_iff id k, lookup-insert id k a d), Advances-refl b)

pub insert-Evolves :
    (id : String) (a b : ApprovalRequest) (d : Dict ApprovalRequest)
    → lookup id d ≡ some a
    → Advances a b
    → Evolves d (insert id b d)
insert-Evolves id a b d there step k s found = elim (Bool-cases (id == k)) [
  | inl same ↦
      let here : s ≡ a = ground (arith, eq_iff id k) in
      (b, rw (lookup-insert, same), subst (λ x. Advances x b) (sym here) step)
  | inr other ↦ (s, rw (lookup-insert, other) found, Advances-refl s)
]
