-- ===== src/System/Both.antt =====
-- What the calls of app/services, app/approvals and app/callbacks may do to the two stores, taken
-- together.
use mpesa_mcp_server.Common.{ℕ, ◌≡◌, refl, arith, inl, inr, Option-cases}
use mpesa_mcp_server.Common.Exec.{Exec, Result-cases}
use mpesa_mcp_server.Common.Exec.Respects.{Preorder, Respects, Respects-weaken}
use mpesa_mcp_server.World.{Env, World, increment, now, new_id}
use mpesa_mcp_server.World.Quiet.{Quiet, Aside, increment-Quiet}
use mpesa_mcp_server.Observability.Metrics.{Counter}
use mpesa_mcp_server.Storage.Records.{NewTransaction, StatusUpdate}
use mpesa_mcp_server.Storage.Repository.{
  save_pending_transaction, update_transaction_status, update_found, find_by_checkout_request_id,
}
use mpesa_mcp_server.Transactions.StateMachine.{validate_transition}
use mpesa_mcp_server.Storage.Progress as Transactions
use mpesa_mcp_server.Storage.Progress.{
  save_pending_transaction-Progress, update_transaction_status-Progress,
}
use mpesa_mcp_server.Approvals.Progress as Approvals

module _ (env : Env) where
  pub record Both (w v : World) : Type 0 where
    pub transactions : Transactions.Progress env w v
    pub approvals : Approvals.Progress env w v

  instance pub Both-Preorder : Preorder Both
  Both-Preorder = record {
    reflexive = λ w. record {
      transactions = (Transactions.Progress-Preorder env).reflexive w;
      approvals = (Approvals.Progress-Preorder env).reflexive w;
    };
    transitive = λ w v u p q. record {
      transactions =
          (Transactions.Progress-Preorder env).transitive w v u p.transactions q.transactions;
      approvals = (Approvals.Progress-Preorder env).transitive w v u p.approvals q.approvals;
    };
  }

  pub Both-Quiet : (w v : World) → Quiet w v → Both w v
  Both-Quiet w v q = record {
    transactions = Transactions.Progress-idle env w v q.ids q.transactions;
    approvals = Approvals.Progress-idle env w v q.ids q.approvals;
  }

  pub quiet : {A : Type 0} (m : Exec World A) → Respects Quiet m → Respects Both m
  quiet m = Respects-weaken m Both-Quiet

  -- A call that leaves the transactions alone and respects the approvals.
  pub aside :
      {A : Type 0} (m : Exec World A)
      → Respects Aside m
      → Respects (Approvals.Progress env) m
      → Respects Both m
  aside m h p = record {
    at = λ w. record {
      transactions = Transactions.Progress-idle env w (m w).1 (h.at w).ids (h.at w).transactions;
      approvals = p.at w;
    };
  }

  pub increment-Both : (c : Counter) → Respects Both (increment c)
  increment-Both c = quiet _ (increment-Quiet c)

  update_transaction_status-approvals :
      (u : StatusUpdate) → Respects (Approvals.Progress env) (update_transaction_status env u)
  unfolding update_transaction_status update_found now
  update_transaction_status-approvals u = record {
    at = λ w. elim (Option-cases (find_by_checkout_request_id u.checkout_request_id w)) [
      | inl missing ↦ rw missing ((Approvals.Progress-Preorder env).reflexive w)
      | inr (t, found) ↦ elim (Result-cases (validate_transition t.status u.status)) [
        | inr (e, raised) ↦ rw (found, raised) ((Approvals.Progress-Preorder env).reflexive w)
        | inl (done, valid) ↦ rw (found, valid) (Approvals.Progress-idle env w _ (omega arith) refl)
      ]
    ];
  }

  saved_approvals :
      (args : NewTransaction) (w : World)
      → Approvals.Progress env w (save_pending_transaction env args w).1
  unfolding save_pending_transaction now new_id
  saved_approvals args w = Approvals.Progress-idle env w _ (omega arith) refl

  pub update_transaction_status-Both :
      (u : StatusUpdate) → Respects Both (update_transaction_status env u)
  update_transaction_status-Both u = record {
    at = λ w. record {
      transactions = (update_transaction_status-Progress env u).at w;
      approvals = (update_transaction_status-approvals u).at w;
    };
  }

  module _ (issue_once : (i j : ℕ) → env.new_id i ≡ env.new_id j → i ≡ j) where
    pub save_pending_transaction-Both :
        (args : NewTransaction) → Respects Both (save_pending_transaction env args)
    save_pending_transaction-Both args = record {
      at = λ w. record {
        transactions = (save_pending_transaction-Progress env issue_once args).at w;
        approvals = saved_approvals args w;
      };
    }
