-- ===== src/World/Quiet.antt =====
-- Calls that touch neither repository and do not reach the payment provider.
use mpesa_mcp_server.Common.{◌≤◌, ◌≡◌, refl, ◌∙◌, arith}
use mpesa_mcp_server.Common.Exec.Respects.{Preorder, Respects}
use mpesa_mcp_server.World.{Env, World, increment, now, new_id}
use mpesa_mcp_server.Observability.Metrics.{Counter}

pub record Quiet (w v : World) : Type 0 where
  pub ids : w.ids_issued ≤ v.ids_issued
  pub transactions : v.transactions ≡ w.transactions
  pub approvals : v.approvals ≡ w.approvals
  pub provider_calls : v.provider_calls ≡ w.provider_calls

instance pub Quiet-Preorder : Preorder Quiet
Quiet-Preorder = record {
  reflexive = λ w. record {
    ids = omega arith;
    transactions = refl;
    approvals = refl;
    provider_calls = refl;
  };
  transitive = λ w v u p q. record {
    ids = omega (arith, p.ids, q.ids);
    transactions = q.transactions ∙ p.transactions;
    approvals = q.approvals ∙ p.approvals;
    provider_calls = q.provider_calls ∙ p.provider_calls;
  };
}

pub increment-Quiet : (c : Counter) → Respects Quiet (increment c)
unfolding increment
increment-Quiet c = record { at = λ w. ground arith }

module _ (env : Env) where
  pub now-Quiet : Respects Quiet (now env)
  unfolding now
  now-Quiet = record { at = λ w. ground arith }

  pub new_id-Quiet : Respects Quiet (new_id env)
  unfolding new_id
  new_id-Quiet = record { at = λ w. ground arith }

-- Calls that neither touch the transactions nor reach the payment provider.
pub record Aside (w v : World) : Type 0 where
  pub ids : w.ids_issued ≤ v.ids_issued
  pub transactions : v.transactions ≡ w.transactions
  pub provider_calls : v.provider_calls ≡ w.provider_calls

instance pub Aside-Preorder : Preorder Aside
Aside-Preorder = record {
  reflexive = λ w. record { ids = omega arith; transactions = refl; provider_calls = refl };
  transitive = λ w v u p q. record {
    ids = omega (arith, p.ids, q.ids);
    transactions = q.transactions ∙ p.transactions;
    provider_calls = q.provider_calls ∙ p.provider_calls;
  };
}

pub Aside-Quiet : (w v : World) → Quiet w v → Aside w v
Aside-Quiet w v q = record {
  ids = q.ids;
  transactions = q.transactions;
  provider_calls = q.provider_calls;
}

-- Calls that touch neither repository.
pub record Reading (w v : World) : Type 0 where
  pub ids : w.ids_issued ≤ v.ids_issued
  pub transactions : v.transactions ≡ w.transactions
  pub approvals : v.approvals ≡ w.approvals

instance pub Reading-Preorder : Preorder Reading
Reading-Preorder = record {
  reflexive = λ w. record { ids = omega arith; transactions = refl; approvals = refl };
  transitive = λ w v u p q. record {
    ids = omega (arith, p.ids, q.ids);
    transactions = q.transactions ∙ p.transactions;
    approvals = q.approvals ∙ p.approvals;
  };
}

pub Reading-Quiet : (w v : World) → Quiet w v → Reading w v
Reading-Quiet w v q = record { ids = q.ids; transactions = q.transactions; approvals = q.approvals }
