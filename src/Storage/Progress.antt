-- ===== src/Storage/Progress.antt =====
-- The invariant of the transaction store of app/storage/repositories.py, and what each call may do
-- to it. Identifiers come from `uuid4()`: that no two readings agree is a hypothesis.
use mpesa_mcp_server.Common.{
  ℕ, suc, Bool, ◌≤◌, String, ◌≡◌, refl, true, none, some, [], ◌∷◌, arith, contains, eq_iff,
  Option-cases, inl, inr, subst, sym, Bool-cases, first,
}
use mpesa_mcp_server.Common.Dict.{
  Dict, lookup, insert, values, IsDict, insert-IsDict, AllEntries, insert-AllEntries,
  AllEntries-lookup,
}
use mpesa_mcp_server.Common.Exec.Respects.{Preorder, Respects}
use mpesa_mcp_server.Transactions.StateMachine.{allowed_statuses}
use mpesa_mcp_server.Transactions.StateMachine.Laws.{
  IsTerminal, validate_transition_ok, validate_transition_cases, terminal-allowed,
}
use mpesa_mcp_server.Storage.Records.{PendingTransaction, NewTransaction, StatusUpdate}
use mpesa_mcp_server.Storage.Evolution.{
  Evolves, Evolves-refl, Evolves-trans, insert-Evolves, insert-Evolves_new,
}
use mpesa_mcp_server.Storage.Repository.{
  save_pending_transaction, pending_transaction, update_found, updated, update_transaction_status,
  find_by_checkout_request_id, has_checkout_request_id,
}
use mpesa_mcp_server.World.{Env, World, IsIssued, now, new_id}

module _ (env : Env) where
  pub record Entry (n : ℕ) (k : String) (t : PendingTransaction) : Type 0 where
    pub key : t.transaction_id ≡ k
    pub issued : IsIssued env n k
    pub status : contains allowed_statuses t.status ≡ true

  -- Each transaction stands once, under its own identifier, in an allowed status.
  pub record IsKept (w : World) : Type 0 where
    pub is_dict : IsDict w.transactions
    pub entries : AllEntries (Entry w.ids_issued) w.transactions

  pub record Progress (w v : World) : Type 0 where
    pub ids : w.ids_issued ≤ v.ids_issued
    pub kept : IsKept w → IsKept v
    pub evolves : IsKept w → Evolves w.transactions v.transactions

  Entry-mono : (n m : ℕ) (k : String) (t : PendingTransaction) → n ≤ m → Entry n k t → Entry m k t
  Entry-mono n m k t h e = record {
    key = e.key;
    issued = (e.issued.0, omega (arith, e.issued.1), e.issued.2);
    status = e.status;
  }

  AllEntries-mono :
      (n m : ℕ) (d : Dict PendingTransaction)
      → n ≤ m
      → AllEntries (Entry n) d
      → AllEntries (Entry m) d
  AllEntries-mono n m [] h e = tt
  AllEntries-mono n m ((k, t) ∷ d) h e = (Entry-mono n m k t h e.0, AllEntries-mono n m d h e.1)

  -- A call that leaves the transactions alone.
  pub Progress-idle :
      (w v : World) → w.ids_issued ≤ v.ids_issued → v.transactions ≡ w.transactions → Progress w v
  Progress-idle w v h e = record {
    ids = h;
    kept = λ k. record {
      is_dict = rw e k.is_dict;
      entries = rw e (AllEntries-mono w.ids_issued v.ids_issued w.transactions h k.entries);
    };
    evolves = λ k. rw e (Evolves-refl w.transactions);
  }

  instance pub Progress-Preorder : Preorder Progress
  Progress-Preorder = record {
    reflexive = λ w. Progress-idle w w (omega arith) refl;
    transitive = λ w v u p q. record {
      ids = omega (arith, p.ids, q.ids);
      kept = λ k. q.kept (p.kept k);
      evolves = λ k.
          Evolves-trans w.transactions v.transactions u.transactions (p.evolves k)
            (q.evolves (p.kept k));
    };
  }

  pub now-Progress : Respects Progress (now env)
  unfolding now
  now-Progress = record { at = λ w. Progress-idle w (now env w).1 (omega arith) refl }

  pub new_id-Progress : Respects Progress (new_id env)
  unfolding new_id
  new_id-Progress = record { at = λ w. Progress-idle w (new_id env w).1 (omega arith) refl }

  module _ (issue_once : (i j : ℕ) → env.new_id i ≡ env.new_id j → i ≡ j) where
    -- The next identifier is the key of no transaction.
    pub fresh_key : (w : World) → IsKept w → lookup (env.new_id w.ids_issued) w.transactions ≡ none
    fresh_key w k = elim (Option-cases (lookup (env.new_id w.ids_issued) w.transactions)) [
      | inl e ↦ e
      | inr (t, e) ↦
          let entry =
            AllEntries-lookup (Entry w.ids_issued) (env.new_id w.ids_issued) t w.transactions
              k.entries e in
          absurd
            (omega (arith, entry.issued.1, issue_once w.ids_issued entry.issued.0 entry.issued.2))
    ]

    -- A new transaction keeps the invariant and changes no stored one.
    pub save_pending_transaction-Progress :
        (args : NewTransaction) → Respects Progress (save_pending_transaction env args)
    unfolding save_pending_transaction
    save_pending_transaction-Progress args = record {
      at = λ w.
          let id = env.new_id w.ids_issued in
          let t =
            pending_transaction args id (env.clock w.clock_reads) (env.clock (suc w.clock_reads)) in
          record {
            ids = omega arith;
            kept = λ k. record {
              is_dict = insert-IsDict id t w.transactions k.is_dict;
              entries =
                  insert-AllEntries (Entry (suc w.ids_issued)) id t w.transactions
                    (AllEntries-mono w.ids_issued (suc w.ids_issued) w.transactions (omega arith)
                      k.entries)
                    (record {
                      key = refl;
                      issued = (w.ids_issued, omega arith, refl);
                      status = refl;
                    });
            };
            evolves = λ k. insert-Evolves_new id t w.transactions (fresh_key w k);
          };
    }

  -- What a search over the values finds is stored under its own identifier.
  pub lookup-first :
      (test : PendingTransaction → Bool) (n : ℕ) (d : Dict PendingTransaction)
      (t : PendingTransaction)
      → IsDict d
      → AllEntries (Entry n) d
      → first test (values d) ≡ some t
      → (lookup t.transaction_id d ≡ some t) × Entry n t.transaction_id t
  unfolding values lookup
  lookup-first test n [] t h e found = cc
  lookup-first test n ((k, s) ∷ d) t h e found = elim (Bool-cases (test s)) [
    | inl passes ↦
        let same : s ≡ t = ground arith in
        subst (λ x. (lookup x.transaction_id ((k, s) ∷ d) ≡ some x) × Entry n x.transaction_id x)
          same
          (
            ground (arith, eq_iff k s.transaction_id, e.0.key),
            subst (λ x. Entry n x s) (sym e.0.key) e.0,
          )
    | inr fails ↦
        let deeper = lookup-first test n d t h.1 e.1 (rw fails at found) in
        (ground (arith, eq_iff k t.transaction_id, deeper.0, h.0), deeper.1)
  ]

  -- The write of an update that the state machine allows.
  Progress-write :
      (u : StatusUpdate) (t : PendingTransaction) (w : World)
      → (IsKept w
          → (lookup t.transaction_id w.transactions ≡ some t)
            × Entry w.ids_issued t.transaction_id t)
      → t.status ≡ "pending"
      → IsTerminal u.status
      → (time reads : ℕ)
      → Progress w (record w {
        transactions = insert t.transaction_id (updated u time t) w.transactions;
        clock_reads = reads;
      })
  Progress-write u t w there pending terminal time reads =
      let v = updated u time t in
      record {
        ids = omega arith;
        kept = λ k.
            let entry = (there k).1 in
            record {
              is_dict = insert-IsDict t.transaction_id v w.transactions k.is_dict;
              entries =
                  insert-AllEntries (Entry w.ids_issued) t.transaction_id v w.transactions k.entries
                    (record {
                      key = refl;
                      issued = entry.issued;
                      status = terminal-allowed u.status terminal;
                    });
            };
        evolves = λ k.
            insert-Evolves t.transaction_id t v w.transactions (there k).0
              (inr ((search), pending, terminal));
      }

  update_found-Progress :
      (u : StatusUpdate) (t : PendingTransaction) (w : World)
      → (IsKept w
          → (lookup t.transaction_id w.transactions ≡ some t)
            × Entry w.ids_issued t.transaction_id t)
      → Progress w (update_found env u (some t) w).1
  unfolding update_found
  update_found-Progress u t w there = elim (validate_transition_cases t.status u.status) [
    | inl (_, valid) ↦
        let allowed = validate_transition_ok t.status u.status valid in
        rw valid (
          Progress-write u t w there allowed.0 allowed.1 (env.clock w.clock_reads)
            (suc w.clock_reads))
    | inr (_, raised) ↦ rw raised (Progress-Preorder.reflexive w)
  ]

  -- An update keeps the invariant, and changes a stored transaction only from pending to a terminal
  -- status, with its deal unchanged.
  pub update_transaction_status-Progress :
      (u : StatusUpdate) → Respects Progress (update_transaction_status env u)
  unfolding update_transaction_status find_by_checkout_request_id update_found
  update_transaction_status-Progress u = record {
    at = λ w. elim (Option-cases (find_by_checkout_request_id u.checkout_request_id w)) [
      | inl missing ↦ rw missing (Progress-Preorder.reflexive w)
      | inr (t, found) ↦ rw found (
          update_found-Progress u t w (λ k.
            lookup-first (has_checkout_request_id u.checkout_request_id) w.ids_issued w.transactions
              t k.is_dict k.entries found))
    ];
  }
