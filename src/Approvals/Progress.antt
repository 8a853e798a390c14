-- ===== src/Approvals/Progress.antt =====
-- The invariant of the approval store of app/approvals, and what each call may do to it.
use mpesa_mcp_server.Common.{
  ℕ, suc, ◌≤◌, String, ◌≡◌, refl, ◌∙◌, false, none, some, List, [], ◌∷◌, ◌++◌, arith, ◌==◌, eq_iff,
  contains, length, Option-cases, inl, inr,
}
use mpesa_mcp_server.Common.Dict.{
  Dict, lookup, insert, IsDict, insert-IsDict, AllEntries, insert-AllEntries, AllEntries-lookup,
}
use mpesa_mcp_server.Common.Exec.Respects.{Preorder}
use mpesa_mcp_server.Approvals.Models.{ApprovalRequest}
use mpesa_mcp_server.Approvals.Evolution.{
  Advances, Evolves, Evolves-refl, Evolves-trans, insert-Evolves, insert-Evolves_new,
}
use mpesa_mcp_server.World.{Env, World, IsIssued}

-- No text stands twice.
abbrev pub Distinct : List String → Type 0
Distinct [] = Unit
Distinct (x ∷ xs) = (contains xs x ≡ false) × Distinct xs

contains-append :
    (xs : List String) (x y : String)
    → contains xs x ≡ false
    → (y == x) ≡ false
    → contains (xs ++ y ∷ []) x ≡ false
contains-append [] x y h ne = ground arith
contains-append (z ∷ xs) x y h ne = ground (arith, contains-append xs x y)

pub Distinct-append :
    (xs : List String) (y : String) → Distinct xs → contains xs y ≡ false → Distinct (xs ++ y ∷ [])
Distinct-append [] y h new = (refl, tt)
Distinct-append (x ∷ xs) y h new = (
  contains-append xs x y h.0 (ground (arith, eq_iff x y, eq_iff y x)),
  Distinct-append xs y h.1 (ground arith),
)

-- The reviews are counted, no operator counts twice, and an approved request has had enough.
pub record IsReviewed (a : ApprovalRequest) : Type 0 where
  pub counted : a.review_count ≡ length a.reviewer_ids
  pub distinct : Distinct a.reviewer_ids
  pub enough : a.status ≡ "approved" → a.required_reviewers ≤ a.review_count

module _ (env : Env) where
  pub record Entry (n : ℕ) (k : String) (a : ApprovalRequest) : Type 0 where
    pub key : a.approval_id ≡ k
    pub issued : IsIssued env n k
    pub reviewed : IsReviewed a

  pub record IsKept (w : World) : Type 0 where
    pub is_dict : IsDict w.approvals
    pub entries : AllEntries (Entry w.ids_issued) w.approvals

  pub record Progress (w v : World) : Type 0 where
    pub ids : w.ids_issued ≤ v.ids_issued
    pub kept : IsKept w → IsKept v
    pub evolves : IsKept w → Evolves w.approvals v.approvals

  AllEntries-mono :
      (n m : ℕ) (d : Dict ApprovalRequest) → n ≤ m → AllEntries (Entry n) d → AllEntries (Entry m) d
  AllEntries-mono n m [] h e = tt
  AllEntries-mono n m ((k, a) ∷ d) h e = (
    record {
      key = e.0.key;
      issued = (e.0.issued.0, omega (arith, e.0.issued.1), e.0.issued.2);
      reviewed = e.0.reviewed;
    },
    AllEntries-mono n m d h e.1,
  )

  -- A call that leaves the approvals alone.
  pub Progress-idle :
      (w v : World) → w.ids_issued ≤ v.ids_issued → v.approvals ≡ w.approvals → Progress w v
  Progress-idle w v h e = record {
    ids = h;
    kept = λ k. record {
      is_dict = rw e k.is_dict;
      entries = rw e (AllEntries-mono w.ids_issued v.ids_issued w.approvals h k.entries);
    };
    evolves = λ k. rw e (Evolves-refl w.approvals);
  }

  instance pub Progress-Preorder : Preorder Progress
  Progress-Preorder = record {
    reflexive = λ w. Progress-idle w w (omega arith) refl;
    transitive = λ w v u p q. record {
      ids = omega (arith, p.ids, q.ids);
      kept = λ k. q.kept (p.kept k);
      evolves = λ k.
          Evolves-trans w.approvals v.approvals u.approvals (p.evolves k) (q.evolves (p.kept k));
    };
  }

  -- A write under its own identifier of what the request there may become.
  pub Progress-write :
      (w : World) (a b : ApprovalRequest) (k : String) (reads : ℕ)
      → (IsKept w → lookup k w.approvals ≡ some a)
      → (IsReviewed a → Advances a b × IsReviewed b)
      → Progress w (record w { approvals = insert k b w.approvals; clock_reads = reads })
  Progress-write w a b k reads there step = record {
    ids = omega arith;
    kept = λ kept.
        let entry =
          AllEntries-lookup (Entry w.ids_issued) k a w.approvals kept.entries (there kept) in
        let (moved, reviewed) = step entry.reviewed in
        record {
          is_dict = insert-IsDict k b w.approvals kept.is_dict;
          entries = insert-AllEntries (Entry w.ids_issued) k b w.approvals kept.entries (record {
            key = moved.approval_id ∙ entry.key;
            issued = entry.issued;
            reviewed = reviewed;
          });
        };
    evolves = λ kept.
        let entry =
          AllEntries-lookup (Entry w.ids_issued) k a w.approvals kept.entries (there kept) in
        insert-Evolves k a b w.approvals (there kept) (step entry.reviewed).0;
  }

  -- A new request under the next identifier.
  pub Progress-insert :
      (w : World) (a : ApprovalRequest) (reads : ℕ)
      → a.approval_id ≡ env.new_id w.ids_issued
      → IsReviewed a
      → (IsKept w → lookup (env.new_id w.ids_issued) w.approvals ≡ none)
      → let id = env.new_id w.ids_issued in
        Progress w (record w {
          approvals = insert id a w.approvals;
          clock_reads = reads;
          ids_issued = suc w.ids_issued;
        })
  Progress-insert w a reads key reviewed fresh =
      let id = env.new_id w.ids_issued in
      record {
        ids = omega arith;
        kept = λ k. record {
          is_dict = insert-IsDict id a w.approvals k.is_dict;
          entries =
              insert-AllEntries (Entry (suc w.ids_issued)) id a w.approvals
                (AllEntries-mono w.ids_issued (suc w.ids_issued) w.approvals (omega arith)
                  k.entries)
                (record {
                  key = key;
                  issued = (w.ids_issued, omega arith, refl);
                  reviewed = reviewed;
                });
        };
        evolves = λ k. insert-Evolves_new id a w.approvals (fresh k);
      }

  module _ (issue_once : (i j : ℕ) → env.new_id i ≡ env.new_id j → i ≡ j) where
    pub fresh_key : (w : World) → IsKept w → lookup (env.new_id w.ids_issued) w.approvals ≡ none
    fresh_key w k = elim (Option-cases (lookup (env.new_id w.ids_issued) w.approvals)) [
      | inl e ↦ e
      | inr (a, e) ↦
          let entry =
            AllEntries-lookup (Entry w.ids_issued) (env.new_id w.ids_issued) a w.approvals k.entries
              e in
          absurd
            (omega (arith, entry.issued.1, issue_once w.ids_issued entry.issued.0 entry.issued.2))
    ]
