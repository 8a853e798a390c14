-- ===== src/Storage/Evolution.antt =====
-- The relation between a stored transaction of app/storage/repositories.py and what it may become.
use mpesa_mcp_server.Common.{
  String, ◌≡◌, refl, sym, subst, ◌∙◌, ◌⊎◌, inl, inr, none, some, arith, ◌==◌, eq_iff, Bool-cases,
}
use mpesa_mcp_server.Common.Dict.{Dict, lookup, insert, lookup-insert}
use mpesa_mcp_server.Transactions.StateMachine.Laws.{IsTerminal, not-IsTerminal-pending}
use mpesa_mcp_server.Storage.Records.{PendingTransaction}

-- The fields that no update touches.
pub record SameDeal (t u : PendingTransaction) : Type 0 where
  pub transaction_id : u.transaction_id ≡ t.transaction_id
  pub idempotency_key : u.idempotency_key ≡ t.idempotency_key
  pub provider : u.provider ≡ t.provider
  pub rail : u.rail ≡ t.rail
  pub provider_transaction_id : u.provider_transaction_id ≡ t.provider_transaction_id
  pub provider_reference : u.provider_reference ≡ t.provider_reference
  pub phone_number : u.phone_number ≡ t.phone_number
  pub amount : u.amount ≡ t.amount
  pub account_reference : u.account_reference ≡ t.account_reference
  pub description : u.description ≡ t.description
  pub checkout_request_id : u.checkout_request_id ≡ t.checkout_request_id
  pub merchant_request_id : u.merchant_request_id ≡ t.merchant_request_id
  pub created_at : u.created_at ≡ t.created_at

-- `u` is `t`, or `t` was pending and `u` is `t` in a terminal status.
abbrev pub Advances : PendingTransaction → PendingTransaction → Type 0
Advances t u = (u ≡ t) ⊎ (SameDeal t u × (t.status ≡ "pending") × IsTerminal u.status)

pub Advances-trans : {t u v : PendingTransaction} → Advances t u → Advances u v → Advances t v
Advances-trans (inl e) (inl f) = inl (f ∙ e)
Advances-trans {t} {u} {v} (inl e) (inr h) = subst (λ x. Advances x v) e (inr h)
Advances-trans {t} {u} {v} (inr h) (inl f) = subst (λ x. Advances t x) (sym f) (inr h)
Advances-trans {t} {u} {v} (inr h) (inr k) = absurd (not-IsTerminal-pending u.status h.2 k.1)

abbrev pub Evolves : Dict PendingTransaction → Dict PendingTransaction → Type 0
Evolves d e =
    (k : String) (t : PendingTransaction)
    → lookup k d ≡ some t
    → (u : PendingTransaction) × (lookup k e ≡ some u) × Advances t u

pub Evolves-refl : (d : Dict PendingTransaction) → Evolves d d
Evolves-refl d k t h = (t, h, inl refl)

pub Evolves-trans : (d e f : Dict PendingTransaction) → Evolves d e → Evolves e f → Evolves d f
Evolves-trans d e f g h k t found =
    let (u, found', step) = g k t found in
    let (v, found'', step') = h k u found' in (v, found'', Advances-trans step step')

-- A new entry changes no other.
pub insert-Evolves_new :
    (id : String) (t : PendingTransaction) (d : Dict PendingTransaction)
    → lookup id d ≡ none
    → Evolves d (insert id t d)
insert-Evolves_new id t d fresh k u found =
    (u, ground (arith, eq_iff id k, lookup-insert id k t d), inl refl)

-- Nor does a write of what the entry there may become.
pub insert-Evolves :
    (id : String) (t u : PendingTransaction) (d : Dict PendingTransaction)
    → lookup id d ≡ some t
    → Advances t u
    → Evolves d (insert id u d)
insert-Evolves id t u d there step k s found = elim (Bool-cases (id == k)) [
  | inl same ↦
      let here : s ≡ t = ground (arith, eq_iff id k) in
      (u, rw (lookup-insert, same), subst (λ x. Advances x u) (sym here) step)
  | inr other ↦ (s, rw (lookup-insert, other) found, inl refl)
]
