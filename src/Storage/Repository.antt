-- ===== src/Storage/Repository.antt =====
-- `InMemoryTransactionRepository` of app/storage/repositories.py.
pub mod Recent
use mpesa_mcp_server.Common.{
  ℕ, String, Bool, false, Option, none, some, List, ◌==◌, first, keep, eqb,
}
use mpesa_mcp_server.Common.Recent.{recent}
use mpesa_mcp_server.Common.Dict.{lookup, insert, values}
use mpesa_mcp_server.Common.Exec.{Exec, pure, lift, gets, modify, ◌>>=◌, ◌>>◌}
use mpesa_mcp_server.Transactions.StateMachine.{validate_transition}
use mpesa_mcp_server.Storage.Records.{PendingTransaction, NewTransaction, StatusUpdate}
use mpesa_mcp_server.World.{Env, World, now, new_id}

unfoldable pub get_transaction : String → World → Option PendingTransaction
get_transaction transaction_id w = lookup transaction_id w.transactions

abbrev pub has_checkout_request_id : String → PendingTransaction → Bool
has_checkout_request_id checkout_request_id t = t.checkout_request_id == checkout_request_id

unfoldable pub find_by_checkout_request_id : String → World → Option PendingTransaction
find_by_checkout_request_id checkout_request_id w =
    first (has_checkout_request_id checkout_request_id) (values w.transactions)

-- `a == b` for an optional text and a text
abbrev pub is_text : Option String → String → Bool
is_text none b = false
is_text (some a) b = a == b

abbrev pub has_idempotency_key : String → PendingTransaction → Bool
has_idempotency_key key t = is_text t.idempotency_key key

unfoldable pub find_by_idempotency_key : String → World → Option PendingTransaction
find_by_idempotency_key key w = first (has_idempotency_key key) (values w.transactions)

unfoldable pub list_transactions : World → List PendingTransaction
list_transactions w = values w.transactions

unfoldable pub list_transactions_by_status : String → World → List PendingTransaction
list_transactions_by_status status w = keep (λ t. t.status == status) (values w.transactions)

-- `date` takes a time to the number of its day.
unfoldable pub list_transactions_for_date : (ℕ → ℕ) → ℕ → World → List PendingTransaction
list_transactions_for_date date target_date w =
    keep (λ t. eqb (date t.created_at) target_date) (values w.transactions)

-- `self._transactions[transaction.transaction_id] = transaction`
unfoldable pub store : PendingTransaction → Exec World Unit
store t = modify (λ w. record w { transactions = insert t.transaction_id t w.transactions })

-- `model_copy(update={...})` in `update_transaction_status`
abbrev pub updated : StatusUpdate → ℕ → PendingTransaction → PendingTransaction
updated u time t = record t {
  status = u.status;
  result_code = some u.result_code;
  result_description = some u.result_description;
  mpesa_receipt_number = u.mpesa_receipt_number;
  updated_at = time;
}

-- The transaction that `save_pending_transaction` builds.
abbrev pub pending_transaction : NewTransaction → String → ℕ → ℕ → PendingTransaction
pending_transaction args transaction_id created_at updated_at = record {
  transaction_id = transaction_id;
  idempotency_key = args.idempotency_key;
  provider = args.provider;
  rail = args.rail;
  provider_transaction_id = args.provider_transaction_id;
  provider_reference = args.provider_reference;
  phone_number = args.phone_number;
  amount = args.amount;
  account_reference = args.account_reference;
  description = args.description;
  checkout_request_id = args.checkout_request_id;
  merchant_request_id = args.merchant_request_id;
  created_at = created_at;
  updated_at = updated_at;
  status = "pending";
  result_code = none;
  result_description = none;
  mpesa_receipt_number = none;
}

unfoldable pub list_recent_transactions : ℕ → World → List PendingTransaction
list_recent_transactions limit w = recent (λ t. t.created_at) limit (values w.transactions)

module _ (env : Env) where
  unfoldable pub save_pending_transaction : NewTransaction → Exec World PendingTransaction
  unfolding now new_id store
  save_pending_transaction args = do
    transaction_id ← new_id env
    created_at ← now env
    updated_at ← now env
    let transaction = pending_transaction args transaction_id created_at updated_at
    store transaction
    pure transaction

  -- After the search: the move is validated before anything is written.
  unfoldable pub update_found :
      StatusUpdate → Option PendingTransaction → Exec World (Option PendingTransaction)
  unfolding now store
  update_found u none = pure none
  update_found u (some transaction) = do
    lift (validate_transition transaction.status u.status)
    time ← now env
    let updated_transaction = updated u time transaction
    store updated_transaction
    pure (some updated_transaction)

  unfoldable pub update_transaction_status : StatusUpdate → Exec World (Option PendingTransaction)
  unfolding update_found
  update_transaction_status u = do
    found ← gets (find_by_checkout_request_id u.checkout_request_id)
    update_found u found
