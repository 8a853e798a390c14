-- ===== src/Storage/Repository/Recent.antt =====
-- The list of recent transactions of app/storage/repositories.py.
use mpesa_mcp_server.Common.{ℕ, ◌≡◌, ◌≤◌, ◌⊎◌, List, [], ◌++◌, length}
use mpesa_mcp_server.Common.Dict.{values}
use mpesa_mcp_server.Common.Recent.{IsDescending, recent_lem}
use mpesa_mcp_server.Storage.Records.{PendingTransaction}
use mpesa_mcp_server.Storage.Repository.{list_recent_transactions}
use mpesa_mcp_server.World.{World}
use mathlib.Core.List.{Perm}

-- The recent transactions, with some others after them, are the stored ones from the newest to the
-- oldest; they are as many as the limit, or fewer and then all that are stored.
pub list_recent_transactions_lem :
    (limit : ℕ) (w : World)
    → let listed = list_recent_transactions limit w in
      (others : List PendingTransaction) × Perm (listed ++ others) (values w.transactions)
      × IsDescending (λ t. t.created_at) (listed ++ others)
      × ((length listed ≡ limit) ⊎ ((length listed ≤ limit) × (others ≡ [])))
unfolding list_recent_transactions
list_recent_transactions_lem limit w = recent_lem (λ t. t.created_at) limit (values w.transactions)
