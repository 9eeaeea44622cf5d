-- ===== src/Wallets.antt =====
-- internal/wallets/repository.go.
pub mod Service
pub mod Handler
pub mod Soundness
pub mod Access
use go_wallet_ledger.Base.{
  ℕ, String, List, [], ◌∷◌, ◌++◌, Bool, true, false, not, ◌==◌, ◌&&◌, ◌||◌, if◌then◌else◌, leb,
  chars, some_row, find_row, keep, take, sort_by, sort_desc, update_rows,
}
use go_wallet_ledger.Base.Int.{ℤ, pos, ◌+₆₄◌}
use go_wallet_ledger.Models.Errors.{Error}
use go_wallet_ledger.Models.Auth.{User}
use go_wallet_ledger.Models.Ledger
use go_wallet_ledger.Models.Ledger.{Entry}
use go_wallet_ledger.Models.Wallets.{Wallet, WalletStatus, Account, Transaction, has_id}
use go_wallet_ledger.Store.{
  Engine, Tables, World, Action, ◌>>=◌, ◌>>◌, pure, raise, gets, or_raise, guard, write, statement,
  transaction, uuid,
}

abbrev pub account_constraints : Account → Tables → List (Bool × Error)
account_constraints row t =
    (leb (chars row.account_type) 50, Error.value_too_long)
    ∷ (leb (chars row.currency) 3, Error.value_too_long)
    ∷ (not (some_row (λ (a : Account). a.id == row.id) t.accounts), Error.unique_violation)
    ∷ []

abbrev pub account_row : Engine → ℕ → String → String → Account
account_row e n account_type currency = record {
  id = e.fresh_id n;
  account_type = account_type;
  currency = currency;
  created_at = e.now n;
}

-- `INSERT INTO accounts … RETURNING id`
unfoldable pub insert_account : Engine → String → String → Action String
insert_account e account_type currency = statement e λ n. do
  let row = account_row e n account_type currency
  write (account_constraints row) (λ t. record t { accounts = t.accounts ++ row ∷ [] })
  pure row.id

-- The constraints of `wallets`; the balances of a new row are 0.
abbrev pub wallet_constraints : Wallet → Tables → List (Bool × Error)
wallet_constraints row t =
    (leb (chars row.currency) 3, Error.value_too_long)
    ∷ (not (some_row (has_id row.id) t.wallets), Error.unique_violation)
    ∷ (some_row (λ (u : User). u.id == row.owner_id) t.users, Error.foreign_key_violation)
    ∷ (some_row (λ (a : Account). a.id == row.account_id) t.accounts, Error.foreign_key_violation)
    ∷ []

abbrev pub wallet_row : Engine → ℕ → String → String → String → Wallet
wallet_row e n owner account currency = record {
  id = e.fresh_id n;
  owner_id = owner;
  account_id = account;
  currency = currency;
  available_balance = pos 0;
  locked_balance = pos 0;
  status = WalletStatus.active;
  version = pos 1;
  created_at = e.now n;
  updated_at = e.now n;
}

-- `INSERT INTO wallets … RETURNING …`
unfoldable pub insert_wallet : Engine → String → String → String → Action Wallet
insert_wallet e owner_id account_id currency = statement e λ n. do
  owner ← uuid e owner_id
  account ← uuid e account_id
  write (wallet_constraints (wallet_row e n owner account currency))
      (λ t. record t { wallets = t.wallets ++ wallet_row e n owner account currency ∷ [] })
  pure (wallet_row e n owner account currency)

unfoldable pub create_body : Engine → String → String → String → Action Wallet
unfolding insert_account insert_wallet
create_body e owner_id account_type currency = do
  account_id ← insert_account e account_type currency
  insert_wallet e owner_id account_id currency

-- `CreateWalletAndAccount`
unfoldable pub create_wallet_and_account : Engine → String → String → String → Action Wallet
unfolding create_body
create_wallet_and_account e owner_id account_type currency =
    transaction e (create_body e owner_id account_type currency)

-- `GetWalletByID`
unfoldable pub get_wallet_by_id : Engine → String → Action Wallet
get_wallet_by_id e id = statement e λ n. do
  key ← uuid e id
  row ← gets (λ t. find_row (has_id key) t.wallets)
  found ← or_raise row Error.wallet_not_found
  pure found

abbrev pub set_status : ℕ → WalletStatus → Wallet → Wallet
set_status now status r = record r { status = status; updated_at = now }

-- `UpdateWalletStatus`: no row affected is an error.
unfoldable pub update_wallet_status : Engine → String → WalletStatus → Action (Unit {0})
update_wallet_status e id status = statement e λ n. do
  key ← uuid e id
  affected ← gets (λ t. some_row (has_id key) t.wallets)
  write (λ _. [])
      (λ t. record t { wallets = update_rows (has_id key) (set_status (e.now n) status) t.wallets })
  guard affected Error.wallet_not_found
  pure tt

-- `JOIN ledger_transactions t ON e.transaction_id = t.id`, the rows of one entry.
abbrev join_entry : Entry → List Ledger.Transaction → List Transaction
join_entry x [] = []
join_entry x (t ∷ ts) =
    let line : Transaction = record {
      id = x.id;
      reference_id = t.reference_id;
      reference_type = t.reference_type;
      amount = x.amount;
      direction = x.direction;
      currency = x.currency;
      status = t.status;
      created_at = x.created_at;
    } in
    if x.transaction_id == t.id then line ∷ join_entry x ts else join_entry x ts

abbrev join_entries : List Entry → List Ledger.Transaction → List Transaction
join_entries [] ts = []
join_entries (x ∷ xs) ts = join_entry x ts ++ join_entries xs ts

-- The query of `GetTransactions`.
abbrev pub history : String → Tables → List Transaction
history account t = take 100 (
    sort_desc (λ (l : Transaction). l.created_at)
      (join_entries (keep (λ x. x.account_id == account) t.ledger_entries) t.ledger_transactions))

-- The repository's `GetTransactions`
unfoldable pub list_transactions : Engine → String → Action (List Transaction)
list_transactions e account_id =
    statement e λ n. do account ← uuid e account_id; lines ← gets (history account); pure lines

-- `GetWalletsByOwner`
unfoldable pub get_wallets_by_owner : Engine → String → Action (List Wallet)
get_wallets_by_owner e owner_id = statement e λ n. do
  owner ← uuid e owner_id
  rows ← gets (λ t.
      sort_by (λ (r : Wallet). r.created_at) (keep (λ (r : Wallet). r.owner_id == owner) t.wallets))
  pure rows
