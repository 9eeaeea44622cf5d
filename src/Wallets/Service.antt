-- ===== src/Wallets/Service.antt =====
-- internal/wallets/service.go.
use go_wallet_ledger.Base.{String, List, Bool, true, false, not, ◌==◌, ◌||◌}
use go_wallet_ledger.Base.Int.{◌+₆₄◌}
use go_wallet_ledger.Models.Errors.{Error}
use go_wallet_ledger.Models.Auth.{Role, role_text}
use go_wallet_ledger.Models.Wallets.{
  Wallet, WalletStatus, CreateWalletRequest, BalanceResponse, Transaction,
}
use go_wallet_ledger.Store.{Engine, Action, ◌>>=◌, ◌>>◌, pure, guard}
use go_wallet_ledger.Wallets.{
  create_wallet_and_account, get_wallet_by_id, update_wallet_status, list_transactions,
  get_wallets_by_owner,
}

-- The service's `CreateWallet`
unfoldable pub create_wallet : Engine → CreateWalletRequest → String → Role → Action Wallet
unfolding create_wallet_and_account
create_wallet e req owner_id role = do
  guard (not (req.currency == "")) Error.currency_required
  create_wallet_and_account e owner_id (role_text role) req.currency

abbrev pub is_system : Role → Bool
is_system Role.system = true
is_system _ = false

abbrev pub is_admin : Role → Bool
is_admin Role.admin = true
is_admin _ = false

-- The owner, the system and the admins may look at a wallet.
abbrev pub may_view : Wallet → String → Role → Bool
may_view wallet caller_id role = wallet.owner_id == caller_id || is_system role || is_admin role

-- The service's `GetWallet`
unfoldable pub get_wallet : Engine → String → String → Role → Action Wallet
unfolding get_wallet_by_id
get_wallet e id caller_id role = do
  wallet ← get_wallet_by_id e id
  guard (may_view wallet caller_id role) Error.unauthorized_wallet_access
  pure wallet

abbrev pub balance_of : Wallet → BalanceResponse
balance_of w = record {
  wallet_id = w.id;
  currency = w.currency;
  available_balance = w.available_balance;
  locked_balance = w.locked_balance;
  ledger_balance = w.available_balance +₆₄ w.locked_balance;
}

-- The service's `GetBalance`
unfoldable pub get_balance : Engine → String → String → Role → Action BalanceResponse
unfolding get_wallet
get_balance e id caller_id role = do w ← get_wallet e id caller_id role; pure (balance_of w)

unfoldable pub freeze_wallet : Engine → String → Action (Unit {0})
unfolding update_wallet_status
freeze_wallet e id = update_wallet_status e id WalletStatus.frozen

unfoldable pub unfreeze_wallet : Engine → String → Action (Unit {0})
unfolding update_wallet_status
unfreeze_wallet e id = update_wallet_status e id WalletStatus.active

-- The service's `GetTransactions`
unfoldable pub get_transactions : Engine → String → String → Role → Action (List Transaction)
unfolding get_wallet list_transactions
get_transactions e id caller_id role = do
  w ← get_wallet e id caller_id role
  list_transactions e w.account_id

-- The service's `GetWallets`
unfoldable pub get_wallets : Engine → String → Action (List Wallet)
unfolding get_wallets_by_owner
get_wallets e caller_id = get_wallets_by_owner e caller_id
