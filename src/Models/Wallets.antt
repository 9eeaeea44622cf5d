-- ===== src/Models/Wallets.antt =====
-- internal/wallets/models.go, and the row of the table `accounts`.
use go_wallet_ledger.Base.{ℕ, String, Bool, true, false, ◌==◌}
use go_wallet_ledger.Base.Int.{ℤ}
use go_wallet_ledger.Models.Ledger.{TransactionType, TransactionStatus, Direction}

pub data WalletStatus : Type 0 where
  active frozen closed : WalletStatus

-- `status == StatusActive`
abbrev pub is_active : WalletStatus → Bool
is_active WalletStatus.active = true
is_active WalletStatus.frozen = false
is_active WalletStatus.closed = false

pub record Account : Type 0 where
  pub id : String
  pub account_type : String
  pub currency : String
  pub created_at : ℕ

pub record Wallet : Type 0 where
  pub id : String
  pub owner_id : String
  pub account_id : String
  pub currency : String
  pub available_balance : ℤ
  pub locked_balance : ℤ
  pub status : WalletStatus
  pub version : ℤ
  pub created_at : ℕ
  pub updated_at : ℕ

-- `WHERE id = …` and `SET available_balance = …` of the statements on `wallets`.
abbrev pub has_id : String → Wallet → Bool
has_id key w = w.id == key

abbrev pub rebalance : (ℤ → ℤ) → Wallet → Wallet
rebalance f w = record w { available_balance = f w.available_balance }

pub record CreateWalletRequest : Type 0 where
  pub currency : String

pub record BalanceResponse : Type 0 where
  pub wallet_id : String
  pub currency : String
  pub available_balance : ℤ
  pub locked_balance : ℤ
  pub ledger_balance : ℤ

-- A line of a wallet's history: an entry with its transaction's reference.
pub record Transaction : Type 0 where
  pub id : String
  pub reference_id : String
  pub reference_type : TransactionType
  pub amount : ℤ
  pub direction : Direction
  pub currency : String
  pub status : TransactionStatus
  pub created_at : ℕ
