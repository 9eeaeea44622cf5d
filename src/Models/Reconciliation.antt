-- ===== src/Models/Reconciliation.antt =====
-- internal/reconciliation/models.go, and the mismatch maps of its repository.
use go_wallet_ledger.Base.{ℕ, String, Option}
use go_wallet_ledger.Base.Int.{ℤ}

pub data RunStatus : Type 0 where
  in_progress passed failed : RunStatus

pub record Run : Type 0 where
  pub id : String
  pub status : RunStatus
  pub wallets_checked : ℤ
  pub ledger_transactions_checked : ℤ
  pub mismatches_found : ℤ
  pub started_at : ℕ
  pub completed_at : Option ℕ

-- The map with the keys `wallet_id`, `wallet_total`, `ledger_total` and `difference`.
pub record Mismatch : Type 0 where
  pub wallet_id : String
  pub wallet_total : ℤ
  pub ledger_total : ℤ
  pub difference : ℤ

-- The texts that the worker formats into `details`. A key that the map lacks reads as nil.
pub data Details : Type 0 where
  imbalanced : (debits credits : ℤ) → Details
  expected_got : (expected actual : Option ℤ) → Details

pub record Item : Type 0 where
  pub id : String
  pub run_id : String
  pub entity_type : String
  pub entity_id : String
  pub mismatch_type : String
  pub details : Details
  pub created_at : ℕ
