-- ===== src/Models/Transfers.antt =====
-- internal/transfers/models.go.
use go_wallet_ledger.Base.{ℕ, String}
use go_wallet_ledger.Base.Int.{ℤ}

pub data TransferStatus : Type 0 where
  pending completed failed : TransferStatus

pub record Transfer : Type 0 where
  pub id : String
  pub source_wallet_id : String
  pub destination_wallet_id : String
  pub amount : ℤ
  pub currency : String
  pub status : TransferStatus
  pub idempotency_key : String
  pub created_at : ℕ

pub record CreateTransferRequest : Type 0 where
  pub source_wallet_id : String
  pub destination_wallet_id : String
  pub amount : ℤ
  pub currency : String
