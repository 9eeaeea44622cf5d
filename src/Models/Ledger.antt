-- ===== src/Models/Ledger.antt =====
-- internal/ledger/models.go.
use go_wallet_ledger.Base.{ℕ, String, List}
use go_wallet_ledger.Base.Int.{ℤ}

-- `other` is a text that is neither constant, which `CreateTransaction` refuses.
pub data Direction : Type 0 where
  debit credit : Direction
  other : String → Direction

pub data TransactionType : Type 0 where
  transfer payment refund adjustment reversal fee : TransactionType

pub data TransactionStatus : Type 0 where
  pending completed failed : TransactionStatus

pub record Entry : Type 0 where
  pub id : String
  pub transaction_id : String
  pub account_id : String
  pub amount : ℤ
  pub direction : Direction
  pub currency : String
  pub created_at : ℕ

pub record Transaction : Type 0 where
  pub id : String
  pub reference_id : String
  pub reference_type : TransactionType
  pub status : TransactionStatus
  pub created_at : ℕ
  pub entries : List Entry
