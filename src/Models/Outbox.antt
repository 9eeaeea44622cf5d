-- ===== src/Models/Outbox.antt =====
-- internal/outbox/models.go, and the JSON documents that the services put into the outbox.
use go_wallet_ledger.Base.{ℕ, String, Option, Bool, true, false}
use go_wallet_ledger.Base.Int.{ℤ}
use go_wallet_ledger.Models.Errors.{Error}
use go_wallet_ledger.Models.Transfers.{TransferStatus}
use go_wallet_ledger.Models.Payments.{PaymentStatus}

pub data EventStatus : Type 0 where
  pending published failed : EventStatus

abbrev pub is_pending : EventStatus → Bool
is_pending EventStatus.pending = true
is_pending EventStatus.published = false
is_pending EventStatus.failed = false

pub data Payload : Type 0 where
  transfer_event :
      (transfer_id : String) (status : TransferStatus) (amount : ℤ) (currency : String)
      (timestamp : ℕ)
      → Payload
  payment_event :
      (payment_id : String) (status : PaymentStatus) (amount : ℤ) (currency : String) → Payload

-- `error_msg` holds the error whose text the column stores.
pub record Event : Type 0 where
  pub id : String
  pub topic : String
  pub payload : Payload
  pub status : EventStatus
  pub attempts : ℕ
  pub next_retry_at : ℕ
  pub error_msg : Option Error
  pub created_at : ℕ
  pub updated_at : ℕ
