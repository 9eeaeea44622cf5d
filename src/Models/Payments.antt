-- ===== src/Models/Payments.antt =====
-- internal/payments/models.go, and the structs of internal/payments/provider.go.
use go_wallet_ledger.Base.{ℕ, String, Bool, true, false}
use go_wallet_ledger.Base.Int.{ℤ}

-- The account that stands for the outside world in a payment's debit.
abbrev pub platform_account : String
platform_account = "00000000-0000-0000-0000-000000000000"

-- `other` is a text that is none of the constants, which a webhook may carry.
pub data PaymentStatus : Type 0 where
  created processing succeeded failed : PaymentStatus
  refund_requested partially_refunded refunded reversed : PaymentStatus
  other : String → PaymentStatus

-- `status == StatusSucceeded`
abbrev pub is_succeeded : PaymentStatus → Bool
is_succeeded PaymentStatus.succeeded = true
is_succeeded _ = false

abbrev pub is_failed : PaymentStatus → Bool
is_failed PaymentStatus.failed = true
is_failed _ = false

abbrev pub is_processing : PaymentStatus → Bool
is_processing PaymentStatus.processing = true
is_processing _ = false

pub record Payment : Type 0 where
  pub id : String
  pub wallet_id : String
  pub amount : ℤ
  pub currency : String
  pub status : PaymentStatus
  pub provider_reference : String
  pub created_at : ℕ
  pub updated_at : ℕ

pub record ProviderResponse : Type 0 where
  pub reference_id : String
  pub status : PaymentStatus

pub record WebhookPayload : Type 0 where
  pub event_id : String
  pub event_type : String
  pub reference_id : String
  pub status : PaymentStatus

pub data WebhookEventStatus : Type 0 where
  pending processed failed : WebhookEventStatus

-- A row of the table `webhook_events`.
pub record WebhookEvent : Type 0 where
  pub provider : String
  pub event_id : String
  pub event_type : String
  pub payload : WebhookPayload
  pub status : WebhookEventStatus
