-- ===== src/Models/Errors.antt =====
-- The errors of the packages, as values. A text that `fmt.Errorf` wraps around an error with `%w`
-- is a constructor that keeps the error; what the database reports comes first.
use go_wallet_ledger.Base.{String}
use go_wallet_ledger.Models.Payments.{PaymentStatus}

pub data Error : Type 0 where
  -- the driver and the database
  unavailable no_rows unique_violation foreign_key_violation check_violation : Error
  out_of_range invalid_uuid value_too_long : Error
  -- internal/ledger/repository.go
  empty_entries multi_currency entry_amount_not_positive invalid_direction imbalanced_ledger : Error
  -- internal/wallets
  wallet_not_found unauthorized_wallet_access currency_required : Error
  -- internal/transfers/service.go
  insufficient_funds same_wallet currency_mismatch amount_not_positive wallets_not_active : Error
  lock_failed : String → Error → Error
  ledger_failed outbox_failed : Error → Error
  -- internal/payments/service.go
  invalid_state_transition : PaymentStatus → PaymentStatus → Error
  payment_not_found duplicate_webhook malformed_payload : Error
  -- internal/idempotency/repository.go
  key_in_progress : Error
  -- internal/auth
  user_not_found user_exists invalid_credentials hashing_failed signing_failed : Error
