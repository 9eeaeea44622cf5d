-- ===== src/Http.antt =====
-- What the handlers write: a status code and a body.
use go_wallet_ledger.Base.{ℕ, String, List}
use go_wallet_ledger.Models.Errors.{Error}
use go_wallet_ledger.Models.Auth.{AuthResponse}
use go_wallet_ledger.Models.Wallets.{Wallet, BalanceResponse}
use go_wallet_ledger.Models.Wallets
use go_wallet_ledger.Models.Idempotency.{ResponsePayload}
use go_wallet_ledger.Models.Payments.{Payment}
use go_wallet_ledger.Models.Reconciliation.{Run}

-- The values that are encoded as JSON.
pub data Document : Type 0 where
  wallet_json : Wallet → Document
  wallets_json : List Wallet → Document
  balance_json : BalanceResponse → Document
  transactions_json : List Wallets.Transaction → Document
  stored_json : ResponsePayload → Document
  payment_json : Payment → Document
  runs_json : List Run → Document
  auth_json : AuthResponse → Document

-- `error_body` is the text `err.Error()`.
pub data Body : Type 0 where
  no_body : Body
  message : String → Body
  error_body : Error → Body
  json : Document → Body

pub record Response : Type 0 where
  pub status : ℕ
  pub body : Body

-- `http.Error(w, text, status)`
abbrev pub failure : ℕ → String → Response
failure status text = record { status = status; body = message text }

abbrev pub reply : ℕ → Document → Response
reply status document = record { status = status; body = json document }
