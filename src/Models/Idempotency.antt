-- ===== src/Models/Idempotency.antt =====
-- The key records of internal/idempotency/repository.go, and the JSON documents stored in them.
use go_wallet_ledger.Base.{ℕ, String, Option}
use go_wallet_ledger.Models.Errors.{Error}
use go_wallet_ledger.Models.Transfers.{Transfer, CreateTransferRequest}

pub data Status : Type 0 where
  in_progress completed : Status

-- The documents that the transfer handler stores: `{"error": err.Error()}`, the constant
-- `{"error":"unauthorized access to source wallet"}`, or a transfer.
pub data ResponsePayload : Type 0 where
  error_document : Error → ResponsePayload
  forbidden_document : ResponsePayload
  transfer_document : Transfer → ResponsePayload

pub record KeyRecord : Type 0 where
  pub key : String
  pub status : Status
  pub request_payload : CreateTransferRequest
  pub response_payload : Option ResponsePayload
  pub response_status : Option ℕ
