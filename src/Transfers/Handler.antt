-- ===== src/Transfers/Handler.antt =====
-- internal/transfers/handler.go: `HandleTransfer`, after the router: the claims that the middleware
-- put into the context, the header's key and the decoded body, `none` where it is no JSON of the
-- request.
use go_wallet_ledger.Base.{ℕ, String, Option, none, some, Bool, ◌==◌, ◌||◌, if◌then◌else◌}
use go_wallet_ledger.Models.Errors.{Error}
use go_wallet_ledger.Models.Auth.{JwtClaims}
use go_wallet_ledger.Models.Wallets.{Wallet}
use go_wallet_ledger.Models.Transfers.{Transfer, CreateTransferRequest}
use go_wallet_ledger.Models.Idempotency.{KeyRecord, ResponsePayload}
use go_wallet_ledger.Store.{Engine, World, Result, ok, err}
use go_wallet_ledger.Http.{Response, Body, failure, reply, error_body, stored_json, no_body, json}
use go_wallet_ledger.Wallets.{get_wallet_by_id}
use go_wallet_ledger.Wallets.Service.{is_system}
use go_wallet_ledger.Idempotency.{try_acquire, complete}
use go_wallet_ledger.Transfers.{execute_transfer}

-- `Complete` whose error is dropped, and then the response.
unfoldable pub store_response :
    Engine → String → ResponsePayload → ℕ → Response → World → Response × World
unfolding complete
store_response e key payload status response w = (response, (complete e key payload status w).1)

abbrev pub stored_body : Option ResponsePayload → Body
stored_body none = no_body
stored_body (some payload) = json (stored_json payload)

abbrev pub stored_status : Option ℕ → ℕ
stored_status none = 0
stored_status (some status) = status

-- The response of a record that is completed.
abbrev pub cached : KeyRecord → Response
cached r = record {
  status = stored_status r.response_status;
  body = stored_body r.response_payload;
}

-- The caller owns the source wallet, or is the system.
abbrev pub may_spend : Wallet → JwtClaims → Bool
may_spend wallet claims = wallet.owner_id == claims.user_id || is_system claims.role

abbrev pub report : Engine → String → Result Transfer × World → Response × World
report e key (ok transfer, w) =
    store_response e key (ResponsePayload.transfer_document transfer) 201
      (reply 201 (stored_json (ResponsePayload.transfer_document transfer))) w
report e key (err x, w) =
    store_response e key (ResponsePayload.error_document x) 400
      (record { status = 400; body = error_body x }) w

abbrev pub forbid : Engine → String → World → Response × World
forbid e key w =
    store_response e key ResponsePayload.forbidden_document 403 (failure 403 "forbidden") w

-- From the ownership test on.
abbrev pub spend :
    Engine → JwtClaims → String → CreateTransferRequest → Result Wallet × World → Response × World
spend e claims key req (err x, w) = forbid e key w
spend e claims key req (ok wallet, w) =
    if may_spend wallet claims then report e key (execute_transfer e req key w) else forbid e key w

abbrev pub acquire_failure : Error → Response
acquire_failure Error.key_in_progress = record {
  status = 409;
  body = error_body Error.key_in_progress;
}
acquire_failure _ = failure 500 "internal server error"

-- From the answer of `TryAcquire` on.
abbrev pub proceed :
    Engine
    → JwtClaims
    → String
    → CreateTransferRequest
    → Result (Option KeyRecord) × World
    → Response × World
proceed e claims key req (err x, w) = (acquire_failure x, w)
proceed e claims key req (ok (some row), w) = (cached row, w)
proceed e claims key req (ok none, w) =
    spend e claims key req (get_wallet_by_id e req.source_wallet_id w)

-- The request that was decoded.
abbrev pub handle_request :
    Engine → JwtClaims → String → Option CreateTransferRequest → World → Response × World
handle_request e claims key none w = (failure 400 "invalid request body", w)
handle_request e claims key (some req) w = proceed e claims key req (try_acquire e key req w)

-- `HandleTransfer`
unfoldable pub handle_transfer :
    Engine → Option JwtClaims → String → Option CreateTransferRequest → World → Response × World
unfolding store_response try_acquire get_wallet_by_id execute_transfer
handle_transfer e none key body w = (failure 401 "unauthorized", w)
handle_transfer e (some claims) key body w =
    if key == ""
    then (failure 400 "Idempotency-Key header is required", w)
    else handle_request e claims key body w
