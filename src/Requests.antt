-- ===== src/Requests.antt =====
-- internal/transfers/handler.go: calls of `HandleTransfer` that run at the same time, with the turns
-- of their transfers. A turn of a request is one call of the idempotency keys, one of the wallets, or
-- a turn of `ExecuteTransfer`.
pub mod Alone
pub mod Held
pub mod Once
use go_wallet_ledger.Base.{
  ℕ, suc, ◌<◌, String, Option, none, some, Bool, true, false, ◌==◌, if◌then◌else◌,
}
use go_wallet_ledger.Models.Auth.{JwtClaims}
use go_wallet_ledger.Models.Idempotency.{KeyRecord}
use go_wallet_ledger.Models.Transfers.{CreateTransferRequest}
use go_wallet_ledger.Models.Wallets.{Wallet}
use go_wallet_ledger.Store.{Engine, World, Result, ok, err}
use go_wallet_ledger.Http.{Response, failure}
use go_wallet_ledger.Idempotency.{try_acquire}
use go_wallet_ledger.Wallets.{get_wallet_by_id}
use go_wallet_ledger.Transfers.Handler.{acquire_failure, cached, may_spend, forbid, report}
use go_wallet_ledger.Auth.{Crypto}
use go_wallet_ledger.System.{Call, perform}
use go_wallet_ledger.Locks.{Stage, idle, ended, advance, update}

-- What a request comes with.
pub record Sent : Type 0 where
  pub caller : JwtClaims
  pub key : String
  pub body : CreateTransferRequest

-- Where a request stands that has passed the tests of its headers and its body: before `TryAcquire`,
-- answered without the key, with the key before the test of the owner, in the transfer, or answered
-- after it had the key.
pub data Phase : Type 0 where
  arrived : Phase
  turned_away : Response → Phase
  granted : Phase
  moving : Stage → Phase
  answered : Response → Phase

-- The answer of `TryAcquire`.
abbrev pub admitted : Result (Option KeyRecord) × World → Phase × World
admitted (err x, w) = (turned_away (acquire_failure x), w)
admitted (ok (some row), w) = (turned_away (cached row), w)
admitted (ok none, w) = (granted, w)

abbrev pub reply_of : Response × World → Phase × World
reply_of (response, w) = (answered response, w)

-- The test of the owner.
abbrev pub checked_owner : Engine → Sent → Result Wallet × World → Phase × World
checked_owner e r (err x, w) = reply_of (forbid e r.key w)
checked_owner e r (ok wallet, w) =
    if may_spend wallet r.caller then (moving idle, w) else reply_of (forbid e r.key w)

abbrev pub moved_on : Stage × World → Phase × World
moved_on (stage, w) = (moving stage, w)

abbrev pub transfer_turn : Engine → Sent → Stage → World → Phase × World
transfer_turn e r (ended result) w = reply_of (report e r.key (result, w))
transfer_turn e r stage w = moved_on (advance e r.body r.key stage w)

-- A turn of a request.
unfoldable pub advance_request : Engine → Sent → Phase → World → Phase × World
unfolding try_acquire get_wallet_by_id advance
advance_request e r arrived w = admitted (try_acquire e r.key r.body w)
advance_request e r granted w = checked_owner e r (get_wallet_by_id e r.body.source_wallet_id w)
advance_request e r (moving stage) w = transfer_turn e r stage w
advance_request e r (turned_away response) w = (turned_away response, w)
advance_request e r (answered response) w = (answered response, w)

-- The request has the key, or had it.
abbrev pub is_owner : Phase → Bool
is_owner arrived = false
is_owner (turned_away response) = false
is_owner granted = true
is_owner (moving stage) = true
is_owner (answered response) = true

pub record Requests : Type 0 where
  pub world : World
  pub phase : ℕ → Phase

module _ (e : Engine) (sent : ℕ → Sent) where
  abbrev pub request_turn : ℕ → Requests → Requests
  request_turn i s =
      let (phase, w) = advance_request e (sent i) (s.phase i) s.world in
      record { world = w; phase = update s.phase i phase }

  module _ (crypto : Crypto) (hmac : String → String → String) (secret : String) where
    -- Any request takes a turn, or the service answers another call in between.
    pub data RequestStep (s : Requests) : Requests → Type 0 where
      request : (i : ℕ) → RequestStep s (request_turn i s)
      call :
          (c : Call) → RequestStep s (record s { world = perform e crypto hmac secret c s.world })

    pub data RequestReach (w : World) : Requests → Type 0 where
      start : RequestReach w (record { world = w; phase = λ _. arrived })
      later : {s t : Requests} → RequestReach w s → RequestStep s t → RequestReach w t
