-- ===== src/Requests/Alone.antt =====
-- internal/transfers/handler.go: a request that nobody interrupts, which ties the turns of Requests to the
-- call of HandleTransfer.
use go_wallet_ledger.Base.{
  ℕ, zero, suc, ◌≡◌, refl, sym, ◌∙◌, Option, none, some, false, ◌==◌, Bool-cases, inl, inr,
}
use go_wallet_ledger.Models.Idempotency.{KeyRecord}
use go_wallet_ledger.Models.Transfers.{Transfer}
use go_wallet_ledger.Models.Wallets.{Wallet}
use go_wallet_ledger.Store.{Engine, World, Result, ok, err}
use go_wallet_ledger.Http.{Response}
use go_wallet_ledger.Idempotency.{try_acquire}
use go_wallet_ledger.Wallets.{get_wallet_by_id}
use go_wallet_ledger.Transfers.{execute_transfer}
use go_wallet_ledger.Transfers.Handler.{may_spend, forbid, report, spend, proceed, handle_transfer}
use go_wallet_ledger.Locks.{Stage, idle, begun, one, both, ended, advance}
use go_wallet_ledger.Locks.Alone.{turns, turns-ended, turns-execute_transfer}
use go_wallet_ledger.Requests.{
  Sent, Phase, arrived, turned_away, moving, answered, admitted, checked_owner, reply_of,
  advance_request,
}

-- `k` turns in a row.
unfoldable pub request_turns : Engine → Sent → ℕ → Phase × World → Phase × World
request_turns e r zero p = p
request_turns e r (suc k) (phase, w) = request_turns e r k (advance_request e r phase w)

-- What a request has been answered.
abbrev pub reply_in : Phase → Option Response
reply_in (turned_away response) = some response
reply_in (answered response) = some response
reply_in _ = none

-- The request has that answer, in that world.
abbrev pub Replied : Phase × World → Response × World → Type 0
Replied p r = (reply_in p.0 ≡ some r.0) × (p.1 ≡ r.1)

module _ (e : Engine) (r : Sent) where
  answered-stays : (k : ℕ) (p : Response × World) → request_turns e r k (reply_of p) ≡ reply_of p
  unfolding request_turns advance_request
  answered-stays zero (x, w) = refl
  answered-stays (suc k) (x, w) = answered-stays k (x, w)

  reply_of-Replied : (p : Response × World) → Replied (reply_of p) p
  reply_of-Replied (x, w) = (refl, refl)

  stayed-Replied : (k : ℕ) (p : Response × World) → Replied (request_turns e r k (reply_of p)) p
  stayed-Replied k p = rw (answered-stays k p) (reply_of-Replied p)

  ended-Replied :
      (k : ℕ) (y : Result Transfer) (w : World) (x : Result Transfer) (w' : World)
      → ◌≡◌ {A = Stage × World} (ended y, w) (ended x, w')
      → Replied (request_turns e r (suc k) (moving (ended y), w)) (report e r.key (x, w'))
  unfolding request_turns advance_request
  ended-Replied k y w x w' h =
      let results : y ≡ x = cc in
      let worlds : w ≡ w' = cc in
      rw (← results, ← worlds) (stayed-Replied k (report e r.key (y, w)))

  -- Once the transfer has ended, the next turn answers.
  moving-Replied :
      (k : ℕ) (stage : Stage) (w : World) (x : Result Transfer) (w' : World)
      → turns e r.body r.key k (stage, w) ≡ (ended x, w')
      → Replied (request_turns e r (suc k) (moving stage, w)) (report e r.key (x, w'))
  unfolding request_turns advance_request turns
  moving-Replied zero idle w x w' h = absurd cc
  moving-Replied zero begun w x w' h = absurd cc
  moving-Replied zero (one a) w x w' h = absurd cc
  moving-Replied zero (both a b) w x w' h = absurd cc
  moving-Replied zero (ended y) w x w' h = ended-Replied zero y w x w' h
  moving-Replied (suc k) idle w x w' h =
      let (stage, v) = advance e r.body r.key idle w in moving-Replied k stage v x w' h
  moving-Replied (suc k) begun w x w' h =
      let (stage, v) = advance e r.body r.key begun w in moving-Replied k stage v x w' h
  moving-Replied (suc k) (one a) w x w' h =
      let (stage, v) = advance e r.body r.key (one a) w in moving-Replied k stage v x w' h
  moving-Replied (suc k) (both a b) w x w' h =
      let (stage, v) = advance e r.body r.key (both a b) w in moving-Replied k stage v x w' h
  moving-Replied (suc k) (ended y) w x w' h =
      ended-Replied (suc k) y w x w' (sym (turns-ended e r.body r.key k y w) ∙ h)

  -- The answer of `TryAcquire`, and what follows.
  owner-Replied :
      (p : Result Wallet × World)
      → Replied (request_turns e r 5 (checked_owner e r p)) (spend e r.caller r.key r.body p)
  owner-Replied (err x, w) = stayed-Replied 5 (forbid e r.key w)
  owner-Replied (ok wallet, w) = elim (Bool-cases (may_spend wallet r.caller)) [
    | inl may ↦ rw may (
        moving-Replied 4 idle w (execute_transfer e r.body r.key w).0
          (execute_transfer e r.body r.key w).1 (turns-execute_transfer e r.body r.key w))
    | inr may_not ↦ rw may_not (stayed-Replied 5 (forbid e r.key w))
  ]

  admitted-Replied :
      (p : Result (Option KeyRecord) × World)
      → Replied (request_turns e r 6 (admitted p)) (proceed e r.caller r.key r.body p)
  unfolding request_turns advance_request
  admitted-Replied (err x, w) = (refl, refl)
  admitted-Replied (ok (some row), w) = (refl, refl)
  admitted-Replied (ok none, w) = owner-Replied (get_wallet_by_id e r.body.source_wallet_id w)

-- A request with a key whose turns nobody interrupts is a call of `HandleTransfer`: after seven turns
-- it has the answer of the call, in the world of the call.
pub request_turns-Replied :
    (e : Engine) (r : Sent) (w : World)
    → (r.key == "") ≡ false
    → Replied
        (request_turns e r 7 (arrived, w))
        (handle_transfer e (some r.caller) r.key (some r.body) w)
unfolding handle_transfer request_turns advance_request
request_turns-Replied e r w named = rw named (admitted-Replied e r (try_acquire e r.key r.body w))
