-- ===== src/System/Keys.antt =====
-- The key of a transfer request over a whole history of calls.
use go_wallet_ledger.Base.{String, ◌≡◌, ◌≢◌, List, Option, inl, inr}
use go_wallet_ledger.Models.Auth.{JwtClaims}
use go_wallet_ledger.Models.Transfers.{CreateTransferRequest}
use go_wallet_ledger.Store.{World, Engine}
use go_wallet_ledger.Idempotency.Keys.{Held, with_key-Held, complete-Held}
use go_wallet_ledger.Transfers.Handler.{handle_transfer}
use go_wallet_ledger.Transfers.Requests.{
  handle_transfer-keeps, handle_transfer-Held, execute_transfer-SameOthers,
}
use go_wallet_ledger.Transfers.Replay.{handle_transfer-unchanged}
use go_wallet_ledger.Auth.{Crypto}
use go_wallet_ledger.System.{Call, perform_all}
use go_wallet_ledger.System.Kept.{Keeps, perform_all-Kept}
use go_wallet_ledger.System.Sides.{
  create_wallet-SameSides, update_wallet_status-SameSides, register-SameSides, login-SameSides,
  mark_published-SameSides, mark_failed-SameSides, run_reconciliation-SameSides,
}
use go_wallet_ledger.Payments.Frame.{create_payment-keys, process_webhook-keys}

pub Held-Keeps : (e : Engine) (crypto : Crypto) (key : String) → Keeps e crypto (Held key)
Held-Keeps e crypto key = record {
  wallet_created = λ req owner role w h. rw ((create_wallet-SameSides e req owner role w).0) h;
  status_set = λ id status w h. rw ((update_wallet_status-SameSides e id status w).0) h;
  transferred = λ caller other body w h.
      handle_transfer-keeps e other (Held key)
        (record {
          taken = λ request t held. with_key-Held key other request t held;
          stored = complete-Held e key other;
          executed = λ request v held. rw ((execute_transfer-SameOthers e request other v).0) held;
        })
        caller body w h;
  payment_created =
      λ draw wallet amount currency w h. rw (create_payment-keys e draw wallet amount currency w) h;
  webhook_taken = λ provider event w h. rw (process_webhook-keys e provider event w) h;
  registered = λ secret req w h. rw ((register-SameSides crypto e secret req w).0) h;
  logged_in = λ secret req w h. rw ((login-SameSides crypto e secret req w).0) h;
  event_published = λ id w h. rw ((mark_published-SameSides e id w).0) h;
  event_failed = λ id error w h. rw ((mark_failed-SameSides e id error w).0) h;
  reconciled = λ w h. rw ((run_reconciliation-SameSides e w).0) h;
}

-- At most one request with a given key changes the tables, over any history: after one that did, and
-- any calls of the service and turns of the workers since, a request with that key, from any caller
-- and with any body, changes no table.
pub perform_all-once :
    (e : Engine) (crypto : Crypto) (hmac : String → String → String) (secret : String)
    (caller later : Option JwtClaims) (key : String) (body retry : Option CreateTransferRequest)
    (cs : List Call) (w : World)
    → (handle_transfer e caller key body w).1.tables ≢ w.tables
    → let w' = perform_all e crypto hmac secret cs (handle_transfer e caller key body w).1 in
      (handle_transfer e later key retry w').1.tables ≡ w'.tables
perform_all-once e crypto hmac secret caller later key body retry cs w changed =
    elim (handle_transfer-Held e caller key body w) [
      | inl same ↦ absurd (changed same)
      | inr held ↦
          let w1 = (handle_transfer e caller key body w).1 in
          handle_transfer-unchanged e later key retry (perform_all e crypto hmac secret cs w1)
            (perform_all-Kept e crypto (Held key) (Held-Keeps e crypto key) hmac secret cs w1 held)
    ]
