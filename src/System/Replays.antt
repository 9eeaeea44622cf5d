-- ===== src/System/Replays.antt =====
-- What a transfer request is answered that comes with a key again, over a whole history of calls.
use go_wallet_ledger.Base.{
  String, ◌≡◌, subst, ap, List, Option, some, false, ◌==◌, if◌then◌else◌, arith, inl, inr,
  Bool-cases,
}
use go_wallet_ledger.Models.Auth.{JwtClaims}
use go_wallet_ledger.Models.Transfers.{CreateTransferRequest}
use go_wallet_ledger.Models.Idempotency.{KeyRecord, Status}
use go_wallet_ledger.Store.{World, Engine, next}
use go_wallet_ledger.Http.{Response, failure}
use go_wallet_ledger.Idempotency.{has_key}
use go_wallet_ledger.Idempotency.Keys.{Held, some_row-find_row}
use go_wallet_ledger.Idempotency.Stored.{Replays, RowOf, with_key-RowOf, complete-RowOf}
use go_wallet_ledger.Transfers.Handler.{handle_transfer}
use go_wallet_ledger.Transfers.Requests.{handle_transfer-keeps, execute_transfer-SameOthers}
use go_wallet_ledger.Transfers.Replay.{
  handle_transfer-row, handle_transfer-replayed, handle_transfer-unchanged,
}
use go_wallet_ledger.Transfers.Repeats.{handle_transfer-stored}
use go_wallet_ledger.Auth.{Crypto}
use go_wallet_ledger.System.{Call, perform_all}
use go_wallet_ledger.System.Kept.{Keeps, perform_all-Kept}
use go_wallet_ledger.System.Sides.{
  create_wallet-SameSides, update_wallet_status-SameSides, register-SameSides, login-SameSides,
  mark_published-SameSides, mark_failed-SameSides, run_reconciliation-SameSides,
}
use go_wallet_ledger.Payments.Frame.{create_payment-keys, process_webhook-keys}

-- A request leaves the row of a key, be it its own or another.
transferred-RowOf :
    (e : Engine) (key : String) (r : KeyRecord) (caller : Option JwtClaims) (other : String)
    (body : Option CreateTransferRequest) (w : World)
    → RowOf key r w.tables
    → RowOf key r (handle_transfer e caller other body w).1.tables
transferred-RowOf e key r caller other body w row = elim (Bool-cases (other == key)) [
  | inl own ↦
      let held : Held key w.tables =
        some_row-find_row (has_key key) w.tables.idempotency_keys r row in
      let same : key ≡ other = ground arith in
      rw
        (handle_transfer-unchanged e caller other body w
          (subst (λ (k : String). Held k w.tables) same held))
        row
  | inr foreign ↦
      handle_transfer-keeps e other (RowOf key r)
        (record {
          taken = λ request t h. with_key-RowOf key other request r t h;
          stored = λ payload code v h. complete-RowOf e key other payload code r v foreign h;
          executed = λ request v h. rw ((execute_transfer-SameOthers e request other v).0) h;
        })
        caller body w row
]

-- Once a key has a row, and no request of it is under way, no call changes that row.
RowOf-Keeps :
    (e : Engine) (crypto : Crypto) (key : String) (r : KeyRecord) → Keeps e crypto (RowOf key r)
RowOf-Keeps e crypto key r = record {
  wallet_created = λ req owner role w h. rw ((create_wallet-SameSides e req owner role w).0) h;
  status_set = λ id status w h. rw ((update_wallet_status-SameSides e id status w).0) h;
  transferred = transferred-RowOf e key r;
  payment_created =
      λ draw wallet amount currency w h. rw (create_payment-keys e draw wallet amount currency w) h;
  webhook_taken = λ provider event w h. rw (process_webhook-keys e provider event w) h;
  registered = λ secret req w h. rw ((register-SameSides crypto e secret req w).0) h;
  logged_in = λ secret req w h. rw ((login-SameSides crypto e secret req w).0) h;
  event_published = λ id w h. rw ((mark_published-SameSides e id w).0) h;
  event_failed = λ id error w h. rw ((mark_failed-SameSides e id error w).0) h;
  reconciled = λ w h. rw ((run_reconciliation-SameSides e w).0) h;
}

-- A request whose key has a row, also after any calls of the service and turns of the workers since,
-- is answered from that row, whoever sends it and whatever transfer it asks for: with the status code
-- and the payload that are stored if the row is completed, with 409 and the error of a key in progress
-- if it is not, and with 500 if the database does not answer the SELECT of the row. It changes nothing
-- but the count of calls.
pub perform_all-Replays :
    (e : Engine) (crypto : Crypto) (hmac : String → String → String) (secret : String)
    (caller : JwtClaims) (key : String) (retry : CreateTransferRequest) (cs : List Call) (w : World)
    (r : KeyRecord) (response : Response)
    → (key == "") ≡ false
    → RowOf key r w.tables
    → Replays r response
    → let w' = perform_all e crypto hmac secret cs w in
      handle_transfer e (some caller) key (some retry) w' ≡ (
        if e.fault (next w').tick then failure 500 "internal server error" else response,
        next (next w'),
      )
perform_all-Replays e crypto hmac secret caller key retry cs w r response named row stands =
    handle_transfer-replayed e caller key retry (perform_all e crypto hmac secret cs w) r response
      named
      (perform_all-Kept e crypto (RowOf key r) (RowOf-Keeps e crypto key r) hmac secret cs w row)
      stands

-- When a transfer request is answered 201 and its key's row is completed, every later request with that
-- key, after any calls of the service and turns of the workers since, from any caller and for any
-- transfer, gets the same answer, or 500 if the database does not answer the SELECT of the row.
pub perform_all-repeated :
    (e : Engine) (crypto : Crypto) (hmac : String → String → String) (secret : String)
    (caller later : JwtClaims) (key : String) (req retry : CreateTransferRequest) (cs : List Call)
    (w : World) (r : KeyRecord)
    → (key == "") ≡ false
    → (handle_transfer e (some caller) key (some req) w).0.status ≡ 201
    → RowOf key r (handle_transfer e (some caller) key (some req) w).1.tables
    → r.status ≡ Status.completed
    → let first = handle_transfer e (some caller) key (some req) w in
      let w' = perform_all e crypto hmac secret cs first.1 in
      (handle_transfer e (some later) key (some retry) w').0
      ≡ (if e.fault (next w').tick then failure 500 "internal server error" else first.0)
perform_all-repeated e crypto hmac secret caller later key req retry cs w r named created row done =
    let first = handle_transfer e (some caller) key (some req) w in
    let w' = perform_all e crypto hmac secret cs first.1 in
    let kept : RowOf key r w'.tables =
      perform_all-Kept e crypto (RowOf key r) (RowOf-Keeps e crypto key r) hmac secret cs first.1
        row in
    rw (← handle_transfer-stored e caller key req w r named created row done)
      (ap (λ (a : Response × World). a.0) (handle_transfer-row e later key retry w' r named kept))
