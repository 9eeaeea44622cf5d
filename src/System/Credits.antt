-- ===== src/System/Credits.antt =====
-- A payment that has been settled, over a whole history of calls.
use go_wallet_ledger.Base.{String, ◌≡◌, List, some, true, ◌||◌}
use go_wallet_ledger.Models.Payments.{WebhookPayload, is_succeeded, is_failed}
use go_wallet_ledger.Store.{World, Tables, Engine, ok}
use go_wallet_ledger.Store.Laws.{Refused}
use go_wallet_ledger.Books.{IsFaithful}
use go_wallet_ledger.Transfers.Requests.{handle_transfer-payments}
use go_wallet_ledger.Transfers.Handler.{handle_transfer}
use go_wallet_ledger.Wallets.{update_wallet_status}
use go_wallet_ledger.Wallets.Service.{create_wallet}
use go_wallet_ledger.Outbox.{mark_published, mark_failed}
use go_wallet_ledger.Reconciliation.{run_reconciliation}
use go_wallet_ledger.Payments.{process_webhook}
use go_wallet_ledger.Payments.Closed.{
  IsKeyed, Settled, same-Settled, create_payment-Settled, process_webhook-Settled,
  process_webhook-IsClosed, IsClosed-Refused,
}
use go_wallet_ledger.Auth.{Crypto, register, login}
use go_wallet_ledger.System.{Call, perform_all}
use go_wallet_ledger.System.Kept.{Keeps, perform_all-Kept}
use go_wallet_ledger.System.Sides.{
  create_wallet-SameSides, update_wallet_status-SameSides, register-SameSides, login-SameSides,
  mark_published-SameSides, mark_failed-SameSides, run_reconciliation-SameSides,
}

module _ (e : Engine) (faithful : IsFaithful e) (crypto : Crypto) (reference : String) where
  kept :
      (t t' : Tables)
      → t'.payments ≡ t.payments
      → Settled e faithful reference t
      → Settled e faithful reference t'
  kept t t' same h = same-Settled e faithful reference t t' same h

  Settled-Keeps : Keeps e crypto (Settled e faithful reference)
  Settled-Keeps = record {
    wallet_created = λ req owner role w h.
        kept w.tables (create_wallet e req owner role w).1.tables
          (create_wallet-SameSides e req owner role w).1 h;
    status_set = λ id status w h.
        kept w.tables (update_wallet_status e id status w).1.tables
          (update_wallet_status-SameSides e id status w).1 h;
    transferred = λ caller key body w h.
        kept w.tables (handle_transfer e caller key body w).1.tables
          (handle_transfer-payments e caller key body w) h;
    payment_created = λ draw wallet amount currency w h.
        create_payment-Settled e faithful reference draw wallet amount currency w h;
    webhook_taken =
        λ provider event w h. process_webhook-Settled e faithful reference provider event w h;
    registered = λ secret req w h.
        kept w.tables (register crypto e secret req w).1.tables
          (register-SameSides crypto e secret req w).1 h;
    logged_in = λ secret req w h.
        kept w.tables (login crypto e secret req w).1.tables
          (login-SameSides crypto e secret req w).1 h;
    event_published = λ id w h.
        kept w.tables (mark_published e id w).1.tables (mark_published-SameSides e id w).1 h;
    event_failed = λ id error w h.
        kept w.tables (mark_failed e id error w).1.tables (mark_failed-SameSides e id error w).1 h;
    reconciled =
        λ w h. kept w.tables (run_reconciliation e w).tables (run_reconciliation-SameSides e w).1 h;
  }

-- Once a webhook has reported a payment's success or its failure and was processed without an error,
-- and after any calls of the service and turns of the workers since, every webhook for that payment is
-- refused, whatever it says, and changes no table. The ids of the payments are distinct and in
-- canonical text.
pub perform_all-final :
    (e : Engine) (crypto : Crypto) (hmac : String → String → String) (secret : String)
    (provider later : String) (event next : WebhookPayload) (cs : List Call) (w : World)
    → IsFaithful e
    → IsKeyed e w.tables
    → is_succeeded event.status || is_failed event.status ≡ true
    → next.reference_id ≡ event.reference_id
    → (process_webhook e provider (some event) w).0 ≡ ok tt
    → let w' = perform_all e crypto hmac secret cs (process_webhook e provider (some event) w).1 in
      Refused w' (process_webhook e later (some next) w')
perform_all-final e crypto hmac secret provider later event next cs w faithful keyed ended same
      done =
    let w1 = (process_webhook e provider (some event) w).1 in
    let h =
      perform_all-Kept e crypto (Settled e faithful event.reference_id)
        (Settled-Keeps e faithful crypto event.reference_id) hmac secret cs w1
        (process_webhook-IsClosed e faithful provider event w keyed ended done) in
    IsClosed-Refused e later next (perform_all e crypto hmac secret cs w1) (rw same h.1)
