-- ===== src/System/Kept.antt =====
-- What the calls keep of the tables, from what the services' operations keep.
use go_wallet_ledger.Base.{String, List, [], ◌∷◌, Option, Bool}
use go_wallet_ledger.Base.Int.{ℤ}
use go_wallet_ledger.Models.Errors.{Error}
use go_wallet_ledger.Models.Auth.{Role, JwtClaims, RegisterRequest, LoginRequest}
use go_wallet_ledger.Models.Payments.{WebhookPayload}
use go_wallet_ledger.Models.Transfers.{CreateTransferRequest}
use go_wallet_ledger.Transfers.Handler.{handle_transfer}
use go_wallet_ledger.Wallets.{update_wallet_status}
use go_wallet_ledger.Models.Outbox.{Event}
use go_wallet_ledger.Models.Wallets.{WalletStatus, CreateWalletRequest}
use go_wallet_ledger.Store.{World, Tables, Engine, Result, ok, err}
use go_wallet_ledger.Wallets.Service.{create_wallet}
use go_wallet_ledger.Payments.{create_payment, process_webhook}
use go_wallet_ledger.Reconciliation.{run_reconciliation}
use go_wallet_ledger.Outbox.{
  process_batch, process_event, process_events, process_fetched, settle_event, mark_published,
  mark_failed, publish, fetch_pending_events,
}
use go_wallet_ledger.Outbox.Retries.{publish-tables, fetch-tables}
use go_wallet_ledger.Auth.{Crypto, register, login}
use go_wallet_ledger.System.{Call, perform, perform_all}
use go_wallet_ledger.System.Maintained.{Maintains, perform-At, perform_all-At}

-- An invariant of the tables that the operations keep of which the calls are made.
pub record Keeps (e : Engine) (crypto : Crypto) (I : Tables → Type 0) : Type 0 where
  pub wallet_created :
      (req : CreateWalletRequest) (owner : String) (role : Role) (w : World)
      → I w.tables
      → I (create_wallet e req owner role w).1.tables
  pub status_set :
      (id : String) (status : WalletStatus) (w : World)
      → I w.tables
      → I (update_wallet_status e id status w).1.tables
  pub transferred :
      (caller : Option JwtClaims) (key : String) (body : Option CreateTransferRequest) (w : World)
      → I w.tables
      → I (handle_transfer e caller key body w).1.tables
  pub payment_created :
      (draw : String × Bool) (wallet : String) (amount : ℤ) (currency : String) (w : World)
      → I w.tables
      → I (create_payment e draw wallet amount currency w).1.tables
  pub webhook_taken :
      (provider : String) (event : Option WebhookPayload) (w : World)
      → I w.tables
      → I (process_webhook e provider event w).1.tables
  pub registered :
      (secret : String) (req : RegisterRequest) (w : World)
      → I w.tables
      → I (register crypto e secret req w).1.tables
  pub logged_in :
      (secret : String) (req : LoginRequest) (w : World)
      → I w.tables
      → I (login crypto e secret req w).1.tables
  pub event_published : (id : String) (w : World) → I w.tables → I (mark_published e id w).1.tables
  pub event_failed :
      (id : String) (error : Error) (w : World) → I w.tables → I (mark_failed e id error w).1.tables
  pub reconciled : (w : World) → I w.tables → I (run_reconciliation e w).tables

module _ (e : Engine) (crypto : Crypto) (I : Tables → Type 0) (keeps : Keeps e crypto I) where
  settle_event-Kept :
      (ev : Event) (r : Result (Unit {0}) × World) → I r.1.tables → I (settle_event e ev r).tables
  settle_event-Kept ev (ok done, w) h = keeps.event_published ev.id w h
  settle_event-Kept ev (err error, w) h = keeps.event_failed ev.id error w h

  process_events-Kept :
      (evs : List Event) (w : World) → I w.tables → I (process_events e evs w).tables
  unfolding process_events process_event
  process_events-Kept [] w h = h
  process_events-Kept (ev ∷ evs) w h =
      process_events-Kept evs (settle_event e ev (publish e ev.topic ev.payload w)) (
        settle_event-Kept ev (publish e ev.topic ev.payload w)
          (rw (publish-tables e ev.topic ev.payload w) h))

  fetched-Kept : (r : Result (List Event) × World) → I r.1.tables → I (process_fetched e r).tables
  fetched-Kept (ok evs, w) h = process_events-Kept evs w h
  fetched-Kept (err x, w) h = h

  process_batch-Kept : (w : World) → I w.tables → I (process_batch e w).tables
  unfolding process_batch
  process_batch-Kept w h = fetched-Kept (fetch_pending_events e 50 w) (rw (fetch-tables e 50 w) h)

  pub Keeps-Maintains : Maintains e crypto (λ t broker. I t)
  Keeps-Maintains = record {
    wallet_created = keeps.wallet_created;
    status_set = keeps.status_set;
    transferred = keeps.transferred;
    payment_created = keeps.payment_created;
    webhook_taken = keeps.webhook_taken;
    registered = keeps.registered;
    logged_in = keeps.logged_in;
    batched = process_batch-Kept;
    reconciled = keeps.reconciled;
  }

  module _ (hmac : String → String → String) (secret : String) where
    pub perform-Kept :
        (c : Call) (w : World) → I w.tables → I (perform e crypto hmac secret c w).tables
    perform-Kept c w h = perform-At e crypto (λ t broker. I t) Keeps-Maintains hmac secret c w h

    pub perform_all-Kept :
        (cs : List Call) (w : World) → I w.tables → I (perform_all e crypto hmac secret cs w).tables
    perform_all-Kept cs w h =
        perform_all-At e crypto (λ t broker. I t) Keeps-Maintains hmac secret cs w h
