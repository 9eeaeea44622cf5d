-- ===== src/System/Events.antt =====
-- The outbox over a whole history of calls.
use go_wallet_ledger.Base.{String, List, [], ◌∷◌, All, All-append, arith}
use go_wallet_ledger.Models.Outbox.{Event, Payload}
use go_wallet_ledger.Store.{World, Tables, Engine, Action}
use go_wallet_ledger.Books.{IsFaithful}
use go_wallet_ledger.Outbox.{process_batch, event_row}
use go_wallet_ledger.Outbox.Growth.{Grows, Still, Quiet}
use go_wallet_ledger.Outbox.Delivered.{Consistent}
use go_wallet_ledger.Outbox.Published.{process_batch-Consistent, Grows-Consistent}
use go_wallet_ledger.Outbox.Retries.{IsRetried, process_batch-AllRetried}
use go_wallet_ledger.Transfers.Handler.{handle_transfer}
use go_wallet_ledger.Reconciliation.{run_reconciliation}
use go_wallet_ledger.Auth.{Crypto}
use go_wallet_ledger.System.Maintained.{Maintains, At}
use go_wallet_ledger.System.Quiet.{
  create_wallet-Quiet, update_wallet_status-Quiet, create_payment-Quiet, process_webhook-Quiet,
  register-Quiet, login-Quiet,
}
use go_wallet_ledger.System.Still.{handle_transfer-Still, run_reconciliation-Still}

module _ (e : Engine) (crypto : Crypto) (I : Tables → List (String × Payload) → Type 0)
    (grown : (w w' : World) → Still e w w' → At I w → At I w') where
  acted : {A : Type 0} {m : Action A} (w : World) → Quiet e m → At I w → At I (m w).1
  acted {m} w quiet h = grown w (m w).1 (quiet.still w) h

  -- An invariant that new events do not break is kept by all calls if a batch keeps it.
  Still-Maintains : ((w : World) → At I w → At I (process_batch e w)) → Maintains e crypto I
  Still-Maintains batched = record {
    wallet_created = λ req owner role w h. acted w (create_wallet-Quiet e req owner role) h;
    status_set = λ id status w h. acted w (update_wallet_status-Quiet e id status) h;
    transferred = λ caller key body w h.
        grown w (handle_transfer e caller key body w).1 (handle_transfer-Still e caller key body w)
          h;
    payment_created = λ draw wallet amount currency w h.
        acted w (create_payment-Quiet e draw wallet amount currency) h;
    webhook_taken = λ provider event w h. acted w (process_webhook-Quiet e provider event) h;
    registered = λ secret req w h. acted w (register-Quiet e crypto secret req) h;
    logged_in = λ secret req w h. acted w (login-Quiet e crypto secret req) h;
    batched = batched;
    reconciled = λ w h. grown w (run_reconciliation e w) (run_reconciliation-Still e w) h;
  }

abbrev pub ConsistentOutbox : Engine → Tables → List (String × Payload) → Type 0
ConsistentOutbox e t broker = Consistent e t.outbox_events broker

pub Consistent-Maintains :
    (e : Engine) (crypto : Crypto) → IsFaithful e → Maintains e crypto (ConsistentOutbox e)
Consistent-Maintains e crypto faithful =
    Still-Maintains e crypto (ConsistentOutbox e)
      (λ w w' still h.
        let grown =
          Grows-Consistent e faithful w.broker w.tables.outbox_events w'.tables.outbox_events
            still.1 h in
        rw still.0 grown)
      (λ w h. process_batch-Consistent e w h)

Grows-AllRetried :
    (e : Engine) (rows rows' : List Event)
    → Grows e rows rows'
    → All IsRetried rows
    → All IsRetried rows'
Grows-AllRetried e rows rows' (Grows.same eq) h = rw eq h
Grows-AllRetried e rows rows' (Grows.added between n topic payload g unseen eq) h = rw eq (
    All-append IsRetried between (event_row e n topic payload ∷ [])
      (Grows-AllRetried e rows between g h) (ground arith, tt))

abbrev pub RetriedOutbox : Tables → List (String × Payload) → Type 0
RetriedOutbox t broker = All IsRetried t.outbox_events

pub AllRetried-Maintains : (e : Engine) (crypto : Crypto) → Maintains e crypto RetriedOutbox
AllRetried-Maintains e crypto =
    Still-Maintains e crypto RetriedOutbox
      (λ w w' still h. Grows-AllRetried e w.tables.outbox_events w'.tables.outbox_events still.1 h)
      (λ w h. process_batch-AllRetried e w h)
