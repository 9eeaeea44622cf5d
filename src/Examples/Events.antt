-- ===== src/Examples/Events.antt =====
-- The theorems on requests, webhooks, the outbox, reconciliations and histories at concrete inputs.
use go_wallet_ledger.Base.{
  String, ◌≡◌, ◌≢◌, refl, List, [], ◌∷◌, some, none, String_discrete, ap, length, ltb, All, ◌↔◌,
}
use go_wallet_ledger.Base.Int.{pos, ◌+ℤ◌, ◌-ℤ◌, ◌+₆₄◌, wrap}
use go_wallet_ledger.Models.Wallets.{Wallet, WalletStatus}
use go_wallet_ledger.Models.Payments.{PaymentStatus, WebhookPayload}
use go_wallet_ledger.Models.Reconciliation.{Run, Mismatch}
use go_wallet_ledger.Models.Outbox.{Payload, Event, EventStatus}
use go_wallet_ledger.Store.{calls, ok, World, Tables}
use go_wallet_ledger.Store.Laws.{Refused}
use go_wallet_ledger.Ledger.{tally, entry_error}
use go_wallet_ledger.Ledger.Sums.{net}
use go_wallet_ledger.Books.{IsSound, Backed}
use go_wallet_ledger.Transfers.Handler.{handle_transfer}
use go_wallet_ledger.Payments.{process_webhook, is_valid_transition}
use go_wallet_ledger.Payments.Webhook.{Processed, process_webhook-Processed}
use go_wallet_ledger.Payments.Soundness.{process_webhook-IsSound}
use go_wallet_ledger.Payments.Refusals.{
  process_webhook-duplicate, process_webhook-closed, process_webhook-no_platform,
}
use go_wallet_ledger.Reconciliation.{run_reconciliation, scan_wallets}
use go_wallet_ledger.Reconciliation.Detection.{scan_wallets-exact}
use go_wallet_ledger.Reconciliation.Quiet.{run_reconciliation-quiet}
use go_wallet_ledger.Payments.Closed.{IsKeyed}
use go_wallet_ledger.System.{Call, perform_all}
use go_wallet_ledger.System.Keys.{perform_all-once}
use go_wallet_ledger.System.Credits.{perform_all-final}
use go_wallet_ledger.Examples.{calm, world, request, event, payment, alice, plain, ledger, wallet}
use go_wallet_ledger.Examples.Faith.{calm-IsFaithful, tables-IsSound}

abbrev open_world : World
open_world = world WalletStatus.active

moved_first :
    (handle_transfer calm (some alice) "k2" (some (request 40)) open_world).1.tables
    ≢ open_world.tables
unfolding handle_transfer calls String_discrete ◌+ℤ◌ ◌-ℤ◌ ◌+₆₄◌ wrap tally entry_error
moved_first h =
    let p : ltb 1 2 ≡ ltb 1 1 = ap (λ (t : Tables). ltb 1 (length t.idempotency_keys)) h in cc p

abbrev paid : WebhookPayload
paid = event "ev2" "ext_p2" PaymentStatus.succeeded

webhook_run : (process_webhook calm "simulator" (some paid) open_world).0 ≡ ok tt
unfolding process_webhook calls String_discrete ◌+ℤ◌ ◌-ℤ◌ ◌+₆₄◌ wrap tally entry_error
webhook_run = refl

process_webhook-Processed_example :
    Processed calm "simulator" paid open_world.tables
      (process_webhook calm "simulator" (some paid) open_world).1.tables
process_webhook-Processed_example =
    process_webhook-Processed calm "simulator" paid open_world webhook_run

process_webhook-IsSound_example :
    IsSound calm (process_webhook calm "simulator" (some paid) open_world).1.tables
process_webhook-IsSound_example =
    process_webhook-IsSound calm "simulator" (some paid) open_world calm-IsFaithful
      (tables-IsSound WalletStatus.active)

process_webhook-duplicate_example : Refused open_world (
    process_webhook calm "simulator"
      (some (event "ev1" "ext_p2" PaymentStatus.succeeded))
      open_world)
unfolding String_discrete
process_webhook-duplicate_example =
    process_webhook-duplicate calm "simulator" (event "ev1" "ext_p2" PaymentStatus.succeeded)
      open_world refl

process_webhook-closed_example : Refused open_world (
    process_webhook calm "simulator"
      (some (event "ev3" "ext_p1" PaymentStatus.succeeded))
      open_world)
unfolding String_discrete is_valid_transition
process_webhook-closed_example =
    process_webhook-closed calm "simulator" (event "ev3" "ext_p1" PaymentStatus.succeeded)
      open_world (payment "p1" 100 PaymentStatus.succeeded) refl refl

-- The same database without the platform's account.
abbrev bare : World
bare = record open_world { tables = record open_world.tables { accounts = [] } }

process_webhook-no_platform_example :
    Refused bare (process_webhook calm "simulator" (some paid) bare)
process_webhook-no_platform_example =
    process_webhook-no_platform calm "simulator" paid bare calm-IsFaithful refl refl

abbrev late : Event
late = record {
  id = "o1";
  topic = "transfer.events";
  payload = Payload.payment_event "p1" PaymentStatus.succeeded (pos 100) "USD";
  status = EventStatus.pending;
  attempts = 5;
  next_retry_at = 0;
  error_msg = none;
  created_at = 0;
  updated_at = 0;
}

abbrev queued : World
queued = record open_world { tables = record open_world.tables { outbox_events = late ∷ [] } }

run_reconciliation-quiet_example :
    (runs : List Run) × ((run_reconciliation calm open_world).tables
      ≡ record open_world.tables { reconciliation_runs = runs })
run_reconciliation-quiet_example =
    run_reconciliation-quiet calm open_world (tables-IsSound WalletStatus.active)

abbrev rows : List Wallet
rows = wallet "w1" "alice" "a1" 100 WalletStatus.active ∷ []

abbrev no_mismatches : List Mismatch
no_mismatches = []

scan_run : scan_wallets ledger rows ≡ ok (pos 1, no_mismatches)
unfolding scan_wallets String_discrete ◌+ℤ◌ ◌-ℤ◌ ◌+₆₄◌ wrap net
scan_run = refl

scan_wallets-exact_example : (no_mismatches ≡ []) ↔ All (Backed ledger) rows
unfolding String_discrete ◌+ℤ◌ ◌-ℤ◌ net
scan_wallets-exact_example =
    scan_wallets-exact ledger rows (pos 1) no_mismatches ((refl, refl), tt) scan_run

abbrev no_hmac : String → String → String
no_hmac secret text = text

-- What happens between the two requests.
abbrev meanwhile : List Call
meanwhile = Call.publish_events ∷ Call.freeze "w2" ∷ Call.reconcile ∷ []

perform_all-once_example :
    (handle_transfer calm none "k2" (some (request 7)) (
      perform_all calm plain no_hmac "" meanwhile
        (handle_transfer calm (some alice) "k2" (some (request 40)) open_world).1)).1.tables
    ≡ (perform_all calm plain no_hmac "" meanwhile
        (handle_transfer calm (some alice) "k2" (some (request 40)) open_world).1).tables
perform_all-once_example =
    perform_all-once calm plain no_hmac "" (some alice) none "k2" (some (request 40))
      (some (request 7)) meanwhile open_world moved_first

open_world-IsKeyed : IsKeyed calm open_world.tables
unfolding String_discrete
open_world-IsKeyed = record { distinct = (((refl, tt), (tt, tt))); canonical = (refl, (refl, tt)) }

perform_all-final_example :
    Refused
      (perform_all calm plain no_hmac "" meanwhile
        (process_webhook calm "simulator" (some paid) open_world).1)
      (process_webhook calm "simulator" (some (event "ev4" "ext_p2" PaymentStatus.failed)) (
        perform_all calm plain no_hmac "" meanwhile
          (process_webhook calm "simulator" (some paid) open_world).1))
unfolding String_discrete
perform_all-final_example =
    perform_all-final calm plain no_hmac "" "simulator" "simulator" paid
      (event "ev4" "ext_p2" PaymentStatus.failed) meanwhile open_world calm-IsFaithful
      open_world-IsKeyed refl refl webhook_run
