-- ===== src/Payments.antt =====
-- internal/payments: the state machine and the service (service.go), with the simulator's
-- `ProcessPayment` (provider.go). The outcome of `math/rand` is an argument.
pub mod Handler
pub mod Webhook
pub mod Soundness
pub mod Refusals
pub mod Terminal
pub mod Rows
pub mod Closed
pub mod Frame
use Prim.Native.String.{◌++◌ as join}
use go_wallet_ledger.Base.{
  ℕ, String, List, [], ◌∷◌, ◌++◌, Option, none, some, Bool, true, false, not, ◌==◌, ◌&&◌, ◌||◌, leb,
  chars, some_row, find_row, update_rows, if◌then◌else◌,
}
use go_wallet_ledger.Base.Int.{ℤ, pos, ◌+ℤ◌, ltb_ℤ}
use go_wallet_ledger.Models.Errors.{Error}
use go_wallet_ledger.Models.Ledger.{Direction, TransactionType, TransactionStatus}
use go_wallet_ledger.Models.Ledger
use go_wallet_ledger.Models.Wallets.{Wallet, has_id}
use go_wallet_ledger.Models.Payments.{
  Payment, PaymentStatus, ProviderResponse, WebhookPayload, WebhookEvent, WebhookEventStatus,
  platform_account, is_succeeded, is_failed, is_processing,
}
use go_wallet_ledger.Models.Outbox.{payment_event}
use go_wallet_ledger.Store.{
  Engine, Tables, World, Metrics, Result, ok, err, Action, ◌>>=◌, ◌>>◌, pure, raise, gets, or_raise,
  guard, write, statement, transaction, uuid, wrap_error, count_metric,
}
use go_wallet_ledger.Ledger.{create_transaction}
use go_wallet_ledger.Outbox.{insert_event}
use go_wallet_ledger.Transfers.{update_balance, new_entry}

-- `isValidTransition`
unfoldable pub is_valid_transition : PaymentStatus → PaymentStatus → Bool
is_valid_transition PaymentStatus.processing next = is_succeeded next || is_failed next
is_valid_transition PaymentStatus.created next = is_processing next || is_failed next
is_valid_transition _ next = false

-- `ProcessPayment`: the random text, and whether the draw is under 10%.
unfoldable pub process_payment : String × Bool → ProviderResponse
process_payment (random, fails) = record {
  reference_id = join "ext_" random;
  status = if fails then PaymentStatus.failed else PaymentStatus.processing;
}

abbrev pub record_payment : PaymentStatus → Metrics → Metrics
record_payment status m = record m { payments_recorded = m.payments_recorded ++ status ∷ [] }

abbrev pub payment_constraints : Payment → Tables → List (Bool × Error)
payment_constraints row t =
    (leb (chars row.currency) 3, Error.value_too_long)
    ∷ (leb (chars row.provider_reference) 255, Error.value_too_long)
    ∷ (ltb_ℤ (pos 0) row.amount, Error.check_violation)
    ∷ (not (some_row (λ (r : Payment). r.id == row.id) t.payments), Error.unique_violation)
    ∷ (
      not (some_row (λ (r : Payment). r.provider_reference == row.provider_reference) t.payments),
      Error.unique_violation,
    )
    ∷ (some_row (has_id row.wallet_id) t.wallets, Error.foreign_key_violation)
    ∷ []

abbrev pub payment_row : Engine → ℕ → String → ℤ → String → ProviderResponse → Payment
payment_row e n wallet_id amount currency resp = record {
  id = e.fresh_id n;
  wallet_id = wallet_id;
  amount = amount;
  currency = currency;
  status = resp.status;
  provider_reference = resp.reference_id;
  created_at = e.now n;
  updated_at = e.now n;
}

-- `INSERT INTO payments … RETURNING id, created_at, updated_at`
unfoldable pub insert_payment : Engine → String → ℤ → String → ProviderResponse → Action Payment
insert_payment e wallet_id amount currency resp = statement e λ n. do
  key ← uuid e wallet_id
  write (payment_constraints (payment_row e n key amount currency resp))
      (λ t. record t { payments = t.payments ++ payment_row e n key amount currency resp ∷ [] })
  pure (payment_row e n wallet_id amount currency resp)

-- The service's `CreatePayment`
unfoldable pub create_payment : Engine → String × Bool → String → ℤ → String → Action Payment
unfolding process_payment insert_payment
create_payment e draw wallet_id amount currency = do
  payment ← insert_payment e wallet_id amount currency (process_payment draw)
  count_metric (record_payment payment.status)
  pure payment

abbrev pub same_event : String → String → WebhookEvent → Bool
same_event provider event_id r = r.provider == provider && r.event_id == event_id

abbrev pub webhook_constraints : String → WebhookPayload → Tables → List (Bool × Error)
webhook_constraints provider event t =
    (leb (chars provider) 50, Error.value_too_long)
    ∷ (leb (chars event.event_id) 255, Error.value_too_long)
    ∷ (leb (chars event.event_type) 100, Error.value_too_long)
    ∷ (not (some_row (same_event provider event.event_id) t.webhook_events), Error.unique_violation)
    ∷ []

abbrev pub webhook_row : String → WebhookPayload → WebhookEvent
webhook_row provider event = record {
  provider = provider;
  event_id = event.event_id;
  event_type = event.event_type;
  payload = event;
  status = WebhookEventStatus.processed;
}

-- SQLSTATE 23505 is a duplicate, another error stays.
abbrev pub webhook_error : Error → Error
webhook_error Error.unique_violation = Error.duplicate_webhook
webhook_error x = x

-- Step 1, the deduplication.
unfoldable pub insert_webhook : Engine → String → WebhookPayload → Action (Unit {0})
insert_webhook e provider event = wrap_error webhook_error (
    statement e λ n. do
      write (webhook_constraints provider event)
          (λ t. record t { webhook_events = t.webhook_events ++ webhook_row provider event ∷ [] })
      pure tt)

-- A row of the join: the payment, with the account of its wallet.
abbrev pub joined : Tables → Option Payment → Option (Payment × String)
joined t none = none
joined t (some p) = elim (find_row (has_id p.wallet_id) t.wallets) [
  | none ↦ none
  | some w ↦ some (p, w.account_id)
]

abbrev pub referenced : String → Tables → Option Payment
referenced reference t = find_row (λ (r : Payment). r.provider_reference == reference) t.payments

-- Step 2: the payment, locked, and its wallet's account.
unfoldable pub lock_payment : Engine → String → Action (Payment × String)
lock_payment e reference = statement e λ n. do
  row ← gets (λ t. joined t (referenced reference t))
  or_raise row Error.payment_not_found

abbrev pub set_payment_status : ℕ → PaymentStatus → Payment → Payment
set_payment_status now status r = record r { status = status; updated_at = now }

abbrev pub payment_updated : String → ℕ → PaymentStatus → Tables → Tables
payment_updated key now status t = record t {
  payments = update_rows (λ (r : Payment). r.id == key) (set_payment_status now status) t.payments;
}

-- Step 4
unfoldable pub update_payment : Engine → String → PaymentStatus → Action (Unit {0})
update_payment e id status =
    statement e
      λ n. do key ← uuid e id; write (λ _. []) (payment_updated key (e.now n) status); pure tt

-- The pair of entries of a payment: the money comes from the platform's account.
abbrev pub payment_ledger : Payment → String → Ledger.Transaction
payment_ledger p account = record {
  id = "";
  reference_id = p.id;
  reference_type = TransactionType.payment;
  status = TransactionStatus.completed;
  created_at = 0;
  entries =
      new_entry platform_account p.amount Direction.debit p.currency
      ∷ new_entry account p.amount Direction.credit p.currency
      ∷ [];
}

-- The body of step 5.
unfoldable pub credit_wallet : Engine → Payment → String → Action (Unit {0})
unfolding update_balance create_transaction
credit_wallet e p account = do
  update_balance e p.wallet_id (λ b. b +ℤ p.amount)
  posted ← wrap_error Error.ledger_failed (create_transaction e (payment_ledger p account))
  pure tt

unfoldable pub credit_when : Bool → Engine → Payment → String → Action (Unit {0})
unfolding credit_wallet
credit_when true e p account = credit_wallet e p account
credit_when false e p account = pure tt

-- Steps 3 to 5 and the event, on the locked payment.
unfoldable pub settle_payment : Engine → PaymentStatus → Payment × String → Action (Unit {0})
unfolding is_valid_transition update_payment credit_when insert_event
settle_payment e status (p, account) = do
  guard (is_valid_transition p.status status) (Error.invalid_state_transition p.status status)
  update_payment e p.id status
  count_metric (record_payment status)
  credit_when (is_succeeded status) e p account
  wrap_error Error.outbox_failed
      (insert_event e "payment.events" (payment_event p.id status p.amount p.currency))
  pure tt

-- The statements between `Begin` and `Commit`.
unfoldable pub webhook_body : Engine → String → WebhookPayload → Action (Unit {0})
unfolding insert_webhook lock_payment settle_payment
webhook_body e provider event = do
  insert_webhook e provider event
  locked ← lock_payment e event.reference_id
  settle_payment e event.status locked

-- `ProcessWebhook`, of the decoded payload.
unfoldable pub process_webhook : Engine → String → Option WebhookPayload → Action (Unit {0})
unfolding webhook_body
process_webhook e provider none = raise Error.malformed_payload
process_webhook e provider (some event) = transaction e (webhook_body e provider event)
