-- ===== src/Payments/Webhook.antt =====
-- internal/payments/service.go: a run of `ProcessWebhook` that succeeds, step by step.
use go_wallet_ledger.Base.{
  ℕ, String, ◌≡◌, refl, sym, ap, ◌∙◌, subst, [], ◌∷◌, ◌++◌, Option, none, some, Bool, true, false,
  some_row, find_row, arith, inl, inr, Option-cases, some_eq,
}
use go_wallet_ledger.Base.Int.{◌+ℤ◌}
use go_wallet_ledger.Models.Errors.{Error}
use go_wallet_ledger.Models.Wallets.{Wallet, has_id}
use go_wallet_ledger.Models.Payments.{Payment, PaymentStatus, WebhookPayload, is_succeeded}
use go_wallet_ledger.Store.{World, Tables, Engine, violation, Result, ok, next, transaction}
use go_wallet_ledger.Store.Laws.{
  Succeeds, pure-Succeeds, statement-Succeeds, bind-Succeeds, then-Succeeds, uuid-Succeeds,
  write-Succeeds, wrap_error-Succeeds, gets-Succeeds, guard-Succeeds, raised-Succeeds, Ends,
  transaction-Ends, metric-Succeeds,
}
use go_wallet_ledger.Ledger.Posting.{Recorded, create_transaction-Succeeds}
use go_wallet_ledger.Outbox.Insert.{Announced, insert_event-Succeeds}
use go_wallet_ledger.Transfers.{update_balance}
use go_wallet_ledger.Transfers.Settlement.{Rebalanced, update_balance-Rebalanced}
use go_wallet_ledger.Payments.{
  insert_webhook, webhook_row, webhook_constraints, same_event, lock_payment, joined, referenced,
  update_payment, payment_updated, payment_ledger, credit_wallet, credit_when, settle_payment,
  webhook_body, process_webhook, is_valid_transition,
}

-- The event was not in the table, and is now.
pub record Deduplicated (provider : String) (event : WebhookPayload) (t t' : Tables) : Type 0 where
  pub new : some_row (same_event provider event.event_id) t.webhook_events ≡ false
  pub tables :
      t' ≡ record t { webhook_events = t.webhook_events ++ webhook_row provider event ∷ [] }

webhook_new :
    (provider : String) (event : WebhookPayload) (t : Tables)
    → violation (webhook_constraints provider event t) ≡ none
    → some_row (same_event provider event.event_id) t.webhook_events ≡ false
webhook_new provider event t h = ground arith

insert_webhook-Deduplicated :
    (e : Engine) (provider : String) (event : WebhookPayload) (w : World)
    → Succeeds
        (insert_webhook e provider event)
        w
        λ _ w'. Deduplicated provider event w.tables w'.tables
unfolding insert_webhook
insert_webhook-Deduplicated e provider event w = wrap_error-Succeeds _ _ w (
    statement-Succeeds e _ w (
      write-Succeeds _ _ _ _ λ holds.
        pure-Succeeds _ _
          (record { new = webhook_new provider event w.tables holds; tables = refl })))

-- The payment that the reference names, and its wallet.
pub record Referenced (reference : String) (t : Tables) (p : Payment × String) : Type 0 where
  pub payment : referenced reference t ≡ some p.0
  pub wallet : Wallet
  pub found : find_row (has_id (p.0).wallet_id) t.wallets ≡ some wallet
  pub account : p.1 ≡ wallet.account_id

Referenced_of :
    (reference : String) (t : Tables) (o : Option Payment) (p : Payment × String)
    → referenced reference t ≡ o
    → joined t o ≡ some p
    → Referenced reference t p
Referenced_of reference t none p h j = ground arith
Referenced_of reference t (some q) p h j =
    elim (Option-cases (find_row (has_id q.wallet_id) t.wallets)) [
      | inl gone ↦ absurd (ground arith)
      | inr (v, here) ↦
          let same = some_eq (rw (joined, here) at j) in
          record {
            payment = h ∙ ap some (ap (λ (x : Payment × String). x.0) same);
            wallet = v;
            found =
                subst
                  (λ (x : Payment × String). find_row (has_id (x.0).wallet_id) t.wallets ≡ some v)
                  same here;
            account = sym (ap (λ (x : Payment × String). x.1) same);
          }
    ]

lock_payment-Referenced :
    (e : Engine) (reference : String) (w : World)
    → Succeeds
        (lock_payment e reference)
        w
        λ p w'. Referenced reference w.tables p × (w'.tables ≡ w.tables)
unfolding lock_payment
lock_payment-Referenced e reference w = statement-Succeeds e _ w (
    gets-Succeeds _ _ _ (
      raised-Succeeds _ Error.payment_not_found _
        λ p j. (Referenced_of reference w.tables _ p refl j, refl)))

-- The wallet that the payment names is paid, with the ledger's entries for it.
pub record Credited (e : Engine) (p : Payment) (account : String) (t t' : Tables) : Type 0 where
  pub between : Tables
  pub rebalanced : Rebalanced e p.wallet_id (λ b. b +ℤ p.amount) t between
  pub recorded : Recorded e between (payment_ledger p account) t'

credit_wallet-Credited :
    (e : Engine) (p : Payment) (account : String) (w : World)
    → Succeeds (credit_wallet e p account) w λ _ w'. Credited e p account w.tables w'.tables
unfolding credit_wallet
credit_wallet-Credited e p account w =
    then-Succeeds (update_balance e p.wallet_id (λ b. b +ℤ p.amount)) _ w λ w1 d1.
      bind-Succeeds _ _ w1 λ posted w2 d2. pure-Succeeds _ _ (record {
        between = w1.tables;
        rebalanced = (update_balance-Rebalanced e p.wallet_id _ w).at tt w1 d1;
        recorded =
            (wrap_error-Succeeds Error.ledger_failed _ w1 (create_transaction-Succeeds e _ w1)).at
              posted w2 d2;
      })

-- The credit is made for a success, and for nothing else.
unfoldable pub CreditedWhen : Bool → Engine → Payment → String → Tables → Tables → Type 0
CreditedWhen true e p account t t' = Credited e p account t t'
CreditedWhen false e p account t t' = t' ≡ t

credit_when-CreditedWhen :
    (b : Bool) (e : Engine) (p : Payment) (account : String) (w : World)
    → Succeeds (credit_when b e p account) w λ _ w'. CreditedWhen b e p account w.tables w'.tables
unfolding credit_when CreditedWhen
credit_when-CreditedWhen true e p account w = credit_wallet-Credited e p account w
credit_when-CreditedWhen false e p account w = pure-Succeeds _ _ refl

-- The whole webhook, step by step.
pub record Processed (e : Engine) (provider : String) (event : WebhookPayload) (t t' : Tables)
    : Type 0 where
  pub t1 : Tables
  pub t3 : Tables
  pub t4 : Tables
  pub payment : Payment
  pub account : String
  pub deduplicated : Deduplicated provider event t t1
  pub referenced : Referenced event.reference_id t1 (payment, account)
  pub allowed : is_valid_transition payment.status event.status ≡ true
  pub key : String
  pub now : ℕ
  pub read : e.parse_uuid payment.id ≡ some key
  pub updated : t3 ≡ payment_updated key now event.status t1
  pub credited : CreditedWhen (is_succeeded event.status) e payment account t3 t4
  pub announced : Announced t4 t'

-- The UPDATE of the payment.
pub record Updated (e : Engine) (id : String) (status : PaymentStatus) (t t' : Tables)
    : Type 0 where
  pub key : String
  pub now : ℕ
  pub read : e.parse_uuid id ≡ some key
  pub tables : t' ≡ payment_updated key now status t

update_payment-Updated :
    (e : Engine) (id : String) (status : PaymentStatus) (w : World)
    → Succeeds (update_payment e id status) w λ _ w'. Updated e id status w.tables w'.tables
unfolding update_payment
update_payment-Updated e id status w = statement-Succeeds e _ w (
    uuid-Succeeds e id _ _ λ key read. write-Succeeds _ _ _ _ λ holds.
      pure-Succeeds _ _ (record { key = key; now = e.now w.tick; read = read; tables = refl }))

-- From the locked payment on.
record SettledPayment (e : Engine) (status : PaymentStatus) (p : Payment × String) (t t' : Tables)
    : Type 0 where
  t3 : Tables
  t4 : Tables
  allowed : is_valid_transition (p.0).status status ≡ true
  updated : Updated e (p.0).id status t t3
  credited : CreditedWhen (is_succeeded status) e p.0 p.1 t3 t4
  announced : Announced t4 t'

settle_payment-SettledPayment :
    (e : Engine) (status : PaymentStatus) (p : Payment × String) (w : World)
    → Succeeds (settle_payment e status p) w λ _ w'. SettledPayment e status p w.tables w'.tables
unfolding settle_payment
settle_payment-SettledPayment e status (p, account) w = guard-Succeeds _ _ _ w λ allowed.
    then-Succeeds (update_payment e p.id status) _ w λ w1 d1. metric-Succeeds _ _ w1 (
      then-Succeeds _ _ _ λ w2 d2. then-Succeeds _ _ w2 λ w3 d3. pure-Succeeds _ _ (record {
        t3 = w1.tables;
        t4 = w2.tables;
        allowed = allowed;
        updated = (update_payment-Updated e p.id status w).at tt w1 d1;
        credited = (credit_when-CreditedWhen (is_succeeded status) e p account _).at tt w2 d2;
        announced =
            (wrap_error-Succeeds Error.outbox_failed _ w2 (insert_event-Succeeds e _ _ w2)).at tt w3
              d3;
      }))

Processed-of :
    (e : Engine) (provider : String) (event : WebhookPayload) (t t1 t2 t' : Tables)
    (p : Payment × String)
    → Deduplicated provider event t t1
    → Referenced event.reference_id t1 p × (t2 ≡ t1)
    → SettledPayment e event.status p t2 t'
    → Processed e provider event t t'
Processed-of e provider event t t1 t2 t' (p, account) d (r, same) s = record {
  t1 = t1;
  t3 = s.t3;
  t4 = s.t4;
  payment = p;
  account = account;
  deduplicated = d;
  referenced = r;
  allowed = s.allowed;
  key = (s.updated).key;
  now = (s.updated).now;
  read = (s.updated).read;
  updated = rw (← same) (s.updated).tables;
  credited = s.credited;
  announced = s.announced;
}

pub webhook_body-Processed :
    (e : Engine) (provider : String) (event : WebhookPayload) (w : World)
    → Succeeds
        (webhook_body e provider event)
        w
        λ _ w'. Processed e provider event w.tables w'.tables
unfolding webhook_body
webhook_body-Processed e provider event w =
    then-Succeeds (insert_webhook e provider event) _ w λ w1 d1.
      bind-Succeeds (lock_payment e event.reference_id) _ w1 λ p w2 d2. record {
        at = λ a w3 d3.
            Processed-of e provider event w.tables w1.tables w2.tables w3.tables p
              ((insert_webhook-Deduplicated e provider event w).at tt w1 d1)
              ((lock_payment-Referenced e event.reference_id w1).at p w2 d2)
              ((settle_payment-SettledPayment e event.status p w2).at a w3 d3);
      }

Processed-when :
    (e : Engine) (provider : String) (event : WebhookPayload) (w : World)
    (r : Result (Unit {0}) × World)
    → Ends e (webhook_body e provider event) w r
    → r.0 ≡ ok tt
    → Processed e provider event w.tables r.1.tables
Processed-when e provider event w r (Ends.undone x failed _) done = absurd cc
Processed-when e provider event w r (Ends.durable a w' run same _) done =
    subst (λ (t : Tables). Processed e provider event w.tables t) (sym same)
      ((webhook_body-Processed e provider event (next w)).at a w' run)

-- When a webhook is processed without an error, its event is new and is now in the table, the payment
-- it refers to exists with its wallet, may take the event's status and takes it, the wallet is credited
-- with the payment's amount, with a ledger transaction for it, if the status is a success and not
-- otherwise, and the outbox has one event more.
pub process_webhook-Processed :
    (e : Engine) (provider : String) (event : WebhookPayload) (w : World)
    → (process_webhook e provider (some event) w).0 ≡ ok tt
    → Processed e provider event w.tables (process_webhook e provider (some event) w).1.tables
unfolding process_webhook
process_webhook-Processed e provider event w done =
    Processed-when e provider event w (transaction e (webhook_body e provider event) w)
      (transaction-Ends e (webhook_body e provider event) w) done
