-- ===== src/Payments/Frame.antt =====
-- internal/payments/service.go: the payments and the keys of the transfer requests.
use go_wallet_ledger.Base.{String, ◌≡◌, refl, ap, ◌∙◌, Option, none, some, Bool, true, false, arith}
use go_wallet_ledger.Base.Int.{ℤ}
use go_wallet_ledger.Models.Payments.{Payment, WebhookPayload, is_succeeded}
use go_wallet_ledger.Store.{World, Tables, Engine, next, raise, calls}
use go_wallet_ledger.Store.Laws.{transaction-keeps}
use go_wallet_ledger.Payments.{create_payment, insert_payment, process_webhook, webhook_body}
use go_wallet_ledger.Payments.Webhook.{Processed, CreditedWhen, webhook_body-Processed}

pub create_payment-keys :
    (e : Engine) (draw : String × Bool) (wallet : String) (amount : ℤ) (currency : String)
    (w : World)
    → (create_payment e draw wallet amount currency w).1.tables.idempotency_keys
      ≡ w.tables.idempotency_keys
unfolding create_payment insert_payment calls
create_payment-keys e draw wallet amount currency w = ground arith

CreditedWhen-keys :
    (e : Engine) (b : Bool) (p : Payment) (account : String) (t t' : Tables)
    → CreditedWhen b e p account t t'
    → t'.idempotency_keys ≡ t.idempotency_keys
unfolding CreditedWhen
CreditedWhen-keys e true p account t t' c = rw ((c.recorded).tables, (c.rebalanced).tables) refl
CreditedWhen-keys e false p account t t' c = rw c refl

Processed-keys :
    (e : Engine) (provider : String) (event : WebhookPayload) (t t' : Tables)
    → Processed e provider event t t'
    → t'.idempotency_keys ≡ t.idempotency_keys
Processed-keys e provider event t t' x =
    let keys = λ (u : Tables). u.idempotency_keys in
    ap keys (x.announced).1
    ∙ CreditedWhen-keys e (is_succeeded event.status) x.payment x.account x.t3 x.t4 x.credited
    ∙ ap keys x.updated
    ∙ ap keys (x.deduplicated).tables

pub process_webhook-keys :
    (e : Engine) (provider : String) (event : Option WebhookPayload) (w : World)
    → (process_webhook e provider event w).1.tables.idempotency_keys ≡ w.tables.idempotency_keys
unfolding process_webhook raise
process_webhook-keys e provider none w = refl
process_webhook-keys e provider (some event) w =
    transaction-keeps (λ (t : Tables). t.idempotency_keys ≡ w.tables.idempotency_keys) e
      (webhook_body e provider event) w
      (record {
        at = λ a w' run.
            Processed-keys e provider event w.tables w'.tables
              ((webhook_body-Processed e provider event (next w)).at a w' run);
      })
      refl
