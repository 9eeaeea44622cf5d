-- ===== src/Payments/Refusals.antt =====
-- internal/payments/service.go: the webhooks that `ProcessWebhook` refuses.
use go_wallet_ledger.Base.{
  String, ◌≡◌, refl, sym, ap, ◌∙◌, subst, some, Bool, true, false, some_row, arith, some_eq, ◌==◌,
  List,
}
use go_wallet_ledger.Models.Wallets.{Account}
use go_wallet_ledger.Models.Payments.{Payment, WebhookPayload, is_succeeded, platform_account}
use go_wallet_ledger.Store.{World, Tables, Engine, next}
use go_wallet_ledger.Store.Laws.{Refused, transaction-Refused}
use go_wallet_ledger.Transfers.Soundness.{halves}
use go_wallet_ledger.Books.{IsFaithful, Known}
use go_wallet_ledger.Payments.{
  process_webhook, same_event, referenced, is_valid_transition, webhook_body,
}
use go_wallet_ledger.Payments.Webhook.{Processed, CreditedWhen, Credited, webhook_body-Processed}

-- A webhook that can never be processed is refused.
Refused-when :
    (e : Engine) (provider : String) (event : WebhookPayload) (w : World)
    → ((t' : Tables) → ¬ Processed e provider event w.tables t')
    → Refused w (process_webhook e provider (some event) w)
unfolding process_webhook
Refused-when e provider event w never =
    transaction-Refused e (webhook_body e provider event) w
      (λ a w' run. never w'.tables ((webhook_body-Processed e provider event (next w)).at a w' run))

-- A webhook whose event has been taken in before is refused, whatever else it says, and changes no
-- table.
pub process_webhook-duplicate :
    (e : Engine) (provider : String) (event : WebhookPayload) (w : World)
    → some_row (same_event provider event.event_id) w.tables.webhook_events ≡ true
    → Refused w (process_webhook e provider (some event) w)
process_webhook-duplicate e provider event w seen =
    Refused-when e provider event w (λ t' x. cc (seen, (x.deduplicated).new))

-- The payment that the run locked is the one of the tables before it.
pub same_payment :
    {e : Engine} {provider : String} {event : WebhookPayload} {t t' : Tables} (p : Payment)
    → referenced event.reference_id t ≡ some p
    → (x : Processed e provider event t t') → x.payment ≡ p
same_payment {event} p h x =
    some_eq
      (sym (x.referenced).payment ∙ ap (referenced event.reference_id) (x.deduplicated).tables ∙ h)

-- A webhook is refused and changes no table when its payment's status may not become the event's.
pub process_webhook-closed :
    (e : Engine) (provider : String) (event : WebhookPayload) (w : World) (p : Payment)
    → referenced event.reference_id w.tables ≡ some p
    → is_valid_transition p.status event.status ≡ false
    → Refused w (process_webhook e provider (some event) w)
process_webhook-closed e provider event w p found closed = Refused-when e provider event w (λ t' x.
    let allowed =
      subst (λ (q : Payment). is_valid_transition q.status event.status ≡ true)
        (same_payment p found x) x.allowed in
    cc (closed, allowed))

-- The platform's account is known to a run that credits.
Credited-platform :
    (e : Engine) (p : Payment) (account : String) (t t' : Tables)
    → IsFaithful e
    → Credited e p account t t'
    → Known t.accounts platform_account
Credited-platform e p account t t' faithful c =
    let h = halves (c.recorded).posted in
    subst (λ (id : String). Known t.accounts id)
      (some_eq (sym (h.first_posted).account ∙ faithful.nil_canonical))
      (subst (λ (u : Tables). Known u.accounts (h.first).account_id) (c.rebalanced).tables
        (h.first_posted).known)

CreditedWhen-platform :
    (e : Engine) (b : Bool) (p : Payment) (account : String) (t t' : Tables)
    → IsFaithful e
    → b ≡ true
    → CreditedWhen b e p account t t'
    → Known t.accounts platform_account
unfolding CreditedWhen
CreditedWhen-platform e true p account t t' faithful hit c =
    Credited-platform e p account t t' faithful c
CreditedWhen-platform e false p account t t' faithful miss c = ground arith

-- As long as `accounts` has no row for the platform, which no migration inserts, a webhook that
-- reports a success is refused and changes no table.
pub process_webhook-no_platform :
    (e : Engine) (provider : String) (event : WebhookPayload) (w : World)
    → IsFaithful e
    → is_succeeded event.status ≡ true
    → some_row (λ (a : Account). a.id == platform_account) w.tables.accounts ≡ false
    → Refused w (process_webhook e provider (some event) w)
process_webhook-no_platform e provider event w faithful success missing =
    Refused-when e provider event w (λ t' x.
      let known =
        CreditedWhen-platform e (is_succeeded event.status) x.payment x.account x.t3 x.t4 faithful
          success x.credited in
      let same : x.t3.accounts ≡ w.tables.accounts = rw (x.updated, (x.deduplicated).tables) refl in
      cc (missing, subst (λ (rows : List Account). Known rows platform_account) same known))
