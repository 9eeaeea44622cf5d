-- ===== src/Payments/Terminal.antt =====
-- internal/payments/service.go: a payment after the webhook that settled it.
use go_wallet_ledger.Base.{
  ℕ, String, ◌≡◌, refl, sym, ap, ◌∙◌, List, [], ◌∷◌, some, some_eq, Bool, true, false, ◌==◌, ◌||◌,
  find_row, update_rows, arith, if◌then◌else◌, Bool-cases, inl, inr,
}
use go_wallet_ledger.Models.Payments.{
  Payment, PaymentStatus, WebhookPayload, is_succeeded, is_failed,
}
use go_wallet_ledger.Store.{Tables, Engine}
use go_wallet_ledger.Payments.{referenced, set_payment_status, payment_updated, is_valid_transition}
use go_wallet_ledger.Payments.Webhook.{Processed, CreditedWhen}
use go_wallet_ledger.Payments.Refusals.{same_payment}

-- The row that a query finds after an UPDATE that leaves the query's column.
pub find_row-updated :
    (q p : Payment → Bool) (f : Payment → Payment) (rows : List Payment) (x : Payment)
    → ((y : Payment) → q (f y) ≡ q y)
    → find_row q rows ≡ some x
    → find_row q (update_rows p f rows) ≡ some (if p x then f x else x)
find_row-updated q p f [] x same h = ground arith
find_row-updated q p f (y ∷ ys) x same h = elim (Bool-cases (q y)) [
  | inl hit ↦
      let found : y ≡ x = some_eq (rw hit at h) in
      rw (kept, hit) (ap (λ (z : Payment). some (if p z then f z else z)) found)
  | inr miss ↦ rw (kept, miss) (find_row-updated q p f ys x same (rw miss at h))
]
  where
    kept : q (if p y then f y else y) ≡ q y
    kept = ground (arith, same y)

pub CreditedWhen-payments :
    (e : Engine) (b : Bool) (p : Payment) (account : String) (t t' : Tables)
    → CreditedWhen b e p account t t'
    → t'.payments ≡ t.payments
unfolding CreditedWhen
CreditedWhen-payments e true p account t t' c = rw ((c.recorded).tables, (c.rebalanced).tables) refl
CreditedWhen-payments e false p account t t' c = rw c refl

-- The payments after a webhook.
pub Processed-payments :
    (e : Engine) (provider : String) (event : WebhookPayload) (t t' : Tables)
    → (x : Processed e provider event t t')
    → t'.payments ≡ (payment_updated x.key x.now event.status t).payments
Processed-payments e provider event t t' x =
    let payments = λ (u : Tables). u.payments in
    ap payments (x.announced).1
    ∙ CreditedWhen-payments e (is_succeeded event.status) x.payment x.account x.t3 x.t4 x.credited
    ∙ ap payments x.updated
    ∙ ap (λ (u : Tables). (payment_updated x.key x.now event.status u).payments)
        (x.deduplicated).tables

pub closed_after :
    (status next : PaymentStatus)
    → is_succeeded status || is_failed status ≡ true
    → is_valid_transition status next ≡ false
unfolding is_valid_transition
closed_after status next h = ground arith

updated_self :
    (now : ℕ) (status : PaymentStatus) (p : Payment)
    → some (if p.id == p.id then set_payment_status now status p else p)
      ≡ some (set_payment_status now status p)
updated_self now status p = ground arith

-- The payment of a processed webhook has the event's status.
pub settled_row :
    (e : Engine) (provider : String) (event : WebhookPayload) (t t' : Tables) (p : Payment)
    → referenced event.reference_id t ≡ some p
    → e.parse_uuid p.id ≡ some p.id
    → (x : Processed e provider event t t')
    → referenced event.reference_id t' ≡ some (set_payment_status x.now event.status p)
settled_row e provider event t t' p found canonical x =
    let rows = Processed-payments e provider event t t' x in
    let q = λ (r : Payment). r.provider_reference == event.reference_id in
    let own : x.key ≡ p.id =
      some_eq (
        sym x.read
        ∙ ap (λ (r : Payment). e.parse_uuid r.id) (same_payment p found x)
        ∙ canonical) in
    ap (find_row q) rows
    ∙ find_row-updated q (λ (r : Payment). r.id == x.key) (set_payment_status x.now event.status)
        t.payments p (λ y. refl) found
    ∙ rw own (updated_self x.now event.status p)
