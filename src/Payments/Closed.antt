-- ===== src/Payments/Closed.antt =====
-- internal/payments/service.go: a payment that has been settled stays as it is, whatever other payments
-- and webhooks do.
use go_wallet_ledger.Base.{
  ℕ, String, ◌≡◌, refl, sym, ap, ◌∙◌, subst, [], ◌∷◌, ◌++◌, Option, none, some, some_eq, Bool, true,
  false, ◌==◌, ◌||◌, All, All-append, All-find_row, All-update_rows, find_row, find_row-append,
  some_row, arith, if◌then◌else◌, Bool-cases, Option-cases, inl, inr, ◌⊎◌,
}
use go_wallet_ledger.Base.Int.{ℤ}
use go_wallet_ledger.Models.Payments.{Payment, WebhookPayload, is_succeeded, is_failed}
use go_wallet_ledger.Store.{World, Tables, Engine, ok, next, raise, calls, violation}
use go_wallet_ledger.Store.Laws.{transaction-keeps, Refused}
use go_wallet_ledger.Books.{IsFaithful}
use go_wallet_ledger.Payments.{
  create_payment, insert_payment, payment_row, payment_constraints, process_payment,
  process_webhook, webhook_body, referenced, set_payment_status, is_valid_transition,
}
use go_wallet_ledger.Payments.Rows.{Distinct, same_id, updated-Distinct, appended-Distinct}
use go_wallet_ledger.Payments.Webhook.{Processed, webhook_body-Processed, process_webhook-Processed}
use go_wallet_ledger.Payments.Refusals.{process_webhook-closed}
use go_wallet_ledger.Payments.Terminal.{
  find_row-updated, Processed-payments, closed_after, settled_row,
}

-- The primary key of `payments`: the ids are distinct, and the database reads them as themselves.
pub record IsKeyed (e : Engine) (t : Tables) : Type 0 where
  pub distinct : Distinct t.payments
  pub canonical : All (λ (p : Payment). e.parse_uuid p.id ≡ some p.id) t.payments

-- The payment of that reference has succeeded or failed.
pub record IsClosed (reference : String) (t : Tables) : Type 0 where
  pub payment : Payment
  pub found : referenced reference t ≡ some payment
  pub terminal : is_succeeded payment.status || is_failed payment.status ≡ true

-- What `CreatePayment` does to the tables: nothing, or one row more with a new id.
record Created (e : Engine) (t t' : Tables) : Type 0 where
  row : Payment
  tick : ℕ
  generated : row.id ≡ e.fresh_id tick
  new : some_row (λ (r : Payment). r.id == row.id) t.payments ≡ false
  rows : t'.payments ≡ t.payments ++ row ∷ []

payment_new :
    (row : Payment) (t : Tables)
    → violation (payment_constraints row t) ≡ none
    → some_row (λ (r : Payment). r.id == row.id) t.payments ≡ false
payment_new row t h = ground arith

create_payment-Created :
    (e : Engine) (draw : String × Bool) (wallet : String) (amount : ℤ) (currency : String)
    (w : World)
    → let t' = (create_payment e draw wallet amount currency w).1.tables in
      (t'.payments ≡ w.tables.payments) ⊎ Created e w.tables t'
unfolding create_payment insert_payment calls
create_payment-Created e draw wallet amount currency w = elim (Bool-cases (e.fault w.tick)) [
  | inl down ↦ inl (rw down refl)
  | inr up ↦ elim (Option-cases (e.parse_uuid wallet)) [
    | inl unread ↦ inl (rw (up, unread) refl)
    | inr (key, read) ↦
        let row = payment_row e w.tick key amount currency (process_payment draw) in
        elim (Option-cases (violation (payment_constraints row w.tables))) [
          | inr (x, fails) ↦ inl (rw (up, read, fails) refl)
          | inl holds ↦ inr (record {
            row = row;
            tick = w.tick;
            generated = refl;
            new = payment_new row w.tables holds;
            rows = rw (up, read, holds) refl;
          })
        ]
  ]
]

module _ (e : Engine) (faithful : IsFaithful e) where
  same-IsKeyed : (t t' : Tables) → t'.payments ≡ t.payments → IsKeyed e t → IsKeyed e t'
  same-IsKeyed t t' same k = record {
    distinct = rw same k.distinct;
    canonical = rw same k.canonical;
  }

  pub same-IsClosed :
      (reference : String) (t t' : Tables)
      → t'.payments ≡ t.payments
      → IsClosed reference t
      → IsClosed reference t'
  same-IsClosed reference t t' same c = record {
    payment = c.payment;
    found = rw same c.found;
    terminal = c.terminal;
  }

  Created-IsKeyed : (t t' : Tables) → Created e t t' → IsKeyed e t → IsKeyed e t'
  Created-IsKeyed t t' c k = record {
    distinct = rw c.rows (appended-Distinct t.payments c.row c.new k.distinct);
    canonical = rw c.rows (
        All-append (λ (p : Payment). e.parse_uuid p.id ≡ some p.id) t.payments (c.row ∷ [])
          k.canonical (rw c.generated (faithful.fresh_canonical c.tick), tt));
  }

  Created-IsClosed :
      (reference : String) (t t' : Tables)
      → Created e t t'
      → IsClosed reference t
      → IsClosed reference t'
  Created-IsClosed reference t t' c h = record {
    payment = h.payment;
    found = rw c.rows (
        find_row-append (λ (r : Payment). r.provider_reference == reference) t.payments (c.row ∷ [])
          h.payment h.found);
    terminal = h.terminal;
  }

  Processed-IsKeyed :
      (provider : String) (event : WebhookPayload) (t t' : Tables)
      → Processed e provider event t t'
      → IsKeyed e t
      → IsKeyed e t'
  Processed-IsKeyed provider event t t' x k =
      let p = λ (r : Payment). r.id == x.key in
      let f = set_payment_status x.now event.status in
      let rows = Processed-payments e provider event t t' x in
      record {
        distinct = rw rows (updated-Distinct p f t.payments (λ z. refl) k.distinct);
        canonical = rw rows (
            All-update_rows (λ (r : Payment). e.parse_uuid r.id ≡ some r.id)
              (λ (r : Payment). e.parse_uuid r.id ≡ some r.id) p f
              (λ r h. subst (λ (id : String). e.parse_uuid id ≡ some id) (same_after p r) h)
              t.payments k.canonical);
      }
    where
      same_after :
          (p : Payment → Bool) (r : Payment)
          → r.id ≡ (if p r then set_payment_status x.now event.status r else r).id
      same_after p r = ground arith

  -- The payment that a webhook changes is not one that is closed.
  Processed-other :
      (reference provider : String) (event : WebhookPayload) (t t' : Tables)
      → (x : Processed e provider event t t') → IsKeyed e t
      → (c : IsClosed reference t) → ((c.payment).id == x.key) ≡ false
  Processed-other reference provider event t t' x k c =
      elim (Bool-cases ((c.payment).id == x.key)) [
        | inr other ↦ other
        | inl same ↦
            let named = λ (id : String) (r : Payment). r.provider_reference == id in
            let found : referenced event.reference_id t ≡ some x.payment =
              sym (ap (referenced event.reference_id) (x.deduplicated).tables)
              ∙ (x.referenced).payment in
            let own : x.key ≡ (x.payment).id = some_eq (
              sym x.read
              ∙ All-find_row (λ (r : Payment). e.parse_uuid r.id ≡ some r.id)
                  (named event.reference_id) t.payments k.canonical found) in
            let one =
              same_id (named reference) (named event.reference_id) t.payments c.payment x.payment
                k.distinct c.found found
                (subst (λ (id : String). ((c.payment).id == id) ≡ true) own same) in
            cc (
              subst (λ (r : Payment). is_valid_transition r.status event.status ≡ true) (sym one)
                  x.allowed,
              closed_after (c.payment).status event.status c.terminal,
            )
      ]

  Processed-IsClosed :
      (reference provider : String) (event : WebhookPayload) (t t' : Tables)
      → Processed e provider event t t'
      → IsKeyed e t
      → IsClosed reference t
      → IsClosed reference t'
  Processed-IsClosed reference provider event t t' x k c =
      let q = λ (r : Payment). r.provider_reference == reference in
      record {
        payment = c.payment;
        found =
            ap (find_row q) (Processed-payments e provider event t t' x)
            ∙ find_row-updated q (λ (r : Payment). r.id == x.key)
                (set_payment_status x.now event.status) t.payments c.payment (λ y. refl) c.found
            ∙ rw (Processed-other reference provider event t t' x k c) refl;
        terminal = c.terminal;
      }

  -- Both, for the calls that change payments.
  abbrev pub Settled : String → Tables → Type 0
  Settled reference t = IsKeyed e t × IsClosed reference t

  pub create_payment-Settled :
      (reference : String) (draw : String × Bool) (wallet : String) (amount : ℤ) (currency : String)
      (w : World)
      → Settled reference w.tables
      → Settled reference (create_payment e draw wallet amount currency w).1.tables
  create_payment-Settled reference draw wallet amount currency w (k, c) =
      let t' = (create_payment e draw wallet amount currency w).1.tables in
      elim (create_payment-Created e draw wallet amount currency w) [
        | inl same ↦ (same-IsKeyed w.tables t' same k, same-IsClosed reference w.tables t' same c)
        | inr made ↦
            (Created-IsKeyed w.tables t' made k, Created-IsClosed reference w.tables t' made c)
      ]

  pub process_webhook-Settled :
      (reference provider : String) (event : Option WebhookPayload) (w : World)
      → Settled reference w.tables
      → Settled reference (process_webhook e provider event w).1.tables
  unfolding process_webhook raise
  process_webhook-Settled reference provider none w h = h
  process_webhook-Settled reference provider (some event) w (k, c) =
      transaction-keeps (Settled reference) e (webhook_body e provider event) w
        (record {
          at = λ a w' run.
              let x = (webhook_body-Processed e provider event (next w)).at a w' run in
              (
                Processed-IsKeyed provider event w.tables w'.tables x k,
                Processed-IsClosed reference provider event w.tables w'.tables x k c,
              );
        })
        (k, c)

  pub same-Settled :
      (reference : String) (t t' : Tables)
      → t'.payments ≡ t.payments
      → Settled reference t
      → Settled reference t'
  same-Settled reference t t' same (k, c) =
      (same-IsKeyed t t' same k, same-IsClosed reference t t' same c)

  -- A webhook that reports the end of a payment closes it.
  pub process_webhook-IsClosed :
      (provider : String) (event : WebhookPayload) (w : World)
      → IsKeyed e w.tables
      → is_succeeded event.status || is_failed event.status ≡ true
      → (process_webhook e provider (some event) w).0 ≡ ok tt
      → Settled event.reference_id (process_webhook e provider (some event) w).1.tables
  process_webhook-IsClosed provider event w k ended done =
      let t' = (process_webhook e provider (some event) w).1.tables in
      let x = process_webhook-Processed e provider event w done in
      let found : referenced event.reference_id w.tables ≡ some x.payment =
        sym (ap (referenced event.reference_id) (x.deduplicated).tables) ∙ (x.referenced).payment in
      (
        Processed-IsKeyed provider event w.tables t' x k,
        record {
          payment = set_payment_status x.now event.status x.payment;
          found =
              settled_row e provider event w.tables t' x.payment found
                (All-find_row (λ (r : Payment). e.parse_uuid r.id ≡ some r.id)
                  (λ (r : Payment). r.provider_reference == event.reference_id) w.tables.payments
                  k.canonical found)
                x;
          terminal = ended;
        },
      )

-- A webhook for a payment that is closed is refused.
pub IsClosed-Refused :
    (e : Engine) (provider : String) (event : WebhookPayload) (w : World)
    → IsClosed event.reference_id w.tables
    → Refused w (process_webhook e provider (some event) w)
IsClosed-Refused e provider event w c =
    process_webhook-closed e provider event w c.payment c.found
      (closed_after (c.payment).status event.status c.terminal)
