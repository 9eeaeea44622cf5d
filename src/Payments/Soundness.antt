-- ===== src/Payments/Soundness.antt =====
-- internal/payments/service.go: `ProcessWebhook` and the agreement of the wallets with the ledger.
use go_wallet_ledger.Base.{
  String, ◌≡◌, refl, sym, ap, ◌∙◌, subst, List, ◌++◌, Option, none, some, Bool, true, false,
  find_row, find_row-holds, All-find_row, arith, some_eq,
}
use go_wallet_ledger.Base.Int.{◌+ℤ◌}
use go_wallet_ledger.Models.Ledger.{Entry}
use go_wallet_ledger.Models.Wallets.{Wallet, has_id}
use go_wallet_ledger.Models.Payments.{Payment, WebhookPayload, is_succeeded, platform_account}
use go_wallet_ledger.Store.{World, Tables, Engine, next, raise}
use go_wallet_ledger.Store.Laws.{transaction-keeps}
use go_wallet_ledger.Transfers.{set_balance}
use go_wallet_ledger.Transfers.Soundness.{halves}
use go_wallet_ledger.Books.{IsFaithful, IsSound, Named, Funded, Known}
use go_wallet_ledger.Books.Accounts.{Known-canonical}
use go_wallet_ledger.Books.Steps.{same-IsSound, payment-IsSound}
use go_wallet_ledger.Payments.{webhook_body, process_webhook}
use go_wallet_ledger.Payments.Webhook.{Processed, Credited, CreditedWhen, webhook_body-Processed}

module _ (e : Engine) (faithful : IsFaithful e) (p : Payment) (account : String) (t t' : Tables)
    (sound : IsSound e t) (wallet : Wallet)
    (found : find_row (has_id p.wallet_id) t.wallets ≡ some wallet)
    (own : account ≡ wallet.account_id) (credited : Credited e p account t t') where
  open credited use {between, rebalanced, recorded}
  open halves recorded.posted use {first, second, both, first_posted, second_posted}

  wallet_key : rebalanced.key ≡ p.wallet_id
  wallet_key = some_eq (
      sym rebalanced.read
      ∙ ap e.parse_uuid (sym named)
      ∙ All-find_row (Named e) (has_id p.wallet_id) t.wallets sound.named found
      ∙ ap some named)
    where
      named : wallet.id ≡ p.wallet_id
      named = same (find_row-holds (has_id p.wallet_id) t.wallets found)
        where
          same : has_id p.wallet_id wallet ≡ true → wallet.id ≡ p.wallet_id
          same hit = ground arith

  paid_wallets : t'.wallets ≡ set_balance rebalanced.key (λ b. b +ℤ p.amount) t.wallets
  paid_wallets = rw recorded.tables (ap (λ (u : Tables). u.wallets) rebalanced.tables)

  credited-IsSound : IsSound e t'
  credited-IsSound =
      payment-IsSound e t t' sound first second
        (record {
          debits = first_posted.direction;
          credits = second_posted.direction;
          amount = first_posted.amount ∙ sym second_posted.amount;
        })
        (ap (λ (u : Tables). u.ledger_entries) recorded.tables
          ∙ ap (λ (u : Tables). u.ledger_entries ++ recorded.rows) rebalanced.tables
          ∙ ap (λ (l : List Entry). t.ledger_entries ++ l) both)
        (rw (recorded.tables, rebalanced.tables) refl)
        (
          subst (λ (u : Tables). Known_at u first) rebalanced.tables first_posted.known,
          subst (λ (u : Tables). Known_at u second) rebalanced.tables second_posted.known,
        )
        p.wallet_id wallet found (platform, paid)
        (rw second_posted.amount
          (rw (← wallet_key) paid_wallets, rw (← wallet_key) rebalanced.nonneg))
    where
      Known_at : Tables → Entry → Type 0
      Known_at u x = Known u.accounts x.account_id

      platform : first.account_id ≡ platform_account
      platform = some_eq (sym first_posted.account ∙ faithful.nil_canonical)

      paid : second.account_id ≡ wallet.account_id
      paid = some_eq (
          sym second_posted.account
          ∙ ap e.parse_uuid own
          ∙ Known-canonical e t.accounts wallet.account_id sound.canonical
              (All-find_row (Funded t.accounts) (has_id p.wallet_id) t.wallets sound.funded
                found).known)

CreditedWhen-IsSound :
    (e : Engine) (faithful : IsFaithful e) (b : Bool) (p : Payment) (account : String)
    (t t' : Tables)
    → IsSound e t
    → (wallet : Wallet) → find_row (has_id p.wallet_id) t.wallets ≡ some wallet
    → account ≡ wallet.account_id
    → CreditedWhen b e p account t t'
    → IsSound e t'
unfolding CreditedWhen
CreditedWhen-IsSound e faithful true p account t t' sound wallet found own c =
    credited-IsSound e faithful p account t t' sound wallet found own c
CreditedWhen-IsSound e faithful false p account t t' sound wallet found own c = rw c sound

Processed-IsSound :
    (e : Engine) (faithful : IsFaithful e) (provider : String) (event : WebhookPayload)
    (t t' : Tables)
    → IsSound e t
    → Processed e provider event t t'
    → IsSound e t'
Processed-IsSound e faithful provider event t t' sound x =
    let r = x.referenced in
    let sound1 = same-IsSound e t x.t1 sound (rw (x.deduplicated).tables (refl, refl, refl)) in
    let sound3 = same-IsSound e x.t1 x.t3 sound1 (rw x.updated (refl, refl, refl)) in
    let sound4 =
      CreditedWhen-IsSound e faithful (is_succeeded event.status) x.payment x.account x.t3 x.t4
        sound3 r.wallet
        (subst (λ (u : Tables). find_row (has_id (x.payment).wallet_id) u.wallets ≡ some r.wallet)
          (sym x.updated) r.found)
        r.account x.credited in
    same-IsSound e x.t4 t' sound4 (rw (x.announced).1 (refl, refl, refl))

-- Whatever a webhook says, and however the database behaves, also on every error path, it leaves the
-- wallets in agreement with the ledger.
pub process_webhook-IsSound :
    (e : Engine) (provider : String) (event : Option WebhookPayload) (w : World)
    → IsFaithful e
    → IsSound e w.tables
    → IsSound e (process_webhook e provider event w).1.tables
unfolding process_webhook raise
process_webhook-IsSound e provider none w faithful sound = sound
process_webhook-IsSound e provider (some event) w faithful sound =
    transaction-keeps (IsSound e) e (webhook_body e provider event) w
      (record {
        at = λ a w' run.
            Processed-IsSound e faithful provider event w.tables w'.tables sound
              ((webhook_body-Processed e provider event (next w)).at a w' run);
      })
      sound
