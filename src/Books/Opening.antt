-- ===== src/Books/Opening.antt =====
-- A new wallet over a new account.
use go_wallet_ledger.Base.{
  String, ◌≡◌, List, [], ◌∷◌, ◌++◌, some, false, ◌==◌, All, All-append, All-map, arith, some_row,
}
use go_wallet_ledger.Base.Int.{pos, int_laws}
use go_wallet_ledger.Models.Ledger.{Entry}
use go_wallet_ledger.Models.Wallets.{Account, Wallet, has_id}
use go_wallet_ledger.Models.Payments.{platform_account}
use go_wallet_ledger.Store.{Engine, Tables}
use go_wallet_ledger.Ledger.Sums.{net, net-absent}
use go_wallet_ledger.Books.{IsSound, Distinct, Apart, Backed, Named, Funded, Known}

Known-append :
    (accounts : List Account) (a : Account) (id : String)
    → Known accounts id
    → Known (accounts ++ a ∷ []) id
Known-append [] a id h = cc h
Known-append (x ∷ xs) a id h = ground (arith, Known-append xs a id)

Known-last : (accounts : List Account) (a : Account) → Known (accounts ++ a ∷ []) a.id
Known-last [] a = ground arith
Known-last (x ∷ xs) a = ground (arith, Known-last xs a)

abbrev Unknown : List Account → String → Type 0
Unknown accounts id = some_row (λ (a : Account). a.id == id) accounts ≡ false

-- A known account is not an unknown one.
Known-differs :
    (accounts : List Account) (a b : String)
    → Known accounts a
    → Unknown accounts b
    → (a == b) ≡ false
Known-differs [] a b h k = cc h
Known-differs (x ∷ xs) a b h k = ground (arith, Known-differs xs a b)

Funded-append :
    (accounts : List Account) (a : Account) (w : Wallet)
    → Funded accounts w
    → Funded (accounts ++ a ∷ []) w
Funded-append accounts a w f = record {
  available = f.available;
  locked = f.locked;
  known = Known-append accounts a w.account_id f.known;
  private = f.private;
}

fresh_id :
    (ws : List Wallet) (w : Wallet)
    → some_row (has_id w.id) ws ≡ false
    → All (λ (v : Wallet). (v.id == w.id) ≡ false) ws
fresh_id [] w h = tt
fresh_id (x ∷ xs) w h = (ground arith, fresh_id xs w (ground arith))

Distinct-snoc :
    (accounts : List Account) (ws : List Wallet) (w : Wallet)
    → All (Funded accounts) ws
    → Unknown accounts w.account_id
    → some_row (has_id w.id) ws ≡ false
    → Distinct ws
    → Distinct (ws ++ w ∷ [])
Distinct-snoc accounts [] w f u k d = (tt, tt)
Distinct-snoc accounts (x ∷ xs) w f u k d = (
  All-append (Apart x) xs (w ∷ []) d.0
      ((ground arith, Known-differs accounts x.account_id w.account_id (f.0).known u), tt),
  Distinct-snoc accounts xs w f.1 u (ground arith) d.1,
)

module _ (e : Engine) (t t' : Tables) (sound : IsSound e t) (a : Account) (w : Wallet) where
  pub opening-IsSound :
      (t'.accounts ≡ t.accounts ++ a ∷ [])
        × (t'.wallets ≡ t.wallets ++ w ∷ [])
        × (t'.ledger_entries ≡ t.ledger_entries)
      → (w.account_id ≡ a.id) × (w.available_balance ≡ pos 0) × (w.locked_balance ≡ pos 0)
      → Unknown t.accounts a.id
      → some_row (has_id w.id) t.wallets ≡ false
      → (e.parse_uuid a.id ≡ some a.id) × ((a.id == platform_account) ≡ false)
      → Named e w
      → IsSound e t'
  opening-IsSound (accounts, wallets, ledger) (own, no_funds, no_locks) new new_id (canon, private)
        named =
      record {
        distinct =
            rw wallets (
              Distinct-snoc t.accounts t.wallets w sound.funded (rw own new) new_id sound.distinct);
        backed =
            rw (wallets, ledger)
              (All-append (Backed t.ledger_entries) t.wallets (w ∷ []) sound.backed
                (backed_new, tt));
        named = rw wallets (All-append (Named e) t.wallets (w ∷ []) sound.named (named, tt));
        funded =
            rw (wallets, accounts)
              (All-append (Funded (t.accounts ++ a ∷ [])) t.wallets (w ∷ [])
                (All-map (Funded t.accounts) (Funded (t.accounts ++ a ∷ []))
                  (Funded-append t.accounts a) t.wallets sound.funded)
                (funded_new, tt));
        canonical = rw accounts (
            All-append (λ (b : Account). e.parse_uuid b.id ≡ some b.id) t.accounts (a ∷ [])
              sound.canonical (canon, tt));
        posted =
            rw (ledger, accounts)
              (All-map (λ (x : Entry). Known t.accounts x.account_id)
                (λ (x : Entry). Known (t.accounts ++ a ∷ []) x.account_id)
                (λ x. Known-append t.accounts a x.account_id) t.ledger_entries sound.posted);
        balanced = rw ledger sound.balanced;
      }
    where
      no_entries : net a.id t.ledger_entries ≡ pos 0
      no_entries = net-absent a.id t.ledger_entries (
          All-map (λ (x : Entry). Known t.accounts x.account_id)
            (λ (x : Entry). (x.account_id == a.id) ≡ false)
            (λ x k. Known-differs t.accounts x.account_id a.id k new) t.ledger_entries sound.posted)

      backed_new : Backed t.ledger_entries w
      backed_new = rw (own, no_funds, no_locks, no_entries) (omega int_laws)

      funded_new : Funded (t.accounts ++ a ∷ []) w
      funded_new = record {
        available = rw no_funds (omega arith);
        locked = rw no_locks (omega arith);
        known = rw own (Known-last t.accounts a);
        private = rw own private;
      }
