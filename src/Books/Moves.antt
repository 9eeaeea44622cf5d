-- ===== src/Books/Moves.antt =====
-- A change of a wallet's balance, with the ledger entry that explains it.
use go_wallet_ledger.Base.{
  String, ◌≡◌, List, [], ◌∷◌, ◌++◌, true, false, not, ◌||◌, ◌==◌, All, All-map, All-zip,
  All-all_rows, all_rows, arith, if◌then◌else◌, Bool-cases, inl, inr, sym, ◌∙◌,
}
use go_wallet_ledger.Base.Int.{ℤ, pos, ◌+ℤ◌, ◌-ℤ◌, leb_ℤ, int_laws, ◌≤ℤ◌}
use go_wallet_ledger.Models.Ledger.{Direction, Entry}
use go_wallet_ledger.Models.Wallets.{Account, Wallet, has_id, rebalance}
use go_wallet_ledger.Models.Payments.{platform_account}
use go_wallet_ledger.Transfers.{set_balance}
use go_wallet_ledger.Ledger.Sums.{net, net-append, net-nil, net-cons_debit, net-cons_credit}
use go_wallet_ledger.Books.{Backed, Funded}
use go_wallet_ledger.Books.Rows.{Names, All-set_balance}

module _ (entries : List Entry) (x : Entry) where
  -- The ledger with one entry more.
  abbrev pub grown : List Entry
  grown = entries ++ x ∷ []

  net-grown_debit :
      (account : String)
      → x.direction ≡ Direction.debit
      → net account grown
        ≡ (if x.account_id == account then net account entries -ℤ x.amount else net account entries)
  net-grown_debit account h =
      rw (net-append account entries (x ∷ []), net-cons_debit account x [] h, net-nil account)
        (grind int_laws)

  net-grown_credit :
      (account : String)
      → x.direction ≡ Direction.credit
      → net account grown
        ≡ (if x.account_id == account then net account entries +ℤ x.amount else net account entries)
  net-grown_credit account h =
      rw (net-append account entries (x ∷ []), net-cons_credit account x [] h, net-nil account)
        (grind int_laws)

  module _ (key : String) where
    debit_row :
        x.direction ≡ Direction.debit
        → (w : Wallet) → Backed entries w × Names key x.account_id w
        → Backed grown (if has_id key w then rebalance (λ b. b -ℤ x.amount) w else w)
    debit_row dir w h = elim (Bool-cases (has_id key w)) [
      | inl hit ↦ rw (hit, net-grown_debit w.account_id dir, sym h.1 ∙ hit, ← h.0) (omega int_laws)
      | inr miss ↦ rw (miss, net-grown_debit w.account_id dir, sym h.1 ∙ miss) h.0
    ]

    credit_row :
        x.direction ≡ Direction.credit
        → (w : Wallet) → Backed entries w × Names key x.account_id w
        → Backed grown (if has_id key w then rebalance (λ b. b +ℤ x.amount) w else w)
    credit_row dir w h = elim (Bool-cases (has_id key w)) [
      | inl hit ↦ rw (hit, net-grown_credit w.account_id dir, sym h.1 ∙ hit, ← h.0) (omega int_laws)
      | inr miss ↦ rw (miss, net-grown_credit w.account_id dir, sym h.1 ∙ miss) h.0
    ]

    -- A withdrawal from a wallet, with the debit of its account.
    pub debit-Backed :
        (ws : List Wallet)
        → x.direction ≡ Direction.debit
        → All (Names key x.account_id) ws
        → All (Backed entries) ws
        → All (Backed grown) (set_balance key (λ b. b -ℤ x.amount) ws)
    debit-Backed ws dir names h =
        All-set_balance (λ w. Backed entries w × Names key x.account_id w) (Backed grown) key
          (λ b. b -ℤ x.amount) (debit_row dir) ws
          (All-zip (Backed entries) (Names key x.account_id) ws h names)

    -- A payment into a wallet, with the credit of its account.
    pub credit-Backed :
        (ws : List Wallet)
        → x.direction ≡ Direction.credit
        → All (Names key x.account_id) ws
        → All (Backed entries) ws
        → All (Backed grown) (set_balance key (λ b. b +ℤ x.amount) ws)
    credit-Backed ws dir names h =
        All-set_balance (λ w. Backed entries w × Names key x.account_id w) (Backed grown) key
          (λ b. b +ℤ x.amount) (credit_row dir) ws
          (All-zip (Backed entries) (Names key x.account_id) ws h names)

  -- The debit of an account that no wallet has.
  pub outside-Backed :
      (accounts : List Account) (ws : List Wallet)
      → x.direction ≡ Direction.debit
      → x.account_id ≡ platform_account
      → All (Funded accounts) ws
      → All (Backed entries) ws
      → All (Backed grown) ws
  outside-Backed accounts ws dir outside funded h =
      All-map (λ w. Funded accounts w × Backed entries w) (Backed grown)
        (λ w r. rw (net-grown_debit w.account_id dir, outside, not_platform w (r.0).private) r.1) ws
        (All-zip (Funded accounts) (Backed entries) ws funded h)
    where
      not_platform :
          (w : Wallet)
          → (w.account_id == platform_account) ≡ false
          → (platform_account == w.account_id) ≡ false
      not_platform w p = ground arith

-- The row that a statement changed meets the constraint that the statement checked.
rebalanced_nonneg :
    (k : String) (f : ℤ → ℤ) (w : Wallet)
    → (not (has_id k w) || leb_ℤ (pos 0) (f w.available_balance)) ≡ true
    → has_id k w ≡ true
    → pos 0 ≤ℤ f w.available_balance
rebalanced_nonneg k f w h hit = ground arith

-- The constraint of the table keeps the balances from falling below zero.
pub set_balance-Funded :
    (accounts : List Account) (k : String) (f : ℤ → ℤ) (ws : List Wallet)
    → all_rows (λ (w : Wallet). not (has_id k w) || leb_ℤ (pos 0) (f w.available_balance)) ws ≡ true
    → All (Funded accounts) ws
    → All (Funded accounts) (set_balance k f ws)
set_balance-Funded accounts k f ws met h =
    All-set_balance (λ w. Funded accounts w × Met w) (Funded accounts) k f row ws
      (All-zip (Funded accounts) Met ws h (All-all_rows Met _ (λ w m. m) ws met))
  where
    Met : Wallet → Type 0
    Met w = (not (has_id k w) || leb_ℤ (pos 0) (f w.available_balance)) ≡ true

    row :
        (w : Wallet)
        → Funded accounts w × Met w
        → Funded accounts (if has_id k w then rebalance f w else w)
    row w r = elim (Bool-cases (has_id k w)) [
      | inl hit ↦ rw hit (record {
        available = rebalanced_nonneg k f w r.1 hit;
        locked = (r.0).locked;
        known = (r.0).known;
        private = (r.0).private;
      })
      | inr miss ↦ rw miss r.0
    ]
