-- ===== src/Reconciliation/Detection.antt =====
-- The reconciliation's test of the wallets against the property that it stands for.
use go_wallet_ledger.Base.{
  sym, ◌∙◌, ◌≡◌, refl, List, [], ◌∷◌, true, if◌then◌else◌, All, arith, ◌↔◌, Bool-cases, inl, inr,
}
use go_wallet_ledger.Base.Int.{ℤ, ◌+ℤ◌, eqb_ℤ, is_int64}
use go_wallet_ledger.Models.Ledger.{Entry}
use go_wallet_ledger.Models.Wallets.{Wallet}
use go_wallet_ledger.Models.Reconciliation.{Mismatch}
use go_wallet_ledger.Store.{Result, ok, err}
use go_wallet_ledger.Ledger.Sums.{net}
use go_wallet_ledger.Books.{Backed}
use go_wallet_ledger.Reconciliation.{scan_wallets, noted, mismatch_of}

-- The totals that the query computes fit into a BIGINT.
abbrev pub InRange : List Entry → Wallet → Type 0
InRange entries w =
    (is_int64 (w.available_balance +ℤ w.locked_balance) ≡ true)
    × (is_int64 (net w.account_id entries) ≡ true)

eqb_refl : (a : ℤ) → eqb_ℤ a a ≡ true
eqb_refl a = ground arith

eqb_sound : (a b : ℤ) → eqb_ℤ a b ≡ true → a ≡ b
eqb_sound a b h = ground arith

abbrev total : Wallet → ℤ
total w = w.available_balance +ℤ w.locked_balance

noted_ok :
    (w : Wallet) (a b : ℤ) (rest : Result (ℤ × List Mismatch)) (n : ℤ) (ms : List Mismatch)
    → noted w a b rest ≡ ok (n, ms)
    → (m : ℤ) × (others : List Mismatch) × (rest ≡ ok (m, others))
      × (ms ≡ (if eqb_ℤ a b then others else mismatch_of w a b ∷ others))
noted_ok w a b (err x) n ms r = ground arith
noted_ok w a b (ok (m, others)) n ms r = (m, others, refl, ground arith)

scan_wallets-cons :
    (entries : List Entry) (w : Wallet) (ws : List Wallet)
    → InRange entries w
    → scan_wallets entries (w ∷ ws)
      ≡ noted w (total w) (net w.account_id entries) (scan_wallets entries ws)
unfolding scan_wallets
scan_wallets-cons entries w ws (t, l) = rw (t, l) refl

no_mismatch :
    (a b : ℤ) (m : Mismatch) (ms others : List Mismatch)
    → ms ≡ (if eqb_ℤ a b then others else m ∷ others)
    → a ≡ b
    → ms ≡ others
no_mismatch a b m ms others h same = ground (arith, eqb_refl b)

-- The mismatches that a scan reports are none where every wallet is backed.
pub scan_wallets-quiet :
    (entries : List Entry) (ws : List Wallet) (n : ℤ) (ms : List Mismatch)
    → All (Backed entries) ws
    → scan_wallets entries ws ≡ ok (n, ms)
    → ms ≡ []
unfolding scan_wallets
scan_wallets-quiet entries [] n ms h r = ground arith
scan_wallets-quiet entries (w ∷ ws) n ms h r = elim (Bool-cases (is_int64 (total w))) [
  | inr wide ↦ ground arith
  | inl fits ↦ elim (Bool-cases (is_int64 (net w.account_id entries))) [
    | inr wide ↦ ground arith
    | inl fits_too ↦
        let (m, others, rest, both) =
          noted_ok w (total w) (net w.account_id entries) (scan_wallets entries ws) n ms
            (sym (scan_wallets-cons entries w ws (fits, fits_too)) ∙ r) in
        no_mismatch (total w) (net w.account_id entries) _ ms others both h.0
        ∙ scan_wallets-quiet entries ws m others h.1 rest
  ]
]

both_ways :
    (a b : ℤ) (m : Mismatch) (ms others : List Mismatch)
    → ms ≡ (if eqb_ℤ a b then others else m ∷ others)
    → ms ≡ []
    → (a ≡ b) × (others ≡ [])
both_ways a b m ms others h none_left = elim (Bool-cases (eqb_ℤ a b)) [
  | inl same ↦ (eqb_sound a b same, ground arith)
  | inr other ↦ ground arith
]

-- Where the totals fit into a BIGINT, the wallets' check of a reconciliation reports no mismatch
-- exactly when every wallet's balances add up to the credits less the debits of its account.
pub scan_wallets-exact :
    (entries : List Entry) (ws : List Wallet) (n : ℤ) (ms : List Mismatch)
    → All (InRange entries) ws
    → scan_wallets entries ws ≡ ok (n, ms)
    → (ms ≡ []) ↔ All (Backed entries) ws
unfolding scan_wallets
scan_wallets-exact entries [] n ms range r = (λ _. tt, λ _. ground arith)
scan_wallets-exact entries (w ∷ ws) n ms range r =
    let (m, others, rest, both) =
      noted_ok w (total w) (net w.account_id entries) (scan_wallets entries ws) n ms
        (sym (scan_wallets-cons entries w ws range.0) ∙ r) in
    let next = scan_wallets-exact entries ws m others range.1 rest in
    (
      λ empty.
          let p = both_ways (total w) (net w.account_id entries) _ ms others both empty in
          (p.0, next.0 p.1),
      λ h. no_mismatch (total w) (net w.account_id entries) _ ms others both h.0 ∙ next.1 h.1,
    )
