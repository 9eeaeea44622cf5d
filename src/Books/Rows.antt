-- ===== src/Books/Rows.antt =====
-- Wallet rows: how a row is found among distinct ones, and what an UPDATE of a balance leaves.
use go_wallet_ledger.Base.{
  String, ◌≡◌, subst, List, [], ◌∷◌, some, true, ◌==◌, All, All-map, arith, if◌then◌else◌, find_row,
  All-find_row, All-update_rows, Bool-cases, inl, inr,
}
use go_wallet_ledger.Base.Int.{ℤ}
use go_wallet_ledger.Models.Wallets.{Wallet, has_id, rebalance}
use go_wallet_ledger.Transfers.{set_balance}
use go_wallet_ledger.Store.{Engine}
use go_wallet_ledger.Books.{Apart, Distinct, Named}

-- Among the rows, the id `key` and the account `account` name the same ones.
abbrev pub Names : String → String → Wallet → Type 0
Names key account w = (w.id == key) ≡ (account == w.account_id)

Names-rest :
    (key : String) (x : Wallet) (xs : List Wallet)
    → x.id ≡ key
    → All (Apart x) xs
    → All (Names key x.account_id) xs
Names-rest key x xs hit h = All-map (Apart x) (Names key x.account_id) (λ v a. ground arith) xs h

-- Where rows are distinct, a row's id names the rows that its account names: itself.
pub find_row-Names :
    (key : String) (ws : List Wallet) {r : Wallet}
    → Distinct ws
    → find_row (has_id key) ws ≡ some r
    → All (Names key r.account_id) ws
find_row-Names key [] {r} d e = tt
find_row-Names key (x ∷ xs) {r} d e = elim (Bool-cases (has_id key x)) [
  | inl hit ↦
      subst (λ (y : Wallet). All (Names key y.account_id) (x ∷ xs)) (found hit)
        (ground arith, Names-rest key x xs (ground arith) d.0)
  | inr miss ↦
      let rest = rw miss at e in
      let apart = All-find_row (Apart x) (has_id key) xs d.0 rest in
      (ground arith, find_row-Names key xs d.1 rest)
]
  where
    found : has_id key x ≡ true → x ≡ r
    found hit = ground arith

-- What a change of balances does to a property of all rows.
pub All-set_balance :
    (P Q : Wallet → Type 0) (k : String) (f : ℤ → ℤ)
    → ((w : Wallet) → P w → Q (if has_id k w then rebalance f w else w))
    → (ws : List Wallet) → All P ws
    → All Q (set_balance k f ws)
All-set_balance P Q k f step ws h = All-update_rows P Q (has_id k) (rebalance f) step ws h

pub set_balance-Names :
    (k key account : String) (f : ℤ → ℤ) (ws : List Wallet)
    → All (Names key account) ws
    → All (Names key account) (set_balance k f ws)
set_balance-Names k key account f ws h =
    All-set_balance (Names key account) (Names key account) k f (λ w n. ground arith) ws h

pub set_balance-Named :
    (e : Engine) (k : String) (f : ℤ → ℤ) (ws : List Wallet)
    → All (Named e) ws
    → All (Named e) (set_balance k f ws)
set_balance-Named e k f ws h =
    All-set_balance (Named e) (Named e) k f
      (λ w n. subst (λ (id : String). e.parse_uuid id ≡ some id) (same w) n) ws h
  where
    same : (w : Wallet) → w.id ≡ (if has_id k w then rebalance f w else w).id
    same w = ground arith

set_balance-Apart :
    (k : String) (f : ℤ → ℤ) (x y : Wallet) (ws : List Wallet)
    → (y.id ≡ x.id) × (y.account_id ≡ x.account_id)
    → All (Apart x) ws
    → All (Apart y) (set_balance k f ws)
set_balance-Apart k f x y ws same h =
    All-set_balance (Apart x) (Apart y) k f (λ w n. ground arith) ws h

pub set_balance-Distinct :
    (k : String) (f : ℤ → ℤ) (ws : List Wallet) → Distinct ws → Distinct (set_balance k f ws)
set_balance-Distinct k f [] d = tt
set_balance-Distinct k f (x ∷ xs) d = (
  set_balance-Apart k f x (if has_id k x then rebalance f x else x) xs (ground arith) d.0,
  set_balance-Distinct k f xs d.1,
)
