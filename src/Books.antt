-- ===== src/Books.antt =====
-- What ties the wallets to the ledger: the property of the tables that the reconciliation worker
-- checks, with what its preservation rests on.
pub mod Accounts
pub mod Rows
pub mod Moves
pub mod Steps
pub mod Opening
pub mod Relabel
use go_wallet_ledger.Base.{ℕ, String, ◌≡◌, List, [], ◌∷◌, some, true, false, ◌==◌, All, some_row}
use go_wallet_ledger.Base.Int.{ℤ, pos, ◌+ℤ◌, ◌≤ℤ◌}
use go_wallet_ledger.Models.Ledger.{Entry}
use go_wallet_ledger.Models.Wallets.{Wallet, Account}
use go_wallet_ledger.Models.Payments.{platform_account}
use go_wallet_ledger.Store.{Engine, Tables}
use go_wallet_ledger.Ledger.Sums.{net, sum_debits, sum_credits}

-- The documented behaviour of UUIDs in the database: the canonical text reads as itself, and a
-- generated id is canonical and not the nil UUID, whose text is canonical.
pub record IsFaithful (e : Engine) : Type 0 where
  pub reads_canonical : (s c : String) → e.parse_uuid s ≡ some c → e.parse_uuid c ≡ some c
  pub nil_canonical : e.parse_uuid platform_account ≡ some platform_account
  pub fresh_canonical : (n : ℕ) → e.parse_uuid (e.fresh_id n) ≡ some (e.fresh_id n)
  pub fresh_not_nil : (n : ℕ) → (e.fresh_id n == platform_account) ≡ false

abbrev pub Known : List Account → String → Type 0
Known accounts id = some_row (λ (a : Account). a.id == id) accounts ≡ true

-- No two wallets share an id or an account.
abbrev pub Apart : Wallet → Wallet → Type 0
Apart w v = ((w.id == v.id) ≡ false) × ((w.account_id == v.account_id) ≡ false)

abbrev pub Distinct : List Wallet → Type 0
Distinct [] = Unit
Distinct (w ∷ ws) = All (Apart w) ws × Distinct ws

-- The database reads the wallet's id as itself.
abbrev pub Named : Engine → Wallet → Type 0
Named e w = e.parse_uuid w.id ≡ some w.id

-- The wallet's two balances add up to the credits less the debits of its account.
abbrev pub Backed : List Entry → Wallet → Type 0
Backed entries w = w.available_balance +ℤ w.locked_balance ≡ net w.account_id entries

pub record Funded (accounts : List Account) (w : Wallet) : Type 0 where
  pub available : pos 0 ≤ℤ w.available_balance
  pub locked : pos 0 ≤ℤ w.locked_balance
  pub known : Known accounts w.account_id
  pub private : (w.account_id == platform_account) ≡ false

pub record IsSound (e : Engine) (t : Tables) : Type 0 where
  pub distinct : Distinct t.wallets
  pub backed : All (Backed t.ledger_entries) t.wallets
  pub named : All (Named e) t.wallets
  pub funded : All (Funded t.accounts) t.wallets
  pub canonical : All (λ (a : Account). e.parse_uuid a.id ≡ some a.id) t.accounts
  pub posted : All (λ (x : Entry). Known t.accounts x.account_id) t.ledger_entries
  pub balanced : sum_debits t.ledger_entries ≡ sum_credits t.ledger_entries
