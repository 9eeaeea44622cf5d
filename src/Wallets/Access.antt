-- ===== src/Wallets/Access.antt =====
-- internal/wallets: who may read a wallet, and what the status handlers change.
use go_wallet_ledger.Base.{
  String, ◌≡◌, refl, some, true, false, arith, update_rows, find_row, inl, inr, Option-cases,
  Bool-cases, ◌⊎◌,
}
use go_wallet_ledger.Base.Int.{◌+₆₄◌}
use go_wallet_ledger.Models.Errors.{Error}
use go_wallet_ledger.Models.Auth.{Role}
use go_wallet_ledger.Models.Wallets.{Wallet, WalletStatus, has_id}
use go_wallet_ledger.Store.{World, Tables, Engine, ok, err, next, calls}
use go_wallet_ledger.Books.{IsSound}
use go_wallet_ledger.Books.Relabel.{relabel-IsSound, SameBooks}
use go_wallet_ledger.Wallets.{get_wallet_by_id, update_wallet_status, set_status, list_transactions}
use go_wallet_ledger.Wallets.Service.{get_wallet, may_view, get_balance, get_transactions}

-- Who may read a wallet: its owner, the system and the admins.
abbrev pub Reader : Wallet → String → Role → Type 0
Reader v caller_id role = (v.owner_id ≡ caller_id) ⊎ (role ≡ Role.system) ⊎ (role ≡ Role.admin)

-- The text `id` reads as the id of the row `v`.
pub record Named (e : Engine) (id : String) (t : Tables) (v : Wallet) : Type 0 where
  pub key : String
  pub reads : e.parse_uuid id ≡ some key
  pub found : find_row (has_id key) t.wallets ≡ some v

may_view-Reader :
    (v : Wallet) (caller_id : String) (role : Role)
    → may_view v caller_id role ≡ true
    → Reader v caller_id role
may_view-Reader v caller_id Role.system h = inr (inl refl)
may_view-Reader v caller_id Role.admin h = inr (inr refl)
may_view-Reader v caller_id Role.user h = inl (ground arith)
may_view-Reader v caller_id Role.merchant h = inl (ground arith)
may_view-Reader v caller_id Role.distributor h = inl (ground arith)
may_view-Reader v caller_id Role.platform h = inl (ground arith)
may_view-Reader v caller_id (Role.other text) h = inl (ground arith)

Reader-may_view :
    (v : Wallet) (caller_id : String) (role : Role)
    → Reader v caller_id role
    → may_view v caller_id role ≡ true
Reader-may_view v caller_id role (inl own) = ground arith
Reader-may_view v caller_id role (inr (inl same)) = rw same (ground arith)
Reader-may_view v caller_id role (inr (inr same)) = rw same (ground arith)

-- What the three calls that read a wallet answer.
pub data Reads (e : Engine) (id caller_id : String) (role : Role) (w : World) (v : Wallet)
    : Type 0 where
  allowed :
      Reader v caller_id role
      → get_wallet e id caller_id role w ≡ (ok v, next w)
      → get_balance e id caller_id role w ≡ (
        ok (record {
          wallet_id = v.id;
          currency = v.currency;
          available_balance = v.available_balance;
          locked_balance = v.locked_balance;
          ledger_balance = v.available_balance +₆₄ v.locked_balance;
        }),
        next w,
      )
      → get_transactions e id caller_id role w ≡ list_transactions e v.account_id (next w)
      → Reads e id caller_id role w v
  denied :
      (¬ Reader v caller_id role)
      → get_wallet e id caller_id role w ≡ (err Error.unauthorized_wallet_access, next w)
      → get_balance e id caller_id role w ≡ (err Error.unauthorized_wallet_access, next w)
      → get_transactions e id caller_id role w ≡ (err Error.unauthorized_wallet_access, next w)
      → Reads e id caller_id role w v

-- When the database answers and the id names a row, GetWallet, GetBalance and GetTransactions give the
-- row, its balances and the ledger lines of its account to its owner, to the role of the system and to
-- that of an admin; to anybody else all three answer with the error of an unauthorized access. No
-- table changes before the query of the ledger.
pub get_wallet-Reads :
    (e : Engine) (id caller_id : String) (role : Role) (w : World) (v : Wallet)
    → e.fault w.tick ≡ false
    → Named e id w.tables v
    → Reads e id caller_id role w v
unfolding get_wallet get_balance get_transactions get_wallet_by_id calls
get_wallet-Reads e id caller_id role w v up named = elim (Bool-cases (may_view v caller_id role)) [
  | inl may ↦
      Reads.allowed (may_view-Reader v caller_id role may)
        (rw (up, named.reads, named.found, may) refl) (rw (up, named.reads, named.found, may) refl)
        (rw (up, named.reads, named.found, may) refl)
  | inr may_not ↦
      Reads.denied (λ reader. cc (Reader-may_view v caller_id role reader, may_not))
        (rw (up, named.reads, named.found, may_not) refl)
        (rw (up, named.reads, named.found, may_not) refl)
        (rw (up, named.reads, named.found, may_not) refl)
]

-- Freezing and unfreezing a wallet, on every path, keeps the wallets in agreement with the ledger.
pub update_wallet_status-IsSound :
    (e : Engine) (id : String) (status : WalletStatus) (w : World)
    → IsSound e w.tables
    → IsSound e (update_wallet_status e id status w).1.tables
unfolding update_wallet_status calls
update_wallet_status-IsSound e id status w sound = elim (Option-cases (e.parse_uuid id)) [
  | inl unread ↦ rw unread (ground arith)
  | inr (key, read) ↦ rw read (
      ground (
        arith,
        relabel-IsSound (has_id key) (set_status (e.now w.tick) status) kept e w.tables
            (record w.tables {
              wallets =
                  update_rows (has_id key) (set_status (e.now w.tick) status) w.tables.wallets;
            })
            sound (refl, refl, refl),
      ))
]
  where
    kept : (v : Wallet) → SameBooks v (set_status (e.now w.tick) status v)
    kept v = (refl, refl, refl, refl)
