-- ===== src/Transfers/Locking.antt =====
-- The two locked rows of `ExecuteTransfer`: what a successful lock reads, and which of the rows is
-- taken for the source.
use go_wallet_ledger.Base.{
  String, ◌≡◌, refl, subst, some, true, ◌==◌, find_row, find_row-holds, arith, inl, inr, Bool-cases,
}
use go_wallet_ledger.Models.Errors.{Error}
use go_wallet_ledger.Models.Wallets.{Wallet, has_id}
use go_wallet_ledger.Store.{World, Tables, Engine}
use go_wallet_ledger.Store.Laws.{
  Succeeds, pure-Succeeds, statement-Succeeds, uuid-Succeeds, gets-Succeeds, or_raise-Succeeds,
  wrap_error-Succeeds,
}
use go_wallet_ledger.Transfers.{lock_wallet, select_for_update, assign, scanned}

-- The row that the text `id` names.
pub record Locked (e : Engine) (id : String) (t : Tables) (r : Wallet) : Type 0 where
  pub row : Wallet
  pub read : e.parse_uuid id ≡ some row.id
  pub found : find_row (has_id row.id) t.wallets ≡ some row
  pub scan : r ≡ scanned row

pub row_key :
    (key : String) (t : Tables) (r : Wallet) → find_row (has_id key) t.wallets ≡ some r → key ≡ r.id
row_key key t r h = named (find_row-holds (has_id key) t.wallets h)
  where
    named : has_id key r ≡ true → key ≡ r.id
    named hit = ground arith

Locked-of :
    (e : Engine) (id key : String) (t : Tables) (r : Wallet)
    → e.parse_uuid id ≡ some key
    → find_row (has_id key) t.wallets ≡ some r
    → Locked e id t (scanned r)
Locked-of e id key t r read found =
    let same = row_key key t r found in
    record {
      row = r;
      read = rw (← same) read;
      found = subst (λ k. find_row (has_id k) t.wallets ≡ some r) same found;
      scan = refl;
    }

pub lock_wallet-Locked :
    (e : Engine) (id : String) (w : World)
    → Succeeds (lock_wallet e id) w λ r w'. Locked e id w.tables r × (w'.tables ≡ w.tables)
unfolding lock_wallet select_for_update
lock_wallet-Locked e id w = wrap_error-Succeeds _ _ w (
    statement-Succeeds e _ w (
      uuid-Succeeds e id _ _ λ key read. gets-Succeeds _ _ _ (
        or_raise-Succeeds _ Error.no_rows _ _
          λ r found. pure-Succeeds _ _ (Locked-of e id key w.tables r read found, refl))))

-- A row of the table, as scanned.
pub record IsRow (e : Engine) (t : Tables) (r : Wallet) : Type 0 where
  pub id : String
  pub locked : Locked e id t r

-- Either order of the locks gives two rows of the table.
pub assign-IsRow :
    (e : Engine) (t : Tables) (source : String) (first second : Wallet)
    → IsRow e t first
    → IsRow e t second
    → IsRow e t (assign source first second).0 × IsRow e t (assign source first second).1
unfolding assign
assign-IsRow e t source first second f s = elim (Bool-cases (first.id == source)) [
  | inl same ↦ rw same (f, s)
  | inr other ↦ rw other (s, f)
]
