-- ===== src/Transfers/Soundness.antt =====
-- internal/transfers/service.go: `ExecuteTransfer` and the agreement of the wallets with the ledger.
use go_wallet_ledger.Base.{
  some_eq, String, ◌≡◌, refl, sym, ◌∙◌, ap, subst, some, List, [], ◌∷◌, ◌++◌, arith, All-find_row,
}
use go_wallet_ledger.Base.Int.{◌+ℤ◌}
use go_wallet_ledger.Models.Ledger.{Entry}
use go_wallet_ledger.Models.Wallets.{Wallet, has_id}
use go_wallet_ledger.Models.Transfers.{CreateTransferRequest, Transfer}
use go_wallet_ledger.Store.{World, Tables, Engine, Result, ok, err, next, ◌>>◌, guard, pure, raise}
use go_wallet_ledger.Store.Laws.{Succeeds, transaction-keeps}
use go_wallet_ledger.Ledger.Posting.{Posted, AllPosted}
use go_wallet_ledger.Books.{IsFaithful, IsSound, Funded}
use go_wallet_ledger.Books.Accounts.{Known-canonical}
use go_wallet_ledger.Books.Steps.{NonnegAfter, transfer-IsSound}
use go_wallet_ledger.Transfers.{transfer_body, execute_transfer, record_transfer, attempt_transfer}
use go_wallet_ledger.Transfers.Settlement.{Settled, Settled-wallets}
use go_wallet_ledger.Transfers.Execution.{transfer_body-Executed}
use go_wallet_ledger.Transfers.Locking.{IsRow, assign-IsRow}

-- The two rows that were inserted for the entries of a transfer.
pub record Halves (e : Engine) (t : Tables) (x y : Entry) (rows : List Entry) : Type 0 where
  pub first : Entry
  pub second : Entry
  pub both : rows ≡ first ∷ second ∷ []
  pub first_posted : Posted e t x first
  pub second_posted : Posted e t y second

pub halves :
    {e : Engine} {t : Tables} {x y : Entry} {rows : List Entry}
    → AllPosted e t (x ∷ y ∷ []) rows
    → Halves e t x y rows
halves (AllPosted.cons {row = a} p (AllPosted.cons {row = b} q AllPosted.nil)) = record {
  first = a;
  second = b;
  both = refl;
  first_posted = p;
  second_posted = q;
}

module _ (e : Engine) (faithful : IsFaithful e) (t : Tables) (sound : IsSound e t) (r : Wallet)
    (is_row : IsRow e t r) where
  open is_row.locked use {row, read, found, scan}

  -- The id of a scanned row reads as the row's.
  row_id : (k : String) → e.parse_uuid r.id ≡ some k → k ≡ row.id
  row_id k h = some_eq (
      sym h
      ∙ ap (λ (v : Wallet). e.parse_uuid v.id) scan
      ∙ faithful.reads_canonical is_row.id row.id read)

  -- So does its account in a row of the ledger.
  row_account :
      {t3 : Tables} {x posted : Entry}
      → x.account_id ≡ r.account_id
      → Posted e t3 x posted
      → posted.account_id ≡ row.account_id
  row_account same p = some_eq (
      sym p.account
      ∙ ap e.parse_uuid (same ∙ ap (λ (v : Wallet). v.account_id) scan)
      ∙ Known-canonical e t.accounts row.account_id sound.canonical
          (All-find_row (Funded t.accounts) (has_id row.id) t.wallets sound.funded found).known)

module _ (e : Engine) (faithful : IsFaithful e) (t t' : Tables) (sound : IsSound e t)
    (req : CreateTransferRequest) (key : String) (s d : Wallet) (source : IsRow e t s)
    (dest : IsRow e t d) (done : Settled e req key s d t t') where
  open done use {t1, t2, t3, t4, transfer, debited, credited, logged, recorded, announced}

  -- The tables before the ledger is written: only wallets and transfers have changed.
  accounts3 : t3.accounts ≡ t.accounts
  accounts3 = rw (logged.tables, credited.tables, debited.tables)

  entries3 : t3.ledger_entries ≡ t.ledger_entries
  entries3 = rw (logged.tables, credited.tables, debited.tables)

  accounts_end : t'.accounts ≡ t.accounts
  accounts_end = rw (announced.1, recorded.tables, accounts3)

  entries_end : t'.ledger_entries ≡ t.ledger_entries ++ recorded.rows
  entries_end = rw (announced.1, recorded.tables, entries3)

  open halves recorded.posted use {first, second, both, first_posted, second_posted}

  pub settled-IsSound : IsSound e t'
  settled-IsSound =
      transfer-IsSound e t t' sound first second
        (record {
          debits = first_posted.direction;
          credits = second_posted.direction;
          amount = first_posted.amount ∙ sym second_posted.amount;
        })
        (entries_end ∙ ap (λ (l : List Entry). t.ledger_entries ++ l) both) accounts_end
        (rw (← accounts3) first_posted.known, rw (← accounts3) second_posted.known) debited.key
        credited.key source.locked.row dest.locked.row
        (rw (row_id e faithful t sound s source debited.key debited.read) source.locked.found)
        (rw (row_id e faithful t sound d dest credited.key credited.read) dest.locked.found)
        (
          row_account e faithful t sound s source refl first_posted,
          row_account e faithful t sound d dest refl second_posted,
        )
        (rw (first_posted.amount, second_posted.amount)
          (
            Settled-wallets e req key s d t t' done,
            debited.nonneg,
            subst (λ (u : Tables). NonnegAfter credited.key (λ b. b +ℤ req.amount) u.wallets)
                debited.tables credited.nonneg,
          ))

-- A run of the statements that succeeds leaves the tables sound.
transfer_body-IsSound :
    (e : Engine) (faithful : IsFaithful e) (req : CreateTransferRequest) (key : String) (w : World)
    → IsSound e w.tables
    → Succeeds (transfer_body e req key) w λ _ w'. IsSound e w'.tables
transfer_body-IsSound e faithful req key w sound = record {
  at = λ a w' run.
      let x = (transfer_body-Executed e req key w).at a w' run in
      let rows =
        assign-IsRow e w.tables req.source_wallet_id x.first x.second
          (record { id = _; locked = x.first_locked })
          (record { id = _; locked = x.second_locked }) in
      settled-IsSound e faithful w.tables w'.tables sound req key _ _ rows.0 rows.1 x.settled;
}

attempt_transfer-IsSound :
    (e : Engine) (faithful : IsFaithful e) (req : CreateTransferRequest) (key : String) (w : World)
    → IsSound e w.tables
    → IsSound e (attempt_transfer e req key w).1.tables
unfolding ◌>>◌ guard pure raise
attempt_transfer-IsSound e faithful req key w sound = ground (
  arith,
  transaction-keeps (IsSound e) e (transfer_body e req key) w
      (transfer_body-IsSound e faithful req key (next w) sound) sound,
)

record_transfer-tables : (r : Result Transfer × World) → (record_transfer r).1.tables ≡ r.1.tables
record_transfer-tables (ok t, w) = refl
record_transfer-tables (err x, w) = refl

-- Whatever the request and however the database behaves, also on every error path, a transfer leaves
-- the wallets in agreement with the ledger: each wallet's balances are the credits less the debits of
-- its account, no balance is negative, and the debits are the credits.
pub execute_transfer-IsSound :
    (e : Engine) (req : CreateTransferRequest) (key : String) (w : World)
    → IsFaithful e
    → IsSound e w.tables
    → IsSound e (execute_transfer e req key w).1.tables
unfolding execute_transfer
execute_transfer-IsSound e req key w faithful sound =
    subst (IsSound e) (sym (record_transfer-tables (attempt_transfer e req key w)))
      (attempt_transfer-IsSound e faithful req key w sound)
