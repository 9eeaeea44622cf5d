-- ===== src/Ledger.antt =====
-- internal/ledger/repository.go: the double-entry check, and the rows that a ledger transaction
-- inserts (db/migrations/20240101000001_ledger_schema.sql).
pub mod Sums
pub mod Validation
pub mod Posting
use go_wallet_ledger.Base.{
  ℕ, suc, String, List, [], ◌∷◌, ◌++◌, Option, none, some, Bool, true, false, not, ◌==◌,
  if◌then◌else◌, ltb, leb, length, some_row, chars, ◌≡◌,
}
use go_wallet_ledger.Base.Int.{ℤ, pos, ◌+₆₄◌, leb_ℤ, ltb_ℤ, eqb_ℤ}
use go_wallet_ledger.Models.Errors.{Error}
use go_wallet_ledger.Models.Ledger.{Direction, Entry, Transaction}
use go_wallet_ledger.Models.Ledger
use go_wallet_ledger.Store.{
  Engine, Tables, Result, ok, err, Action, World, ◌>>=◌, ◌>>◌, pure, lift, write, statement, uuid,
}

-- The `else` branch of the direction test.
abbrev direction_error : Direction → Option Error
direction_error Direction.debit = none
direction_error Direction.credit = none
direction_error (Direction.other s) = some Error.invalid_direction

-- The first test of the loop's body that an entry fails.
unfoldable pub entry_error : String → Entry → Option Error
entry_error currency x =
    if x.currency == currency
    then if leb_ℤ x.amount (pos 0)
      then some Error.entry_amount_not_positive
      else direction_error x.direction
    else some Error.multi_currency

abbrev pub add_debit : Direction → ℤ → ℤ → ℤ
add_debit Direction.debit amount total = total +₆₄ amount
add_debit Direction.credit amount total = total
add_debit (Direction.other s) amount total = total

abbrev pub add_credit : Direction → ℤ → ℤ → ℤ
add_credit Direction.debit amount total = total
add_credit Direction.credit amount total = total +₆₄ amount
add_credit (Direction.other s) amount total = total

-- The loop over the entries, with `totalDebits` and `totalCredits`.
unfoldable pub tally : String → List Entry → ℤ → ℤ → Result (ℤ × ℤ)
tally currency [] debits credits = ok (debits, credits)
tally currency (x ∷ xs) debits credits =
    let rest =
      tally currency xs (add_debit x.direction x.amount debits)
        (add_credit x.direction x.amount credits) in
    elim (entry_error currency x) [ some error ↦ err error | none ↦ rest ]

abbrev pub balanced : Result (ℤ × ℤ) → Result (Unit {0})
balanced (ok (debits, credits)) =
    if eqb_ℤ debits credits then ok tt else err Error.imbalanced_ledger
balanced (err error) = err error

-- The checks before the first statement.
unfoldable pub validate : List Entry → Result (Unit {0})
validate [] = err Error.empty_entries
validate (x ∷ xs) =
    if ltb (length (x ∷ xs)) 2
    then err Error.empty_entries
    else balanced (tally x.currency (x ∷ xs) (pos 0) (pos 0))

-- The constraints of `ledger_transactions`: the primary key and the width of `reference_id`.
abbrev pub transaction_constraints : Transaction → Tables → List (Bool × Error)
transaction_constraints row t =
    (
      not (some_row (λ (r : Transaction). r.id == row.id) t.ledger_transactions),
      Error.unique_violation,
    )
    ∷ (leb (chars row.reference_id) 255, Error.value_too_long)
    ∷ []

-- `INSERT INTO ledger_transactions … RETURNING id, created_at`
unfoldable pub insert_transaction : Engine → Transaction → Action Transaction
insert_transaction e txn = statement e λ n. do
  let row : Transaction = record txn { id = e.fresh_id n; created_at = e.now n; entries = [] }
  write (transaction_constraints row)
      (λ t. record t { ledger_transactions = t.ledger_transactions ++ row ∷ [] })
  pure (record txn { id = row.id; created_at = row.created_at })

-- The constraints of `ledger_entries`: the width of `currency`, `positive_amount`, the primary key
-- and the two foreign keys.
abbrev pub entry_constraints : Entry → Tables → List (Bool × Error)
entry_constraints row t =
    (leb (chars row.currency) 3, Error.value_too_long)
    ∷ (ltb_ℤ (pos 0) row.amount, Error.check_violation)
    ∷ (not (some_row (λ (r : Entry). r.id == row.id) t.ledger_entries), Error.unique_violation)
    ∷ (
      some_row (λ (r : Transaction). r.id == row.transaction_id) t.ledger_transactions,
      Error.foreign_key_violation,
    )
    ∷ (some_row (λ a. a.id == row.account_id) t.accounts, Error.foreign_key_violation)
    ∷ []

-- The row of an entry: the two texts are read as UUIDs.
abbrev pub entry_row : Engine → ℕ → Entry → String → String → Entry
entry_row e n x txn account = record x {
  id = e.fresh_id n;
  transaction_id = txn;
  account_id = account;
  created_at = e.now n;
}

-- `INSERT INTO ledger_entries … RETURNING id, created_at`, one query of the batch.
unfoldable pub insert_entry : Engine → String → Entry → Action Entry
insert_entry e transaction_id x = statement e λ n. do
  txn ← uuid e transaction_id
  account ← uuid e x.account_id
  write (entry_constraints (entry_row e n x txn account))
      (λ t. record t { ledger_entries = t.ledger_entries ++ entry_row e n x txn account ∷ [] })
  pure (record x { id = e.fresh_id n; transaction_id = transaction_id; created_at = e.now n })

-- The batch, and the loop that reads its answers.
unfoldable pub insert_entries : Engine → String → List Entry → Action (List Entry)
unfolding insert_entry
insert_entries e transaction_id [] = pure []
insert_entries e transaction_id (x ∷ xs) = do
  y ← insert_entry e transaction_id x
  ys ← insert_entries e transaction_id xs
  pure (y ∷ ys)

-- `CreateTransaction`, inside the caller's transaction; it returns `txn` as it leaves it.
unfoldable pub create_transaction : Engine → Transaction → Action Transaction
unfolding validate insert_transaction insert_entries
create_transaction e txn = do
  lift (validate txn.entries)
  txn' ← insert_transaction e txn
  entries ← insert_entries e txn'.id txn'.entries
  pure (record txn' { entries = entries })
