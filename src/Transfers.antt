-- ===== src/Transfers.antt =====
-- internal/transfers/service.go: `ExecuteTransfer`.
pub mod Settlement
pub mod Locking
pub mod Execution
pub mod Soundness
pub mod Effects
pub mod Canonical
pub mod Refusals
pub mod Swapped
pub mod Handler
pub mod Requests
pub mod Replay
pub mod Repeats
use go_wallet_ledger.Base.{
  ℕ, suc, ◌+◌, String, List, [], ◌∷◌, ◌++◌, Bool, true, false, not, ◌==◌, ◌&&◌, ◌||◌, if◌then◌else◌,
  leb, chars, gtb, some_row, all_rows, find_row, update_rows,
}
use go_wallet_ledger.Base.Int.{ℤ, pos, ◌+ℤ◌, ◌-ℤ◌, leb_ℤ, ltb_ℤ, is_int64}
use go_wallet_ledger.Models.Errors.{Error}
use go_wallet_ledger.Models.Ledger.{Direction, TransactionType, TransactionStatus}
use go_wallet_ledger.Models.Ledger
use go_wallet_ledger.Models.Wallets.{Wallet, is_active, has_id, rebalance}
use go_wallet_ledger.Models.Idempotency.{KeyRecord}
use go_wallet_ledger.Models.Transfers.{Transfer, TransferStatus, CreateTransferRequest}
use go_wallet_ledger.Models.Outbox.{transfer_event}
use go_wallet_ledger.Store.{
  Engine, Tables, World, Metrics, Result, ok, err, Action, ◌>>=◌, ◌>>◌, pure, raise, gets, or_raise,
  guard, write, statement, transaction, uuid, wrap_error, clock,
}
use go_wallet_ledger.Ledger.{create_transaction}
use go_wallet_ledger.Outbox.{insert_event}

-- The deadlock prevention: the two ids in the order in which they are locked.
unfoldable pub lock_order : String → String → String × String
lock_order source destination =
    if gtb source destination then (destination, source) else (source, destination)

-- The columns that the two SELECTs scan; the other fields keep Go's zero values.
abbrev pub scanned : Wallet → Wallet
scanned r = record r { locked_balance = pos 0; version = pos 0; created_at = 0; updated_at = 0 }

-- `SELECT … FROM wallets WHERE id = $1 FOR UPDATE`
unfoldable pub select_for_update : Engine → String → Action Wallet
select_for_update e id = statement e λ n. do
  key ← uuid e id
  row ← gets (λ t. find_row (has_id key) t.wallets)
  found ← or_raise row Error.no_rows
  pure (scanned found)

unfoldable pub lock_wallet : Engine → String → Action Wallet
lock_wallet e id = wrap_error (Error.lock_failed id) (select_for_update e id)

-- Which of the two locked rows is the source: the row's id is compared with the request's text.
unfoldable pub assign : String → Wallet → Wallet → Wallet × Wallet
assign source first second = if first.id == source then (first, second) else (second, first)

-- The constraints that an UPDATE of `available_balance` meets: the range of a BIGINT and
-- `positive_available_balance`.
abbrev pub balance_constraints : String → (ℤ → ℤ) → Tables → List (Bool × Error)
balance_constraints key f t =
    (
      all_rows (λ (r : Wallet). not (has_id key r) || is_int64 (f r.available_balance)) t.wallets,
      Error.out_of_range,
    )
    ∷ (
      all_rows (λ (r : Wallet). not (has_id key r) || leb_ℤ (pos 0) (f r.available_balance))
          t.wallets,
      Error.check_violation,
    )
    ∷ []

abbrev pub set_balance : String → (ℤ → ℤ) → List Wallet → List Wallet
set_balance key f = update_rows (has_id key) (rebalance f)

-- `UPDATE wallets SET available_balance = … WHERE id = …`
unfoldable pub update_balance : Engine → String → (ℤ → ℤ) → Action (Unit {0})
update_balance e id f = statement e λ n. do
  key ← uuid e id
  write (balance_constraints key f) (λ t. record t { wallets = set_balance key f t.wallets })
  pure tt

-- The constraints of `transfers`, `different_wallets` among them.
abbrev pub transfer_constraints : Transfer → Tables → List (Bool × Error)
transfer_constraints row t =
    (leb (chars row.currency) 3, Error.value_too_long)
    ∷ (leb (chars row.idempotency_key) 255, Error.value_too_long)
    ∷ (ltb_ℤ (pos 0) row.amount, Error.check_violation)
    ∷ (not (row.source_wallet_id == row.destination_wallet_id), Error.check_violation)
    ∷ (not (some_row (λ (r : Transfer). r.id == row.id) t.transfers), Error.unique_violation)
    ∷ (
      some_row (λ (r : Wallet). r.id == row.source_wallet_id) t.wallets,
      Error.foreign_key_violation,
    )
    ∷ (
      some_row (λ (r : Wallet). r.id == row.destination_wallet_id) t.wallets,
      Error.foreign_key_violation,
    )
    ∷ (
      some_row (λ (r : KeyRecord). r.key == row.idempotency_key) t.idempotency_keys,
      Error.foreign_key_violation,
    )
    ∷ []

-- `&Transfer{…}`, before its row has an id.
abbrev pub new_transfer : CreateTransferRequest → String → Transfer
new_transfer req key = record {
  id = "";
  source_wallet_id = req.source_wallet_id;
  destination_wallet_id = req.destination_wallet_id;
  amount = req.amount;
  currency = req.currency;
  status = TransferStatus.completed;
  idempotency_key = key;
  created_at = 0;
}

abbrev pub transfer_row : Engine → ℕ → Transfer → String → String → Transfer
transfer_row e n transfer source destination = record transfer {
  id = e.fresh_id n;
  source_wallet_id = source;
  destination_wallet_id = destination;
  created_at = e.now n;
}

-- `INSERT INTO transfers … RETURNING id, created_at`
unfoldable pub insert_transfer : Engine → Transfer → Action Transfer
insert_transfer e transfer = statement e λ n. do
  source ← uuid e transfer.source_wallet_id
  destination ← uuid e transfer.destination_wallet_id
  write (transfer_constraints (transfer_row e n transfer source destination)) (λ t. record t {
    transfers = t.transfers ++ transfer_row e n transfer source destination ∷ [];
  })
  pure (record transfer { id = e.fresh_id n; created_at = e.now n })

-- An entry of a new ledger transaction, before its row has an id.
abbrev pub new_entry : String → ℤ → Direction → String → Ledger.Entry
new_entry account amount direction currency = record {
  id = "";
  transaction_id = "";
  account_id = account;
  amount = amount;
  direction = direction;
  currency = currency;
  created_at = 0;
}

-- The balanced pair of entries of a transfer.
abbrev pub transfer_ledger : CreateTransferRequest → Wallet → Wallet → Transfer → Ledger.Transaction
transfer_ledger req source dest transfer = record {
  id = "";
  reference_id = transfer.id;
  reference_type = TransactionType.transfer;
  status = TransactionStatus.completed;
  created_at = 0;
  entries =
      new_entry source.account_id req.amount Direction.debit req.currency
      ∷ new_entry dest.account_id req.amount Direction.credit req.currency
      ∷ [];
}

-- Steps 4 to 7: the balances, the record, the ledger and the outbox.
unfoldable pub settle : Engine → CreateTransferRequest → String → Wallet → Wallet → Action Transfer
unfolding update_balance insert_transfer create_transaction insert_event
settle e req key source dest = do
  update_balance e source.id (λ b. b -ℤ req.amount)
  update_balance e dest.id (λ b. b +ℤ req.amount)
  transfer ← insert_transfer e (new_transfer req key)
  posted ←
      wrap_error Error.ledger_failed
        (create_transaction e (transfer_ledger req source dest transfer))
  timestamp ← clock e
  wrap_error Error.outbox_failed (
      insert_event e "transfer.events"
        (transfer_event transfer.id transfer.status transfer.amount transfer.currency timestamp))
  pure transfer

-- Step 3 and what follows, on the rows locked.
unfoldable pub validate_and_settle :
    Engine → CreateTransferRequest → String → Wallet × Wallet → Action Transfer
unfolding settle
validate_and_settle e req key (source, dest) = do
  guard (is_active source.status && is_active dest.status) Error.wallets_not_active
  guard (source.currency == req.currency && dest.currency == req.currency) Error.currency_mismatch
  guard (leb_ℤ req.amount source.available_balance) Error.insufficient_funds
  settle e req key source dest

-- The statements between `BeginTx` and `Commit`.
unfoldable pub transfer_body : Engine → CreateTransferRequest → String → Action Transfer
unfolding lock_wallet select_for_update lock_order assign validate_and_settle
transfer_body e req key = do
  let (first_lock, second_lock) = lock_order req.source_wallet_id req.destination_wallet_id
  first ← lock_wallet e first_lock
  second ← lock_wallet e second_lock
  validate_and_settle e req key (assign req.source_wallet_id first second)

-- The deferred `RecordTransfer(success)`.
abbrev pub record_transfer : Result Transfer × World → Result Transfer × World
record_transfer (ok transfer, w) =
    let m = w.metrics in
    (
      ok transfer,
      record w { metrics = record m { transfers_succeeded = m.transfers_succeeded + 1 } },
    )
record_transfer (err error, w) =
    let m = w.metrics in
    (err error, record w { metrics = record m { transfers_failed = m.transfers_failed + 1 } })

abbrev pub attempt_transfer : Engine → CreateTransferRequest → String → Action Transfer
attempt_transfer e req key =
    guard (not (req.source_wallet_id == req.destination_wallet_id)) Error.same_wallet
    >> guard (ltb_ℤ (pos 0) req.amount) Error.amount_not_positive
    >> transaction e (transfer_body e req key)

-- `ExecuteTransfer`
unfoldable pub execute_transfer : Engine → CreateTransferRequest → String → Action Transfer
unfolding transfer_body
execute_transfer e req key w = record_transfer (attempt_transfer e req key w)
