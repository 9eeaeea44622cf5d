-- ===== src/Reconciliation.antt =====
-- internal/reconciliation: the queries (repository.go), the worker's run (worker.go) and the handler
-- (handler.go). SUM gives an exact number, which the scan into an `int64` refuses out of range.
pub mod Detection
pub mod Quiet
use go_wallet_ledger.Base.{
  ℕ, suc, String, List, [], ◌∷◌, ◌++◌, none, some, Bool, true, false, not, ◌==◌, if◌then◌else◌,
  length, take, some_row, sort_desc, update_rows, chars, leb,
}
use go_wallet_ledger.Base.Int.{ℤ, pos, ◌+ℤ◌, ◌+₆₄◌, ◌-₆₄◌, eqb_ℤ, is_int64}
use go_wallet_ledger.Models.Errors.{Error}
use go_wallet_ledger.Models.Ledger.{Entry}
use go_wallet_ledger.Models.Wallets.{Wallet}
use go_wallet_ledger.Models.Reconciliation.{Run, RunStatus, Item, Mismatch, Details}
use go_wallet_ledger.Store.{
  Engine, Tables, World, Result, ok, err, Action, ◌>>=◌, ◌>>◌, pure, gets, lift, guard, write,
  statement, uuid,
}
use go_wallet_ledger.Http.{Response, failure, reply, runs_json}
use go_wallet_ledger.Ledger.Sums.{sum_debits, sum_credits, net}
use go_wallet_ledger.Wallets.Handler.{answer}

abbrev pub run_row : Engine → ℕ → Run
run_row e n = record {
  id = e.fresh_id n;
  status = RunStatus.in_progress;
  wallets_checked = pos 0;
  ledger_transactions_checked = pos 0;
  mismatches_found = pos 0;
  started_at = e.now n;
  completed_at = none;
}

-- `CreateRun`
unfoldable pub create_run : Engine → Action Run
create_run e = statement e λ n. do
  write
      (λ t.
        (
          not (some_row (λ (r : Run). r.id == e.fresh_id n) t.reconciliation_runs),
          Error.unique_violation,
        )
        ∷ [])
      (λ t. record t { reconciliation_runs = t.reconciliation_runs ++ run_row e n ∷ [] })
  pure (run_row e n)

abbrev pub completed_run : ℕ → RunStatus → ℤ → ℤ → ℤ → Run → Run
completed_run now status wallets txns mismatches r = record r {
  status = status;
  wallets_checked = wallets;
  ledger_transactions_checked = txns;
  mismatches_found = mismatches;
  completed_at = some now;
}

-- `CompleteRun`
unfoldable pub complete_run : Engine → String → RunStatus → ℤ → ℤ → ℤ → Action (Unit {0})
complete_run e id status wallets txns mismatches = statement e λ n. do
  key ← uuid e id
  write (λ _. [])
      (λ t. record t {
        reconciliation_runs =
            update_rows (λ (r : Run). r.id == key)
              (completed_run (e.now n) status wallets txns mismatches) t.reconciliation_runs;
      })
  pure tt

abbrev pub item_row : Engine → ℕ → String → String → String → String → Details → Item
item_row e n run entity_type entity_id mismatch_type details = record {
  id = e.fresh_id n;
  run_id = run;
  entity_type = entity_type;
  entity_id = entity_id;
  mismatch_type = mismatch_type;
  details = details;
  created_at = e.now n;
}

abbrev pub item_constraints : Item → Tables → List (Bool × Error)
item_constraints row t =
    (leb (chars row.entity_type) 50, Error.value_too_long)
    ∷ (leb (chars row.entity_id) 255, Error.value_too_long)
    ∷ (leb (chars row.mismatch_type) 100, Error.value_too_long)
    ∷ (not (some_row (λ (r : Item). r.id == row.id) t.reconciliation_items), Error.unique_violation)
    ∷ (
      some_row (λ (r : Run). r.id == row.run_id) t.reconciliation_runs,
      Error.foreign_key_violation,
    )
    ∷ []

-- `RecordMismatch`
unfoldable pub record_mismatch :
    Engine → String → String → String → String → Details → Action (Unit {0})
record_mismatch e run entity_type entity_id mismatch_type details = statement e λ n. do
  key ← uuid e run
  write (item_constraints (item_row e n key entity_type entity_id mismatch_type details)) (λ t.
      record t {
        reconciliation_items =
            t.reconciliation_items
            ++ item_row e n key entity_type entity_id mismatch_type details ∷ [];
      })
  pure tt

-- `COUNT(DISTINCT transaction_id)`
abbrev count_transactions : List Entry → ℕ
count_transactions [] = 0
count_transactions (x ∷ xs) =
    if some_row (λ (y : Entry). y.transaction_id == x.transaction_id) xs
    then count_transactions xs
    else suc (count_transactions xs)

-- `CheckGlobalLedgerBalance`: the debits, the credits and the number of transactions.
unfoldable pub check_global_ledger_balance : Engine → Action (ℤ × ℤ × ℤ)
check_global_ledger_balance e = statement e λ n. do
  entries ← gets (λ t. t.ledger_entries)
  guard (is_int64 (sum_debits entries)) Error.out_of_range
  guard (is_int64 (sum_credits entries)) Error.out_of_range
  pure (sum_debits entries, sum_credits entries, pos (count_transactions entries))

abbrev pub mismatch_of : Wallet → ℤ → ℤ → Mismatch
mismatch_of w total ledger = record {
  wallet_id = w.id;
  wallet_total = total;
  ledger_total = ledger;
  difference = total -₆₄ ledger;
}

-- One turn of the loop, before the rows that follow.
abbrev pub noted : Wallet → ℤ → ℤ → Result (ℤ × List Mismatch) → Result (ℤ × List Mismatch)
noted w total ledger (err x) = err x
noted w total ledger (ok (checked, mismatches)) = ok (
  checked +₆₄ pos 1,
  if eqb_ℤ total ledger then mismatches else mismatch_of w total ledger ∷ mismatches,
)

-- The loop over the rows: a total out of the range of BIGINT ends the rows, and `rows.Err()` is not
-- asked; a sum that does not fit is an error of the scan.
unfoldable pub scan_wallets : List Entry → List Wallet → Result (ℤ × List Mismatch)
scan_wallets entries [] = ok (pos 0, [])
scan_wallets entries (w ∷ ws) =
    let rest = scan_wallets entries ws in
    if is_int64 (w.available_balance +ℤ w.locked_balance)
    then if is_int64 (net w.account_id entries)
      then noted w (w.available_balance +ℤ w.locked_balance) (net w.account_id entries) rest
      else err Error.out_of_range
    else ok (pos 0, [])

-- `CheckWalletBalances`
unfoldable pub check_wallet_balances : Engine → Action (ℤ × List Mismatch)
unfolding scan_wallets
check_wallet_balances e =
    statement e λ n. do found ← gets (λ t. scan_wallets t.ledger_entries t.wallets); lift found

-- The keys "expected" and "actual" are not in the map, so that the worker formats two nils.
abbrev pub report_mismatch : Engine → String → Mismatch → World → World
report_mismatch e run m w =
    (record_mismatch e run "WALLET" m.wallet_id "BALANCE_MISMATCH" (Details.expected_got none none)
      w).1

-- The loop over the mismatches: the status, the count and the items.
unfoldable pub report_mismatches :
    Engine → String → List Mismatch → RunStatus → ℤ → World → RunStatus × ℤ × World
unfolding record_mismatch
report_mismatches e run [] status found w = (status, found, w)
report_mismatches e run (m ∷ ms) status found w =
    report_mismatches e run ms RunStatus.failed (found +₆₄ pos 1) (report_mismatch e run m w)

-- Step 3, whose error is only logged.
abbrev pub finish_run : Engine → String → ℤ → ℤ → RunStatus × ℤ × World → World
finish_run e run wallets txns (status, found, w) =
    (complete_run e run status wallets txns found w).1

-- Step 2, of the answer of `CheckWalletBalances`.
abbrev pub wallets_checked :
    Engine → String → RunStatus → ℤ → ℤ → Result (ℤ × List Mismatch) × World → World
wallets_checked e run status txns found (err x, w) =
    (complete_run e run RunStatus.failed (pos 0) txns found w).1
wallets_checked e run status txns found (ok (wallets, mismatches), w) =
    finish_run e run wallets txns (report_mismatches e run mismatches status found w)

-- Step 1, of the answer of `CheckGlobalLedgerBalance`.
abbrev pub ledger_checked : Engine → String → Result (ℤ × ℤ × ℤ) × World → World
ledger_checked e run (err x, w) = (complete_run e run RunStatus.failed (pos 0) (pos 0) (pos 0) w).1
ledger_checked e run (ok (debits, credits, txns), w) =
    if eqb_ℤ debits credits
    then wallets_checked e run RunStatus.passed txns (pos 0) (check_wallet_balances e w)
    else wallets_checked e run RunStatus.failed txns (pos 1) (
        check_wallet_balances e
          (record_mismatch e run "SYSTEM" "GLOBAL_LEDGER" "IMBALANCED_LEDGER"
            (Details.imbalanced debits credits) w).1)

abbrev pub run_created : Engine → Result Run × World → World
run_created e (err x, w) = w
run_created e (ok run, w) = ledger_checked e run.id (check_global_ledger_balance e w)

-- `RunReconciliation`
unfoldable pub run_reconciliation : Engine → World → World
unfolding create_run complete_run check_global_ledger_balance check_wallet_balances
    report_mismatches
run_reconciliation e w = run_created e (create_run e w)

-- `HandleGetRuns`
unfoldable pub list_runs : Engine → Action (List Run)
list_runs e =
    statement e
      λ n. gets (λ t. take 20 (sort_desc (λ (r : Run). r.started_at) t.reconciliation_runs))

unfoldable pub handle_get_runs : Engine → World → Response × World
unfolding list_runs
handle_get_runs e w =
    answer (λ _. failure 500 "failed to query runs") (λ rows. reply 200 (runs_json rows))
      (list_runs e w)
