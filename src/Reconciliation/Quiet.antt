-- ===== src/Reconciliation/Quiet.antt =====
-- internal/reconciliation/worker.go: a run over tables whose wallets agree with the ledger.
use go_wallet_ledger.Base.{String, ◌≡◌, refl, ap, ◌∙◌, subst, List, [], true, arith}
use go_wallet_ledger.Base.Int.{ℤ, pos, eqb_ℤ}
use go_wallet_ledger.Models.Reconciliation.{Run, RunStatus, Mismatch}
use go_wallet_ledger.Store.{World, Tables, Engine, Result, ok, err, next, calls}
use go_wallet_ledger.Ledger.Sums.{sum_debits, sum_credits}
use go_wallet_ledger.Books.{IsSound}
use go_wallet_ledger.Books.Steps.{same-IsSound}
use go_wallet_ledger.Reconciliation.{
  create_run, complete_run, check_global_ledger_balance, check_wallet_balances, scan_wallets,
  wallets_checked, ledger_checked, run_created, run_reconciliation, report_mismatches,
}
use go_wallet_ledger.Reconciliation.Detection.{scan_wallets-quiet}

-- Only the rows of `reconciliation_runs` differ.
abbrev RunsOnly : Tables → Tables → Type 0
RunsOnly t t' = (runs : List Run) × (t' ≡ record t { reconciliation_runs = runs })

RunsOnly-refl : (t : Tables) → RunsOnly t t
RunsOnly-refl t = (t.reconciliation_runs, refl)

RunsOnly-trans : (t t' t'' : Tables) → RunsOnly t t' → RunsOnly t' t'' → RunsOnly t t''
RunsOnly-trans t t' t'' (r, h) (r', h') =
    (r', h' ∙ ap (λ (u : Tables). record u { reconciliation_runs = r' }) h)

create_run-RunsOnly : (e : Engine) (w : World) → RunsOnly w.tables (create_run e w).1.tables
unfolding create_run calls
create_run-RunsOnly e w = ((create_run e w).1.tables.reconciliation_runs, ground arith)

complete_run-RunsOnly :
    (e : Engine) (id : String) (status : RunStatus) (wallets txns mismatches : ℤ) (w : World)
    → RunsOnly w.tables (complete_run e id status wallets txns mismatches w).1.tables
unfolding complete_run calls
complete_run-RunsOnly e id status wallets txns mismatches w = (
  (complete_run e id status wallets txns mismatches w).1.tables.reconciliation_runs,
  ground arith,
)

wallets_checked-RunsOnly :
    (e : Engine) (run : String) (status : RunStatus) (txns found : ℤ) (t : Tables)
    (r : Result (ℤ × List Mismatch) × World)
    → r.1.tables ≡ t
    → ((n : ℤ) (ms : List Mismatch) → r.0 ≡ ok (n, ms) → ms ≡ [])
    → RunsOnly t (wallets_checked e run status txns found r).tables
unfolding report_mismatches
wallets_checked-RunsOnly e run status txns found t (err x, w) same quiet =
    subst (λ u. RunsOnly u (wallets_checked e run status txns found (err x, w)).tables) same
      (complete_run-RunsOnly e run RunStatus.failed (pos 0) txns found w)
wallets_checked-RunsOnly e run status txns found t (ok (n, ms), w) same quiet =
    rw (quiet n ms refl) (
      subst (λ u. RunsOnly u (complete_run e run status n txns found w).1.tables) same
        (complete_run-RunsOnly e run status n txns found w))

check_wallets_next : (e : Engine) (w : World) → (check_wallet_balances e w).1 ≡ next w
unfolding check_wallet_balances calls
check_wallets_next e w = ground arith

check_wallets_scan :
    (e : Engine) (w : World) (n : ℤ) (ms : List Mismatch)
    → (check_wallet_balances e w).0 ≡ ok (n, ms)
    → scan_wallets w.tables.ledger_entries w.tables.wallets ≡ ok (n, ms)
unfolding check_wallet_balances calls
check_wallets_scan e w n ms h = ground arith

check_wallets-RunsOnly :
    (e : Engine) (run : String) (status : RunStatus) (txns found : ℤ) (w : World)
    → IsSound e w.tables
    → RunsOnly w.tables (wallets_checked e run status txns found (check_wallet_balances e w)).tables
check_wallets-RunsOnly e run status txns found w sound =
    wallets_checked-RunsOnly e run status txns found w.tables (check_wallet_balances e w)
      (ap (λ (v : World). v.tables) (check_wallets_next e w))
      (λ n ms h.
        scan_wallets-quiet w.tables.ledger_entries w.tables.wallets n ms sound.backed
          (check_wallets_scan e w n ms h))

ledger_checked-RunsOnly :
    (e : Engine) (run : String) (t : Tables) (r : Result (ℤ × ℤ × ℤ) × World)
    → IsSound e t
    → r.1.tables ≡ t
    → ((debits credits txns : ℤ) → r.0 ≡ ok (debits, credits, txns) → eqb_ℤ debits credits ≡ true)
    → RunsOnly t (ledger_checked e run r).tables
ledger_checked-RunsOnly e run t (err x, w) sound same equal =
    subst (λ u. RunsOnly u (ledger_checked e run (err x, w)).tables) same
      (complete_run-RunsOnly e run RunStatus.failed (pos 0) (pos 0) (pos 0) w)
ledger_checked-RunsOnly e run t (ok (d, c, n), w) sound same equal = rw (equal d c n refl) (
    subst
      (λ u.
        RunsOnly u
          (wallets_checked e run RunStatus.passed n (pos 0) (check_wallet_balances e w)).tables)
      same (check_wallets-RunsOnly e run RunStatus.passed n (pos 0) w (rw same sound)))

check_global_next : (e : Engine) (w : World) → (check_global_ledger_balance e w).1 ≡ next w
unfolding check_global_ledger_balance calls
check_global_next e w = ground arith

eqb_refl : (a : ℤ) → eqb_ℤ a a ≡ true
eqb_refl a = ground arith

check_global_sums :
    (e : Engine) (w : World) (d c n : ℤ)
    → (check_global_ledger_balance e w).0 ≡ ok (d, c, n)
    → (d ≡ sum_debits w.tables.ledger_entries) × (c ≡ sum_credits w.tables.ledger_entries)
unfolding check_global_ledger_balance calls
check_global_sums e w d c n h = (ground arith, ground arith)

check_global-RunsOnly :
    (e : Engine) (run : String) (w : World)
    → IsSound e w.tables
    → RunsOnly w.tables (ledger_checked e run (check_global_ledger_balance e w)).tables
check_global-RunsOnly e run w sound =
    ledger_checked-RunsOnly e run w.tables (check_global_ledger_balance e w) sound
      (ap (λ (v : World). v.tables) (check_global_next e w))
      (λ d c n h.
        let sums = check_global_sums e w d c n h in
        rw (sums.0, sums.1, sound.balanced) (eqb_refl (sum_credits w.tables.ledger_entries)))

RunsOnly-IsSound : (e : Engine) (t t' : Tables) → IsSound e t → RunsOnly t t' → IsSound e t'
RunsOnly-IsSound e t t' sound (runs, h) = same-IsSound e t t' sound (rw h (refl, refl, refl))

run_created-RunsOnly :
    (e : Engine) (t : Tables) (r : Result Run × World)
    → IsSound e t
    → RunsOnly t r.1.tables
    → RunsOnly t (run_created e r).tables
run_created-RunsOnly e t (err x, w) sound same = same
run_created-RunsOnly e t (ok run, w) sound same =
    RunsOnly-trans t w.tables (ledger_checked e run.id (check_global_ledger_balance e w)).tables
      same (check_global-RunsOnly e run.id w (RunsOnly-IsSound e t w.tables sound same))

-- A reconciliation of tables whose wallets agree with the ledger records no mismatch, and changes
-- nothing but the rows of `reconciliation_runs`, however the database behaves.
pub run_reconciliation-quiet :
    (e : Engine) (w : World)
    → IsSound e w.tables
    → (runs : List Run) × ((run_reconciliation e w).tables
        ≡ record w.tables { reconciliation_runs = runs })
unfolding run_reconciliation
run_reconciliation-quiet e w sound =
    run_created-RunsOnly e w.tables (create_run e w) sound (create_run-RunsOnly e w)
