-- ===== src/System/Sides.antt =====
-- The operations that leave the payments and the keys of the requests.
use go_wallet_ledger.Base.{String, ◌≡◌, refl, List, [], ◌∷◌, none, arith, Bool-cases, inl, inr}
use go_wallet_ledger.Base.Int.{ℤ, pos, eqb_ℤ, ◌+₆₄◌}
use go_wallet_ledger.Models.Errors.{Error}
use go_wallet_ledger.Models.Auth.{Role, RegisterRequest, LoginRequest}
use go_wallet_ledger.Models.Wallets.{WalletStatus, CreateWalletRequest}
use go_wallet_ledger.Models.Reconciliation.{Run, RunStatus, Mismatch, Details}
use go_wallet_ledger.Store.{World, Tables, Engine, Result, ok, err, calls}
use go_wallet_ledger.Wallets.{
  create_wallet_and_account, create_body, insert_account, insert_wallet, update_wallet_status,
}
use go_wallet_ledger.Wallets.Service.{create_wallet}
use go_wallet_ledger.Auth.{Crypto, register, login, create_user, get_user_by_email, generate_token}
use go_wallet_ledger.Outbox.{mark_published, mark_failed}
use go_wallet_ledger.Reconciliation.{
  create_run, complete_run, check_global_ledger_balance, check_wallet_balances, record_mismatch,
  report_mismatch, wallets_checked, ledger_checked, run_created, run_reconciliation,
  report_mismatches,
}

abbrev pub SameSides : Tables → Tables → Type 0
SameSides t t' = (t'.idempotency_keys ≡ t.idempotency_keys) × (t'.payments ≡ t.payments)

pub create_wallet-SameSides :
    (e : Engine) (req : CreateWalletRequest) (owner : String) (role : Role) (w : World)
    → SameSides w.tables (create_wallet e req owner role w).1.tables
unfolding create_wallet create_wallet_and_account create_body insert_account insert_wallet calls
create_wallet-SameSides e req owner role w = (ground arith, ground arith)

pub update_wallet_status-SameSides :
    (e : Engine) (id : String) (status : WalletStatus) (w : World)
    → SameSides w.tables (update_wallet_status e id status w).1.tables
unfolding update_wallet_status calls
update_wallet_status-SameSides e id status w = (ground arith, ground arith)

pub register-SameSides :
    (crypto : Crypto) (e : Engine) (secret : String) (req : RegisterRequest) (w : World)
    → SameSides w.tables (register crypto e secret req w).1.tables
unfolding register create_user generate_token calls
register-SameSides crypto e secret req w = (ground arith, ground arith)

pub login-SameSides :
    (crypto : Crypto) (e : Engine) (secret : String) (req : LoginRequest) (w : World)
    → SameSides w.tables (login crypto e secret req w).1.tables
unfolding login get_user_by_email generate_token calls
login-SameSides crypto e secret req w = (ground arith, ground arith)

pub mark_published-SameSides :
    (e : Engine) (id : String) (w : World) → SameSides w.tables (mark_published e id w).1.tables
unfolding mark_published calls
mark_published-SameSides e id w = (ground arith, ground arith)

pub mark_failed-SameSides :
    (e : Engine) (id : String) (error : Error) (w : World)
    → SameSides w.tables (mark_failed e id error w).1.tables
unfolding mark_failed calls
mark_failed-SameSides e id error w = (ground arith, ground arith)

-- A reconciliation, whatever it finds.
module _ (e : Engine) (t : Tables) where
  create_run-SameSides : (w : World) → SameSides t w.tables → SameSides t (create_run e w).1.tables
  unfolding create_run calls
  create_run-SameSides w h = (ground arith, ground arith)

  complete_run-SameSides :
      (id : String) (status : RunStatus) (wallets txns mismatches : ℤ) (w : World)
      → SameSides t w.tables
      → SameSides t (complete_run e id status wallets txns mismatches w).1.tables
  unfolding complete_run calls
  complete_run-SameSides id status wallets txns mismatches w h = (ground arith, ground arith)

  record_mismatch-SameSides :
      (run entity_type entity_id mismatch_type : String) (details : Details) (w : World)
      → SameSides t w.tables
      → SameSides t (record_mismatch e run entity_type entity_id mismatch_type details w).1.tables
  unfolding record_mismatch calls
  record_mismatch-SameSides run entity_type entity_id mismatch_type details w h =
      (ground arith, ground arith)

  report_mismatches-SameSides :
      (run : String) (ms : List Mismatch) (status : RunStatus) (found : ℤ) (w : World)
      → SameSides t w.tables
      → SameSides t (report_mismatches e run ms status found w).2.tables
  unfolding report_mismatches
  report_mismatches-SameSides run [] status found w h = h
  report_mismatches-SameSides run (m ∷ ms) status found w h =
      report_mismatches-SameSides run ms RunStatus.failed (found +₆₄ pos 1)
        (report_mismatch e run m w)
        (record_mismatch-SameSides run "WALLET" m.wallet_id "BALANCE_MISMATCH"
          (Details.expected_got none none) w h)

  wallets_checked-SameSides :
      (run : String) (status : RunStatus) (txns found : ℤ) (r : Result (ℤ × List Mismatch) × World)
      → SameSides t r.1.tables
      → SameSides t (wallets_checked e run status txns found r).tables
  wallets_checked-SameSides run status txns found (err x, w) h =
      complete_run-SameSides run RunStatus.failed (pos 0) txns found w h
  wallets_checked-SameSides run status txns found (ok (n, ms), w) h =
      let (status', found', w') = report_mismatches e run ms status found w in
      complete_run-SameSides run status' n txns found' w'
        (report_mismatches-SameSides run ms status found w h)

  check_wallets-SameSides :
      (w : World) → SameSides t w.tables → SameSides t (check_wallet_balances e w).1.tables
  unfolding check_wallet_balances calls
  check_wallets-SameSides w h = (ground arith, ground arith)

  check_global-SameSides :
      (w : World) → SameSides t w.tables → SameSides t (check_global_ledger_balance e w).1.tables
  unfolding check_global_ledger_balance calls
  check_global-SameSides w h = (ground arith, ground arith)

  ledger_checked-SameSides :
      (run : String) (r : Result (ℤ × ℤ × ℤ) × World)
      → SameSides t r.1.tables
      → SameSides t (ledger_checked e run r).tables
  ledger_checked-SameSides run (err x, w) h =
      complete_run-SameSides run RunStatus.failed (pos 0) (pos 0) (pos 0) w h
  ledger_checked-SameSides run (ok (d, c, n), w) h = elim (Bool-cases (eqb_ℤ d c)) [
    | inl equal ↦ rw equal (
        wallets_checked-SameSides run RunStatus.passed n (pos 0) (check_wallet_balances e w)
          (check_wallets-SameSides w h))
    | inr off ↦
        let w' =
          (record_mismatch e run "SYSTEM" "GLOBAL_LEDGER" "IMBALANCED_LEDGER"
            (Details.imbalanced d c) w).1 in
        rw off (
          wallets_checked-SameSides run RunStatus.failed n (pos 1) (check_wallet_balances e w') (
            check_wallets-SameSides w' (
              record_mismatch-SameSides run "SYSTEM" "GLOBAL_LEDGER" "IMBALANCED_LEDGER"
                (Details.imbalanced d c) w h)))
  ]

  run_created-SameSides :
      (r : Result Run × World) → SameSides t r.1.tables → SameSides t (run_created e r).tables
  run_created-SameSides (err x, w) h = h
  run_created-SameSides (ok run, w) h =
      ledger_checked-SameSides run.id (check_global_ledger_balance e w) (check_global-SameSides w h)

pub run_reconciliation-SameSides :
    (e : Engine) (w : World) → SameSides w.tables (run_reconciliation e w).tables
unfolding run_reconciliation
run_reconciliation-SameSides e w =
    run_created-SameSides e w.tables (create_run e w)
      (create_run-SameSides e w.tables w (refl, refl))
