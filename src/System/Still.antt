-- ===== src/System/Still.antt =====
-- What the handler of the transfers and the reconciliation do to the outbox and to the broker.
use go_wallet_ledger.Base.{ℕ, Bool-cases, inl, inr, Option, none, some, List, [], ◌∷◌, String, ◌==◌}
use go_wallet_ledger.Base.Int.{ℤ, pos, eqb_ℤ, ◌+₆₄◌}
use go_wallet_ledger.Models.Errors.{Error}
use go_wallet_ledger.Models.Auth.{JwtClaims}
use go_wallet_ledger.Models.Wallets.{Wallet}
use go_wallet_ledger.Models.Transfers.{CreateTransferRequest, Transfer}
use go_wallet_ledger.Models.Idempotency.{KeyRecord, ResponsePayload, Status}
use go_wallet_ledger.Models.Reconciliation.{Run, RunStatus, Mismatch, Details}
use go_wallet_ledger.Store.{World, Engine, Result, Action, ok, err, raise, pure}
use go_wallet_ledger.Outbox.Growth.{
  Quiet, Still, Still_refl, Still_trans, quiet, bind-Quiet, raise-Quiet, pure-Quiet,
}
use go_wallet_ledger.Idempotency.{insert_key, select_key, finished, acquired, try_acquire, complete}
use go_wallet_ledger.Wallets.{get_wallet_by_id}
use go_wallet_ledger.Transfers.{attempt_transfer, record_transfer, execute_transfer}
use go_wallet_ledger.Transfers.Handler.{
  handle_transfer, proceed, spend, forbid, report, may_spend, store_response,
}
use go_wallet_ledger.Reconciliation.{
  create_run, complete_run, record_mismatch, check_global_ledger_balance, check_wallet_balances,
  report_mismatch, report_mismatches, wallets_checked, ledger_checked, run_created,
  run_reconciliation,
}
use go_wallet_ledger.System.Quiet.{transfer_body-Quiet, get_wallet_by_id-Quiet}

module _ (e : Engine) where
  after_Still :
      {A : Type 0} {m : Action A} (w w' : World) → Quiet e m → Still e w w' → Still e w (m w').1
  after_Still {m} w w' q h = Still_trans e w w' (m w').1 h (q.still w')

  attempt_transfer-Quiet :
      (req : CreateTransferRequest) (key : String) → Quiet e (attempt_transfer e req key)
  attempt_transfer-Quiet req key = search (quiet, transfer_body-Quiet)

  recorded-Still :
      (w : World) (r : Result Transfer × World) → Still e w r.1 → Still e w (record_transfer r).1
  recorded-Still w (ok transfer, w') h = h
  recorded-Still w (err x, w') h = h

  execute_transfer-Still :
      (req : CreateTransferRequest) (key : String) (w : World)
      → Still e w (execute_transfer e req key w).1
  unfolding execute_transfer
  execute_transfer-Still req key w =
      recorded-Still w (attempt_transfer e req key w) ((attempt_transfer-Quiet req key).still w)

  complete-Quiet :
      (key : String) (response : ResponsePayload) (status : ℕ)
      → Quiet e (complete e key response status)
  unfolding complete
  complete-Quiet key response status = search quiet depth 8

  insert_key-Quiet : (key : String) (req : CreateTransferRequest) → Quiet e (insert_key e key req)
  unfolding insert_key
  insert_key-Quiet key req = search quiet depth 8

  select_key-Quiet : (key : String) → Quiet e (select_key e key)
  unfolding select_key
  select_key-Quiet key = search quiet depth 8

  finished_case :
      (status : Status) (row : KeyRecord)
      → Quiet {A = Option KeyRecord} e (elim status as (λ _. Action (Option KeyRecord)) [
        | Status.in_progress ↦ raise Error.key_in_progress
        | Status.completed ↦ pure (some row)
      ])
  finished_case Status.in_progress row = raise-Quiet e _
  finished_case Status.completed row = pure-Quiet e _

  acquired-Still :
      (key : String) (w : World) (r : Result (Unit {0}) × World)
      → Still e w r.1
      → Still e w (acquired e key r).1
  unfolding finished
  acquired-Still key w (ok done, w') h = h
  acquired-Still key w (err x, w') h =
      after_Still w w'
        (bind-Quiet e (select_key e key) finished (select_key-Quiet key)
          λ row. finished_case row.status row)
        h

  store_response-Still :
      (key : String) (payload : ResponsePayload) (status : ℕ) (w w' : World)
      → Still e w w'
      → Still e w (complete e key payload status w').1
  store_response-Still key payload status w w' h =
      after_Still w w' (complete-Quiet key payload status) h

  report-Still :
      (key : String) (w : World) (r : Result Transfer × World)
      → Still e w r.1
      → Still e w (report e key r).1
  unfolding store_response
  report-Still key w (ok transfer, w') h =
      store_response-Still key (ResponsePayload.transfer_document transfer) 201 w w' h
  report-Still key w (err x, w') h =
      store_response-Still key (ResponsePayload.error_document x) 400 w w' h

  forbid-Still : (key : String) (w w' : World) → Still e w w' → Still e w (forbid e key w').1
  unfolding store_response
  forbid-Still key w w' h = store_response-Still key ResponsePayload.forbidden_document 403 w w' h

  spend-Still :
      (claims : JwtClaims) (key : String) (req : CreateTransferRequest) (w : World)
      (r : Result Wallet × World)
      → Still e w r.1
      → Still e w (spend e claims key req r).1
  spend-Still claims key req w (err x, w') h = forbid-Still key w w' h
  spend-Still claims key req w (ok wallet, w') h = elim (Bool-cases (may_spend wallet claims)) [
    | inl may ↦ rw may (
        report-Still key w (execute_transfer e req key w') (
          Still_trans e w w' (execute_transfer e req key w').1 h
            (execute_transfer-Still req key w')))
    | inr may_not ↦ rw may_not (forbid-Still key w w' h)
  ]

  proceed-Still :
      (claims : JwtClaims) (key : String) (req : CreateTransferRequest) (w : World)
      (r : Result (Option KeyRecord) × World)
      → Still e w r.1
      → Still e w (proceed e claims key req r).1
  proceed-Still claims key req w (err x, w') h = h
  proceed-Still claims key req w (ok (some row), w') h = h
  proceed-Still claims key req w (ok none, w') h =
      spend-Still claims key req w (get_wallet_by_id e req.source_wallet_id w')
        (after_Still w w' (get_wallet_by_id-Quiet e req.source_wallet_id) h)

  pub handle_transfer-Still :
      (caller : Option JwtClaims) (key : String) (body : Option CreateTransferRequest) (w : World)
      → Still e w (handle_transfer e caller key body w).1
  unfolding handle_transfer
  handle_transfer-Still none key body w = Still_refl e w
  handle_transfer-Still (some claims) key none w = elim (Bool-cases (key == "")) [
    | inl empty ↦ rw empty (Still_refl e w)
    | inr named ↦ rw named (Still_refl e w)
  ]
  handle_transfer-Still (some claims) key (some req) w = elim (Bool-cases (key == "")) [
    | inl empty ↦ rw empty (Still_refl e w)
    | inr named ↦ rw named (
        proceed-Still claims key req w (try_acquire e key req w)
          (acquired-Still key w (insert_key e key req w) ((insert_key-Quiet key req).still w)))
  ]

  create_run-Quiet : Quiet e (create_run e)
  unfolding create_run
  create_run-Quiet = search quiet depth 8

  complete_run-Quiet :
      (id : String) (status : RunStatus) (wallets txns mismatches : ℤ)
      → Quiet e (complete_run e id status wallets txns mismatches)
  unfolding complete_run
  complete_run-Quiet id status wallets txns mismatches = search quiet depth 8

  record_mismatch-Quiet :
      (run entity_type entity_id mismatch_type : String) (details : Details)
      → Quiet e (record_mismatch e run entity_type entity_id mismatch_type details)
  unfolding record_mismatch
  record_mismatch-Quiet run entity_type entity_id mismatch_type details = search quiet depth 8

  check_global-Quiet : Quiet e (check_global_ledger_balance e)
  unfolding check_global_ledger_balance
  check_global-Quiet = search quiet depth 8

  check_wallets-Quiet : Quiet e (check_wallet_balances e)
  unfolding check_wallet_balances
  check_wallets-Quiet = search quiet depth 8

  report_mismatches-Still :
      (run : String) (ms : List Mismatch) (status : RunStatus) (found : ℤ) (w : World)
      → Still e w (report_mismatches e run ms status found w).2
  unfolding report_mismatches
  report_mismatches-Still run [] status found w = Still_refl e w
  report_mismatches-Still run (m ∷ ms) status found w =
      Still_trans e w (report_mismatch e run m w)
        (report_mismatches e run ms RunStatus.failed (found +₆₄ pos 1)
          (report_mismatch e run m w)).2
        ((record_mismatch-Quiet run "WALLET" m.wallet_id "BALANCE_MISMATCH"
            (Details.expected_got none none)).still
          w)
        (report_mismatches-Still run ms RunStatus.failed (found +₆₄ pos 1)
          (report_mismatch e run m w))

  wallets_checked-Still :
      (run : String) (status : RunStatus) (txns found : ℤ) (w : World)
      (r : Result (ℤ × List Mismatch) × World)
      → Still e w r.1
      → Still e w (wallets_checked e run status txns found r)
  wallets_checked-Still run status txns found w (err x, w') h =
      after_Still w w' (complete_run-Quiet run RunStatus.failed (pos 0) txns found) h
  wallets_checked-Still run status txns found w (ok (n, ms), w') h =
      let (status', found', w'') = report_mismatches e run ms status found w' in
      after_Still w w'' (complete_run-Quiet run status' n txns found')
        (Still_trans e w w' w'' h (report_mismatches-Still run ms status found w'))

  ledger_checked-Still :
      (run : String) (w : World) (r : Result (ℤ × ℤ × ℤ) × World)
      → Still e w r.1
      → Still e w (ledger_checked e run r)
  ledger_checked-Still run w (err x, w') h =
      after_Still w w' (complete_run-Quiet run RunStatus.failed (pos 0) (pos 0) (pos 0)) h
  ledger_checked-Still run w (ok (d, c, n), w') h = elim (Bool-cases (eqb_ℤ d c)) [
    | inl equal ↦ rw equal (
        wallets_checked-Still run RunStatus.passed n (pos 0) w (check_wallet_balances e w')
          (after_Still w w' check_wallets-Quiet h))
    | inr off ↦
        let action =
          record_mismatch e run "SYSTEM" "GLOBAL_LEDGER" "IMBALANCED_LEDGER"
            (Details.imbalanced d c) in
        let w'' = (action w').1 in
        rw off (
          wallets_checked-Still run RunStatus.failed n (pos 1) w (check_wallet_balances e w'') (
            after_Still w w'' check_wallets-Quiet (
              after_Still w w'
                (record_mismatch-Quiet run "SYSTEM" "GLOBAL_LEDGER" "IMBALANCED_LEDGER"
                  (Details.imbalanced d c))
                h)))
  ]

  run_created-Still :
      (w : World) (r : Result Run × World) → Still e w r.1 → Still e w (run_created e r)
  run_created-Still w (err x, w') h = h
  run_created-Still w (ok run, w') h =
      ledger_checked-Still run.id w (check_global_ledger_balance e w')
        (after_Still w w' check_global-Quiet h)

  pub run_reconciliation-Still : (w : World) → Still e w (run_reconciliation e w)
  unfolding run_reconciliation
  run_reconciliation-Still w = run_created-Still w (create_run e w) (create_run-Quiet.still w)
