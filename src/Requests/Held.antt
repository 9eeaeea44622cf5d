-- ===== src/Requests/Held.antt =====
-- internal/transfers/handler.go: what a turn of a request does to the keys.
use go_wallet_ledger.Base.{
  String, ◌≡◌, ◌≢◌, refl, sym, ap, ◌∙◌, Option, none, some, Bool, true, false, not, ◌==◌,
  Bool-cases, inl, inr, arith, if◌then◌else◌,
}
use go_wallet_ledger.Base.Int.{pos, ltb_ℤ}
use go_wallet_ledger.Models.Errors.{Error}
use go_wallet_ledger.Models.Idempotency.{KeyRecord, ResponsePayload}
use go_wallet_ledger.Models.Transfers.{CreateTransferRequest, Transfer}
use go_wallet_ledger.Models.Wallets.{Wallet}
use go_wallet_ledger.Store.{Engine, World, Tables, Result, ok, err, next, close}
use go_wallet_ledger.Store.Laws.{Ends, close-Ends}
use go_wallet_ledger.Idempotency.{try_acquire}
use go_wallet_ledger.Idempotency.Keys.{
  Held, Acquired, try_acquire-Acquired, granted-Held, complete-Held, with_key-Held, stored_answer,
  stored_answer-some, try_acquire-taken,
}
use go_wallet_ledger.Transfers.Replay.{held_row}
use go_wallet_ledger.Wallets.{get_wallet_by_id}
use go_wallet_ledger.Transfers.{lock_wallet, lock_order, validate_and_settle, assign}
use go_wallet_ledger.Transfers.Execution.{validate_and_settle-Succeeds}
use go_wallet_ledger.Transfers.Requests.{Settled-SameOthers, get_wallet_by_id-next}
use go_wallet_ledger.Transfers.Handler.{may_spend, forbid, report, store_response}
use go_wallet_ledger.Locks.{
  Stage, idle, begun, one, both, ended, advance, finish, begin_transfer, locked,
}
use go_wallet_ledger.Locks.Alone.{lock_wallet-next}
use go_wallet_ledger.Requests.{
  Sent, Phase, arrived, turned_away, granted, moving, answered, admitted, checked_owner,
  transfer_turn, advance_request, is_owner,
}

abbrev SameKeys : Tables → Tables → Type 0
SameKeys t t' = t'.idempotency_keys ≡ t.idempotency_keys

module _ (e : Engine) (req : CreateTransferRequest) (key : String) where
  finish-SameKeys :
      (t : Tables) (r : Result Transfer × World)
      → SameKeys t r.1.tables
      → SameKeys t (finish r).1.tables
  finish-SameKeys t (ok a, w) h = h
  finish-SameKeys t (err x, w) h = h

  begin-SameKeys : (w : World) → SameKeys w.tables (begin_transfer e req w).1.tables
  begin-SameKeys w = elim (Bool-cases (not (req.source_wallet_id == req.destination_wallet_id))) [
    | inr same ↦ rw same refl
    | inl differ ↦ elim (Bool-cases (ltb_ℤ (pos 0) req.amount)) [
      | inr low ↦ rw (differ, low) refl
      | inl positive ↦ elim (Bool-cases (e.fault w.tick)) [
        | inl down ↦ rw (differ, positive, down) refl
        | inr up ↦ rw (differ, positive, up) refl
      ]
    ]
  ]

  locked-SameKeys :
      (t : Tables) (stage : Wallet → Stage) (r : Result Wallet × World)
      → SameKeys t r.1.tables
      → SameKeys t (locked stage r).1.tables
  locked-SameKeys t stage (ok row, w) h = h
  locked-SameKeys t stage (err x, w) h = finish-SameKeys t (err x, w) h

  settled-SameKeys :
      (p : Wallet × Wallet) (w : World) (r : Result Transfer × World)
      → Ends e (λ _. validate_and_settle e req key p w) w r
      → SameKeys w.tables r.1.tables
  settled-SameKeys p w r (Ends.undone x failed same) = ap (λ (t : Tables). t.idempotency_keys) same
  settled-SameKeys p w r (Ends.durable a w' run same done) =
      ap (λ (t : Tables). t.idempotency_keys) same
      ∙ (Settled-SameOthers e req key p.0 p.1 w.tables w'.tables
          ((validate_and_settle-Succeeds e req key p w).at a w' run).1).0

  advance-SameKeys :
      (stage : Stage) (w : World) → SameKeys w.tables (advance e req key stage w).1.tables
  unfolding advance
  advance-SameKeys idle w = begin-SameKeys w
  advance-SameKeys begun w =
      locked-SameKeys w.tables one
        (lock_wallet e (lock_order req.source_wallet_id req.destination_wallet_id).0 w)
        (rw (lock_wallet-next e (lock_order req.source_wallet_id req.destination_wallet_id).0 w)
          refl)
  advance-SameKeys (one first) w =
      locked-SameKeys w.tables (both first)
        (lock_wallet e (lock_order req.source_wallet_id req.destination_wallet_id).1 w)
        (rw (lock_wallet-next e (lock_order req.source_wallet_id req.destination_wallet_id).1 w)
          refl)
  advance-SameKeys (both first second) w =
      let p = assign req.source_wallet_id first second in
      let r = validate_and_settle e req key p w in
      finish-SameKeys w.tables (close e w r) (
        settled-SameKeys p w (close e w r)
          (close-Ends e (λ _. validate_and_settle e req key p w) w r refl))
  advance-SameKeys (ended r) w = refl

module _ (e : Engine) (r : Sent) where
  advance-Held :
      (k : String) (stage : Stage) (w : World)
      → Held k w.tables
      → Held k (advance e r.body r.key stage w).1.tables
  advance-Held k stage w h = rw (advance-SameKeys e r.body r.key stage w) h

  admitted-Held :
      (k : String) (t : Tables) (p : Result (Option KeyRecord) × World)
      → Acquired r.key r.body t p
      → Held k t
      → Held k (admitted p).1.tables
  admitted-Held k t (err x, w) (Acquired.granted h _) held = absurd (ground arith)
  admitted-Held k t (err x, w) (Acquired.withheld _ same) held = rw same held
  admitted-Held k t (ok (some row), w) (Acquired.granted h _) held = absurd (ground arith)
  admitted-Held k t (ok (some row), w) (Acquired.withheld _ same) held = rw same held
  admitted-Held k t (ok none, w) (Acquired.granted _ taken) held =
      rw taken (with_key-Held k r.key r.body t held)
  admitted-Held k t (ok none, w) (Acquired.withheld h _) held = absurd (h refl)

  forbid-Held : (k : String) (w : World) → Held k w.tables → Held k (forbid e r.key w).1.tables
  unfolding store_response
  forbid-Held k w h = complete-Held e k r.key ResponsePayload.forbidden_document 403 w h

  report-Held :
      (k : String) (p : Result Transfer × World)
      → Held k p.1.tables
      → Held k (report e r.key p).1.tables
  unfolding store_response
  report-Held k (ok transfer, w) h =
      complete-Held e k r.key (ResponsePayload.transfer_document transfer) 201 w h
  report-Held k (err x, w) h = complete-Held e k r.key (ResponsePayload.error_document x) 400 w h

  owner-Held :
      (k : String) (p : Result Wallet × World)
      → Held k p.1.tables
      → Held k (checked_owner e r p).1.tables
  owner-Held k (err x, w) h = forbid-Held k w h
  owner-Held k (ok wallet, w) h = elim (Bool-cases (may_spend wallet r.caller)) [
    | inl may ↦ rw may h
    | inr may_not ↦ rw may_not (forbid-Held k w h)
  ]

  transfer_turn-Held :
      (k : String) (stage : Stage) (w : World)
      → Held k w.tables
      → Held k (transfer_turn e r stage w).1.tables
  transfer_turn-Held k (ended result) w h = report-Held k (result, w) h
  transfer_turn-Held k idle w h = advance-Held k idle w h
  transfer_turn-Held k begun w h = advance-Held k begun w h
  transfer_turn-Held k (one first) w h = advance-Held k (one first) w h
  transfer_turn-Held k (both first second) w h = advance-Held k (both first second) w h

  -- A key that is in the table stays there.
  pub advance_request-Held :
      (k : String) (phase : Phase) (w : World)
      → Held k w.tables
      → Held k (advance_request e r phase w).1.tables
  unfolding advance_request
  advance_request-Held k arrived w h =
      admitted-Held k w.tables (try_acquire e r.key r.body w)
        (try_acquire-Acquired e r.key r.body w) h
  advance_request-Held k granted w h =
      owner-Held k (get_wallet_by_id e r.body.source_wallet_id w)
        (rw (get_wallet_by_id-next e r.body.source_wallet_id w) h)
  advance_request-Held k (moving stage) w h = transfer_turn-Held k stage w h
  advance_request-Held k (turned_away response) w h = h
  advance_request-Held k (answered response) w h = h

  -- The turn gives the request its key: it was not in the table, and is now.
  abbrev pub Obtained : Tables → Tables → Type 0
  Obtained t t' = (¬ Held r.key t) × Held r.key t'

  admitted-Obtained :
      (w : World) (p : Result (Option KeyRecord) × World)
      → Acquired r.key r.body w.tables p
      → (Held r.key w.tables → p.0 ≢ ok none)
      → is_owner (admitted p).0 ≡ true
      → Obtained w.tables (admitted p).1.tables
  admitted-Obtained w (err x, w') a taken h = absurd cc
  admitted-Obtained w (ok (some row), w') a taken h = absurd cc
  admitted-Obtained w (ok none, w') (Acquired.withheld lost _) taken h = absurd (lost refl)
  admitted-Obtained w (ok none, w') (Acquired.granted _ same) taken h =
      (λ held. taken held refl, granted-Held r.key r.body w.tables w'.tables same)

  not_given :
      (down : Bool) (row : KeyRecord)
      → (if down then err Error.unavailable else stored_answer row) ≢ ok none
  not_given true row h = ground arith
  not_given false row h = stored_answer-some row h

  Held-refused : (w : World) → Held r.key w.tables → (try_acquire e r.key r.body w).0 ≢ ok none
  Held-refused w held got =
      let (row, found) = held_row r.key w.tables.idempotency_keys held in
      not_given (e.fault (next w).tick) row
        (sym (ap (λ p. p.0) (try_acquire-taken e r.key r.body w row found)) ∙ got)

  pub advance_request-Obtained :
      (phase : Phase) (w : World)
      → is_owner phase ≡ false
      → is_owner (advance_request e r phase w).0 ≡ true
      → Obtained w.tables (advance_request e r phase w).1.tables
  unfolding advance_request
  advance_request-Obtained arrived w before now =
      admitted-Obtained w (try_acquire e r.key r.body w) (try_acquire-Acquired e r.key r.body w)
        (Held-refused w) now
  advance_request-Obtained (turned_away response) w before now = absurd cc
  advance_request-Obtained granted w before now = absurd cc
  advance_request-Obtained (moving stage) w before now = absurd cc
  advance_request-Obtained (answered response) w before now = absurd cc
