-- ===== src/Transfers/Repeats.antt =====
-- internal/transfers/handler.go: the row that `HandleTransfer` leaves for the answer that it gives.
use go_wallet_ledger.Base.{
  String, ◌≡◌, refl, some, none, Option, false, true, ◌==◌, some_row, arith, inl, inr, Bool-cases,
}
use go_wallet_ledger.Models.Auth.{JwtClaims}
use go_wallet_ledger.Models.Transfers.{CreateTransferRequest, Transfer}
use go_wallet_ledger.Models.Idempotency.{KeyRecord, Status, ResponsePayload}
use go_wallet_ledger.Models.Wallets.{Wallet}
use go_wallet_ledger.Store.{World, Tables, Engine, Result, ok, err}
use go_wallet_ledger.Http.{Response, reply, stored_json}
use go_wallet_ledger.Idempotency.{has_key, claimed, try_acquire}
use go_wallet_ledger.Idempotency.Keys.{Acquired, try_acquire-Acquired, some_row-find_row}
use go_wallet_ledger.Idempotency.Stored.{RowOf, with_key-claimed, complete-Replays}
use go_wallet_ledger.Wallets.{get_wallet_by_id}
use go_wallet_ledger.Transfers.{execute_transfer}
use go_wallet_ledger.Transfers.Handler.{
  handle_transfer, proceed, spend, report, may_spend, store_response,
}
use go_wallet_ledger.Transfers.Replay.{replayed, replayed-Replays, handle_transfer-row, held_row}
use go_wallet_ledger.Transfers.Requests.{get_wallet_by_id-next, execute_transfer-SameOthers}

module _ (e : Engine) (claims : JwtClaims) (key : String) (req : CreateTransferRequest)
    (r : KeyRecord) (done : r.status ≡ Status.completed) where
  -- What an answer with 201 has to do with the row.
  abbrev Kept201 : Response × World → Type 0
  Kept201 a = a.0.status ≡ 201 → RowOf key r a.1.tables → replayed r ≡ a.0

  report-Kept201 :
      (p : Result Transfer × World)
      → RowOf key (claimed key req) p.1.tables
      → Kept201 (report e key p)
  unfolding store_response
  report-Kept201 (ok transfer, w) mine status after =
      replayed-Replays r (reply 201 (stored_json (ResponsePayload.transfer_document transfer))) (
        complete-Replays e key (ResponsePayload.transfer_document transfer) 201 req r w mine after
          done)
  report-Kept201 (err x, w) mine status after = absurd (ground arith)

  spend-Kept201 :
      (p : Result Wallet × World)
      → RowOf key (claimed key req) p.1.tables
      → Kept201 (spend e claims key req p)
  unfolding store_response
  spend-Kept201 (err x, w) mine = λ status after. absurd (ground arith)
  spend-Kept201 (ok wallet, w) mine = elim (Bool-cases (may_spend wallet claims)) [
    | inl may ↦ rw may (
        report-Kept201 (execute_transfer e req key w)
          (rw ((execute_transfer-SameOthers e req key w).0) mine))
    | inr may_not ↦ rw may_not (λ status after. absurd (ground arith))
  ]

  -- The key was not in the table.
  unheld :
      {a : Response} (t : Tables) (w : World)
      → some_row (has_key key) t.idempotency_keys ≡ false
      → w.tables ≡ t
      → Kept201 (a, w)
  unheld t w free same status after =
      let held : some_row (has_key key) t.idempotency_keys ≡ true =
        some_row-find_row (has_key key) t.idempotency_keys r (rw same at after) in
      absurd (ground arith)

  proceed-Kept201 :
      (t : Tables) (p : Result (Option KeyRecord) × World)
      → some_row (has_key key) t.idempotency_keys ≡ false
      → Acquired key req t p
      → Kept201 (proceed e claims key req p)
  proceed-Kept201 t (err x, w) free (Acquired.granted got _) = absurd (ground arith)
  proceed-Kept201 t (err x, w) free (Acquired.withheld _ same) = unheld t w free same
  proceed-Kept201 t (ok (some row), w) free (Acquired.granted got _) = absurd (ground arith)
  proceed-Kept201 t (ok (some row), w) free (Acquired.withheld _ same) = unheld t w free same
  proceed-Kept201 t (ok none, w) free (Acquired.withheld lost _) = absurd (lost refl)
  proceed-Kept201 t (ok none, w) free (Acquired.granted _ taken) =
      spend-Kept201 (get_wallet_by_id e req.source_wallet_id w) (
        rw (get_wallet_by_id-next e req.source_wallet_id w, taken)
          (with_key-claimed key req t free))

-- When a request is answered 201 and its key's row is completed, the row stands for that answer.
pub handle_transfer-stored :
    (e : Engine) (claims : JwtClaims) (key : String) (req : CreateTransferRequest) (w : World)
    (r : KeyRecord)
    → (key == "") ≡ false
    → (handle_transfer e (some claims) key (some req) w).0.status ≡ 201
    → RowOf key r (handle_transfer e (some claims) key (some req) w).1.tables
    → r.status ≡ Status.completed
    → replayed r ≡ (handle_transfer e (some claims) key (some req) w).0
unfolding handle_transfer
handle_transfer-stored e claims key req w r named =
    elim (Bool-cases (some_row (has_key key) w.tables.idempotency_keys)) [
      | inl held ↦
          let (row, found) = held_row key w.tables.idempotency_keys held in
          λ status after done.
            ground (arith, handle_transfer-row e claims key req w row named found)
      | inr free ↦ λ status after done. rw named (
          proceed-Kept201 e claims key req r done w.tables (try_acquire e key req w) free
            (try_acquire-Acquired e key req w) (rw named at status) (rw named at after))
    ]
