-- ===== src/Transfers/Effects.antt =====
-- internal/transfers/service.go: `ExecuteTransfer` against its contract.
use go_wallet_ledger.Base.{
  String, ◌≡◌, ◌≢◌, refl, sym, subst, true, not, ◌==◌, arith, ◌⊎◌, inl, inr, Bool-cases,
}
use go_wallet_ledger.Base.Int.{pos, ◌≤ℤ◌, ltb_ℤ}
use go_wallet_ledger.Models.Errors.{Error}
use go_wallet_ledger.Models.Transfers.{CreateTransferRequest, Transfer}
use go_wallet_ledger.Store.{
  World, Tables, Engine, Result, ok, err, next, ◌>>◌, guard, pure, raise, transaction,
}
use go_wallet_ledger.Store.Laws.{Ends, transaction-Ends}
use go_wallet_ledger.Transfers.{transfer_body, attempt_transfer, record_transfer, execute_transfer}
use go_wallet_ledger.Transfers.Execution.{Executed, transfer_body-Executed}

-- The contract of a call from the tables `t`: it failed and changed nothing, or the whole transfer
-- was executed (and either reported, or in doubt because the answer to COMMIT was lost).
pub data Contract (e : Engine) (req : CreateTransferRequest) (key : String) (t : Tables)
    (r : Result Transfer × World) : Type 0 where
  refused : (x : Error) → r.0 ≡ err x → r.1.tables ≡ t → Contract e req key t r
  executed :
      (transfer : Transfer)
      → req.source_wallet_id ≢ req.destination_wallet_id
      → pos 1 ≤ℤ req.amount
      → Executed e req key t r.1.tables
      → (r.0 ≡ ok transfer) ⊎ (r.0 ≡ err Error.unavailable)
      → Contract e req key t r

pub Contract-record :
    (e : Engine) (req : CreateTransferRequest) (key : String) (t : Tables)
    (r : Result Transfer × World)
    → Contract e req key t r
    → Contract e req key t (record_transfer r)
Contract-record e req key t (ok a, w) (refused x p s) = absurd (ground arith)
Contract-record e req key t (ok a, w) (executed tr ne am ex done) = executed tr ne am ex done
Contract-record e req key t (err y, w) (refused x p s) = refused x p s
Contract-record e req key t (err y, w) (executed tr ne am ex done) = executed tr ne am ex done

Contract-of :
    (e : Engine) (req : CreateTransferRequest) (key : String) (w : World)
    (r : Result Transfer × World)
    → req.source_wallet_id ≢ req.destination_wallet_id
    → pos 1 ≤ℤ req.amount
    → Ends e (transfer_body e req key) w r
    → Contract e req key w.tables r
Contract-of e req key w r ne am (Ends.undone x p s) = refused x p s
Contract-of e req key w r ne am (Ends.durable a w' run same done) =
    executed a ne am
      (subst (λ u. Executed e req key w.tables u) (sym same)
        ((transfer_body-Executed e req key (next w)).at a w' run))
      done

distinct_ids : (a b : String) → not (a == b) ≡ true → a ≢ b
distinct_ids a b h same = ground arith

attempt_transfer-Contract :
    (e : Engine) (req : CreateTransferRequest) (key : String) (w : World)
    → Contract e req key w.tables (attempt_transfer e req key w)
unfolding ◌>>◌ guard pure raise
attempt_transfer-Contract e req key w =
    elim (Bool-cases (not (req.source_wallet_id == req.destination_wallet_id))) [
      | inr same ↦ rw same (refused Error.same_wallet refl refl)
      | inl differ ↦ elim (Bool-cases (ltb_ℤ (pos 0) req.amount)) [
        | inr low ↦ rw (differ, low) (refused Error.amount_not_positive refl refl)
        | inl positive ↦
            rw (differ, positive)
              (Contract-of e req key w (transaction e (transfer_body e req key) w)
                (distinct_ids req.source_wallet_id req.destination_wallet_id differ) (ground arith)
                (transaction-Ends e (transfer_body e req key) w))
      ]
    ]

-- Every call keeps the contract: all of the transfer, between different ids and with a positive
-- amount, or nothing at all.
pub execute_transfer-Contract :
    (e : Engine) (req : CreateTransferRequest) (key : String) (w : World)
    → Contract e req key w.tables (execute_transfer e req key w)
unfolding execute_transfer
execute_transfer-Contract e req key w =
    Contract-record e req key w.tables (attempt_transfer e req key w)
      (attempt_transfer-Contract e req key w)
