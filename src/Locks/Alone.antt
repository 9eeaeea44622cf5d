-- ===== src/Locks/Alone.antt =====
-- internal/transfers/service.go: a session that nobody interrupts, which ties the turns of Locks to the
-- call of ExecuteTransfer.
use go_wallet_ledger.Base.{
  ℕ, zero, suc, String, ◌≡◌, refl, ◌∙◌, ap, not, ◌==◌, arith, inl, inr, Bool-cases,
}
use go_wallet_ledger.Base.Int.{pos, ltb_ℤ}
use go_wallet_ledger.Models.Errors.{Error}
use go_wallet_ledger.Models.Wallets.{Wallet}
use go_wallet_ledger.Models.Transfers.{CreateTransferRequest, Transfer}
use go_wallet_ledger.Store.{
  Engine, World, Tables, Outcome, conclude, Result, ok, err, next, ◌>>◌, ◌>>=◌, guard, pure, raise,
  transaction, close, continue, calls,
}
use go_wallet_ledger.Transfers.{
  lock_order, lock_wallet, select_for_update, assign, validate_and_settle, transfer_body,
  record_transfer, execute_transfer,
}
use go_wallet_ledger.Locks.{Stage, idle, one, both, ended, advance, finish, locked}

-- `k` turns in a row.
unfoldable pub turns : Engine → CreateTransferRequest → String → ℕ → Stage × World → Stage × World
turns e req key zero p = p
turns e req key (suc k) (stage, w) = turns e req key k (advance e req key stage w)

-- A lock changes nothing but the count of calls.
pub lock_wallet-next : (e : Engine) (id : String) (w : World) → (lock_wallet e id w).1 ≡ next w
unfolding lock_wallet select_for_update calls
lock_wallet-next e id w = ground arith

module _ (e : Engine) (req : CreateTransferRequest) (key : String) where
  abbrev pub whole : Result Transfer × World → Stage × World
  whole r = (ended r.0, r.1)

  pub turns-ended :
      (k : ℕ) (r : Result Transfer) (w : World) → turns e req key k (ended r, w) ≡ (ended r, w)
  unfolding turns advance
  turns-ended zero r w = refl
  turns-ended (suc k) r w = turns-ended k r w

  turns-finish :
      (k : ℕ) (r : Result Transfer × World)
      → turns e req key k (finish r) ≡ whole (record_transfer r)
  turns-finish k (ok a, w) = turns-ended k (ok a) _
  turns-finish k (err x, w) = turns-ended k (err x) _

  pub finish-whole : (r : Result Transfer × World) → finish r ≡ whole (record_transfer r)
  finish-whole (ok a, w) = refl
  finish-whole (err x, w) = refl

  restored :
      (w w' w'' : World)
      → w'.tables ≡ w.tables
      → record w'' { tables = w'.tables } ≡ record w'' { tables = w.tables }
  restored w w' w'' same = ap (λ (t : Tables). record w'' { tables = t }) same

  conclude-same :
      (o : Outcome) (a : Transfer) (w w' w'' : World)
      → w'.tables ≡ w.tables
      → conclude o a w' w'' ≡ conclude o a w w''
  conclude-same Outcome.committed a w w' w'' same = refl
  conclude-same Outcome.aborted a w w' w'' same =
      ap (λ (u : World). (err Error.unavailable, u)) (restored w w' w'' same)
  conclude-same Outcome.in_doubt a w w' w'' same = refl

  -- A rollback to another world with the same tables is the same.
  close-same :
      (w w' : World) (r : Result Transfer × World)
      → w'.tables ≡ w.tables
      → close e w' r ≡ close e w r
  close-same w w' (ok a, w'') same = conclude-same (e.outcome w''.tick) a w w' (next w'') same
  close-same w w' (err x, w'') same = ap (λ (u : World). (err x, u)) (restored w w' w'' same)

  -- The rest of the call after the second lock.
  after_second :
      (w : World) (first : Wallet) (r : Result Wallet × World)
      → r.1.tables ≡ w.tables
      → turns e req key 1 (locked (both first) r)
        ≡ whole (
            record_transfer (
              close e w (
                continue
                  (λ second.
                    validate_and_settle e req key (assign req.source_wallet_id first second))
                  r)))
  unfolding turns advance
  after_second w first (ok second, w') same =
      finish-whole
        (close e w' (validate_and_settle e req key (assign req.source_wallet_id first second) w'))
      ∙ ap (λ p. whole (record_transfer p)) (close-same w w' _ same)
  after_second w first (err x, w') same =
      ap (λ (u : World). whole (record_transfer (err x, u))) (restored w w' w' same)

  -- And after the first.
  after_first :
      (w : World) (r : Result Wallet × World)
      → r.1.tables ≡ w.tables
      → turns e req key 2 (locked one r)
        ≡ whole (
            record_transfer (
              close e w (
                continue
                  (λ first.
                    lock_wallet e (lock_order req.source_wallet_id req.destination_wallet_id).1
                    >>= λ second.
                        validate_and_settle e req key (assign req.source_wallet_id first second))
                  r)))
  unfolding turns advance ◌>>=◌
  after_first w (ok first, w') same =
      after_second w first
        (lock_wallet e (lock_order req.source_wallet_id req.destination_wallet_id).1 w')
        (ap (λ (u : World). u.tables)
            (lock_wallet-next e (lock_order req.source_wallet_id req.destination_wallet_id).1 w')
          ∙ same)
  after_first w (err x, w') same =
      ap (λ (u : World). whole (record_transfer (err x, u))) (restored w w' w' same)

-- A session whose turns nobody interrupts is a call of `ExecuteTransfer`: its four turns give the
-- result and the world of the call.
pub turns-execute_transfer :
    (e : Engine) (req : CreateTransferRequest) (key : String) (w : World)
    → turns e req key 4 (idle, w)
      ≡ (ended (execute_transfer e req key w).0, (execute_transfer e req key w).1)
unfolding turns advance execute_transfer transfer_body transaction ◌>>◌ ◌>>=◌ guard pure raise
turns-execute_transfer e req key w =
    elim (Bool-cases (not (req.source_wallet_id == req.destination_wallet_id))) [
      | inr same ↦ rw same refl
      | inl differ ↦ elim (Bool-cases (ltb_ℤ (pos 0) req.amount)) [
        | inr low ↦ rw (differ, low) refl
        | inl positive ↦ elim (Bool-cases (e.fault w.tick)) [
          | inl down ↦ rw (differ, positive, down) refl
          | inr up ↦
              rw (differ, positive, up)
                (after_first e req key w
                  (lock_wallet e (lock_order req.source_wallet_id req.destination_wallet_id).0
                    (next w))
                  (ap (λ (u : World). u.tables)
                    (lock_wallet-next e
                      (lock_order req.source_wallet_id req.destination_wallet_id).0 (next w))))
        ]
      ]
    ]
