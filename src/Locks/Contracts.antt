-- ===== src/Locks/Contracts.antt =====
-- internal/transfers/service.go: concurrent transfers against the contract of a call that runs alone,
-- and against the ledger.
use go_wallet_ledger.Base.{
  ℕ, String, ◌≡◌, refl, sym, ap, ◌∙◌, subst, false, not, ◌==◌, arith, inl, inr, Bool-cases,
}
use go_wallet_ledger.Base.Int.{pos, ltb_ℤ}
use go_wallet_ledger.Models.Errors.{Error}
use go_wallet_ledger.Models.Wallets.{Wallet}
use go_wallet_ledger.Models.Transfers.{CreateTransferRequest, Transfer}
use go_wallet_ledger.Store.{Engine, World, Tables, Result, ok, err, next, close}
use go_wallet_ledger.Store.Laws.{Ends, close-Ends}
use go_wallet_ledger.Books.{IsFaithful, IsSound}
use go_wallet_ledger.Auth.{Crypto}
use go_wallet_ledger.System.Kept.{perform-Kept}
use go_wallet_ledger.System.Books.{IsSound-Keeps}
use go_wallet_ledger.Transfers.{
  lock_order, lock_wallet, assign, validate_and_settle, record_transfer,
}
use go_wallet_ledger.Transfers.Locking.{assign-IsRow}
use go_wallet_ledger.Transfers.Execution.{validate_and_settle-Succeeds}
use go_wallet_ledger.Transfers.Effects.{Contract}
use go_wallet_ledger.Transfers.Soundness.{settled-IsSound}
use go_wallet_ledger.Locks.{
  Stage, idle, begun, one, both, ended, advance, finish, begin_transfer, locked, is_ended, System,
  turn, Step, session, call, Reach, start, later,
}
use go_wallet_ledger.Locks.Alone.{lock_wallet-next}
use go_wallet_ledger.Locks.Freshness.{
  IsFresh, settle-Contract, lock-tables, finish-tables, begin-tables,
}
use go_wallet_ledger.Locks.Kept.{Inv, Reach-Inv, update_self}

module _ (e : Engine) (req : CreateTransferRequest) (key : String) where
  -- A turn that ends the session before it has both rows fails and changes no table.
  ends_early :
      (t : Tables) (x : Error) (w : World) (r : Result Transfer)
      → w.tables ≡ t
      → (finish (err x, w)).0 ≡ ended r
      → Contract e req key t (r, (finish (err x, w)).1)
  ends_early t x w r same h = Contract.refused x (ground arith) same

  locked-Contract :
      (t : Tables) (stage : Wallet → Stage) (p : Result Wallet × World) (r : Result Transfer)
      → p.1.tables ≡ t
      → ((row : Wallet) → is_ended (stage row) ≡ false)
      → (locked stage p).0 ≡ ended r
      → Contract e req key t (r, (locked stage p).1)
  locked-Contract t stage (ok row, w) r same going h = cc (going row)
  locked-Contract t stage (err x, w) r same going h = ends_early t x w r same h

  begin-Contract :
      (w : World) (r : Result Transfer)
      → (begin_transfer e req w).0 ≡ ended r
      → Contract e req key w.tables (r, (begin_transfer e req w).1)
  begin-Contract w r = elim (Bool-cases (not (req.source_wallet_id == req.destination_wallet_id))) [
    | inr same ↦ rw same (ends_early w.tables Error.same_wallet w r refl)
    | inl differ ↦ elim (Bool-cases (ltb_ℤ (pos 0) req.amount)) [
      | inr low ↦ rw (differ, low) (ends_early w.tables Error.amount_not_positive w r refl)
      | inl positive ↦ elim (Bool-cases (e.fault w.tick)) [
        | inl down ↦
            rw (differ, positive, down) (ends_early w.tables Error.unavailable (next w) r refl)
        | inr up ↦ rw (differ, positive, up) (λ h. cc (ap is_ended h))
      ]
    ]
  ]

  finished-Contract :
      (t : Tables) (p : Result Transfer × World) (r : Result Transfer)
      → Contract e req key t (record_transfer p)
      → (finish p).0 ≡ ended r
      → Contract e req key t (r, (finish p).1)
  finished-Contract t (ok a, w) r c h =
      let same : ok a ≡ r = cc in subst (λ x. Contract e req key t (x, (finish (ok a, w)).1)) same c
  finished-Contract t (err x, w) r c h =
      let same : err x ≡ r = cc in
      subst (λ y. Contract e req key t (y, (finish (err x, w)).1)) same c

  advance-Contract :
      (stage : Stage) (w : World) (r : Result Transfer)
      → IsFresh e req w.tables stage
      → is_ended stage ≡ false
      → (advance e req key stage w).0 ≡ ended r
      → Contract e req key w.tables (r, (advance e req key stage w).1)
  unfolding advance
  advance-Contract idle w r h live = begin-Contract w r
  advance-Contract begun w r h live =
      locked-Contract w.tables one
        (lock_wallet e (lock_order req.source_wallet_id req.destination_wallet_id).0 w) r
        (ap (λ (u : World). u.tables) (lock_wallet-next e _ w)) (λ row. refl)
  advance-Contract (one first) w r h live =
      locked-Contract w.tables (both first)
        (lock_wallet e (lock_order req.source_wallet_id req.destination_wallet_id).1 w) r
        (ap (λ (u : World). u.tables) (lock_wallet-next e _ w)) (λ row. refl)
  advance-Contract (both first second) w r h live =
      finished-Contract w.tables _ r (settle-Contract e req key first second w h)
  advance-Contract (ended x) w r h live = cc

  module _ (faithful : IsFaithful e) where
    settle-IsSound :
        (first second : Wallet) (w : World)
        → IsFresh e req w.tables (both first second)
        → IsSound e w.tables
        → (r : Result Transfer × World)
        → Ends e
            (λ _. validate_and_settle e req key (assign req.source_wallet_id first second) w)
            w
            r
        → IsSound e r.1.tables
    settle-IsSound first second w h sound r (Ends.undone x p same) = rw same sound
    settle-IsSound first second w h sound r (Ends.durable a w' run same done) =
        let (s, d) = assign req.source_wallet_id first second in
        let x = ((validate_and_settle-Succeeds e req key (s, d) w).at a w' run).1 in
        let rows =
          assign-IsRow e w.tables req.source_wallet_id first second
            (record { id = _; locked = h.1 }) (record { id = _; locked = h.2 }) in
        rw same (settled-IsSound e faithful w.tables w'.tables sound req key s d rows.0 rows.1 x)

    advance-IsSound :
        (stage : Stage) (w : World)
        → IsFresh e req w.tables stage
        → IsSound e w.tables
        → IsSound e (advance e req key stage w).1.tables
    unfolding advance
    advance-IsSound idle w h sound =
        subst (IsSound e) (sym (begin-tables e faithful req key w)) sound
    advance-IsSound begun w h sound =
        subst (IsSound e) (sym (lock-tables e faithful req key one _ w)) sound
    advance-IsSound (one first) w h sound =
        subst (IsSound e) (sym (lock-tables e faithful req key (both first) _ w)) sound
    advance-IsSound (both first second) w h sound =
        let r =
          close e w (validate_and_settle e req key (assign req.source_wallet_id first second) w) in
        subst (IsSound e) (sym (finish-tables e faithful req key r)) (
          settle-IsSound first second w h sound r (
            close-Ends e
              (λ _. validate_and_settle e req key (assign req.source_wallet_id first second) w) w _
              refl))
    advance-IsSound (ended r) w h sound = sound

module _ (e : Engine) (request : ℕ → CreateTransferRequest) (key : ℕ → String) (crypto : Crypto)
    (hmac : String → String → String) (secret : String) (n : ℕ) (faithful : IsFaithful e) where
  Step-IsSound :
      {s t : System}
      → Step e request key crypto hmac secret n s t
      → Inv e request key crypto hmac secret n s
      → IsSound e s.world.tables
      → IsSound e t.world.tables
  Step-IsSound {s} (session i below granted) inv sound =
      advance-IsSound e (request i) (key i) faithful (s.stage i) s.world (inv.fresh i) sound
  Step-IsSound {s} (call c untouched) inv sound =
      perform-Kept e crypto (IsSound e) (IsSound-Keeps e faithful crypto) hmac secret c s.world
        sound

-- Transfers that run at the same time, in any interleaving with each other and with the other calls
-- of the service, and however the database behaves, leave the wallets in agreement with the ledger.
pub Reach-IsSound :
    (e : Engine) (request : ℕ → CreateTransferRequest) (key : ℕ → String) (crypto : Crypto)
    (hmac : String → String → String) (secret : String) (n : ℕ) {w : World} {s : System}
    → IsFaithful e
    → IsSound e w.tables
    → Reach e request key crypto hmac secret n w s
    → IsSound e s.world.tables
Reach-IsSound e request key crypto hmac secret n faithful sound start = sound
Reach-IsSound e request key crypto hmac secret n faithful sound (later r step) =
    Step-IsSound e request key crypto hmac secret n faithful step
      (Reach-Inv e request key crypto hmac secret n faithful r)
      (Reach-IsSound e request key crypto hmac secret n faithful sound r)

-- Each of the transfers that run at the same time keeps the contract of a call that runs alone: the
-- turn that ends it, in any state that can be reached, makes all of the transfer in the tables as
-- they are then, or changes nothing.
pub turn-Contract :
    (e : Engine) (request : ℕ → CreateTransferRequest) (key : ℕ → String) (crypto : Crypto)
    (hmac : String → String → String) (secret : String) (n : ℕ) {w : World} {s : System} (i : ℕ)
    (r : Result Transfer)
    → IsFaithful e
    → Reach e request key crypto hmac secret n w s
    → is_ended (s.stage i) ≡ false
    → (turn e request key i s).stage i ≡ ended r
    → Contract e (request i) (key i) s.world.tables (r, (turn e request key i s).world)
turn-Contract e request key crypto hmac secret n {s = s} i r faithful reach live ends =
    let inv = Reach-Inv e request key crypto hmac secret n faithful reach in
    advance-Contract e (request i) (key i) (s.stage i) s.world r (inv.fresh i) live
      (sym (update_self s.stage i (advance e (request i) (key i) (s.stage i) s.world).0) ∙ ends)
