-- ===== src/Locks.antt =====
-- internal/transfers/service.go: calls of `ExecuteTransfer` that run at the same time. A session is
-- one call; it goes on by turns, and between two of them the others may take theirs. `FOR UPDATE`
-- locks a row for the session until its COMMIT or ROLLBACK, and a session that asks for a row that
-- another has locked waits.
pub mod Alone
pub mod Freshness
pub mod Kept
pub mod Contracts
pub mod Order
pub mod Totals
pub mod Progress
pub mod Schedules
pub mod Crossed
use go_wallet_ledger.Base.{
  ℕ, suc, ◌+◌, ◌<◌, String, ◌≡◌, ◌≢◌, Bool, true, false, not, ◌==◌, ◌||◌, if◌then◌else◌, some,
  find_row, ℕ_discrete,
}
use go_wallet_ledger.Base.Int.{pos, ltb_ℤ}
use go_wallet_ledger.Models.Errors.{Error}
use go_wallet_ledger.Models.Wallets.{Wallet, has_id}
use go_wallet_ledger.Models.Transfers.{CreateTransferRequest, Transfer}
use go_wallet_ledger.Store.{Engine, World, Tables, Result, ok, err, next, close}
use go_wallet_ledger.Transfers.{
  lock_order, lock_wallet, assign, validate_and_settle, record_transfer,
}
use go_wallet_ledger.Auth.{Crypto}
use go_wallet_ledger.System.{Call, perform}

-- Where a session stands: before `BeginTx`, before the first lock, before the second with the first
-- row as it was read, before the validation with both rows, or at the end with its result.
pub data Stage : Type 0 where
  idle : Stage
  begun : Stage
  one : Wallet → Stage
  both : Wallet → Wallet → Stage
  ended : Result Transfer → Stage

-- The return, with the deferred `RecordTransfer`.
abbrev pub finish : Result Transfer × World → Stage × World
finish r = let (result, w) = record_transfer r in (ended result, w)

-- The tests of the request, and `BeginTx`.
abbrev pub begin_transfer : Engine → CreateTransferRequest → World → Stage × World
begin_transfer e req w =
    if not (req.source_wallet_id == req.destination_wallet_id)
    then if ltb_ℤ (pos 0) req.amount
      then if e.fault w.tick then finish (err Error.unavailable, next w) else (begun, next w)
      else finish (err Error.amount_not_positive, w)
    else finish (err Error.same_wallet, w)

-- After a lock. The session has written nothing so far, so that its rollback restores nothing.
abbrev pub locked : (Wallet → Stage) → Result Wallet × World → Stage × World
locked stage (ok row, w) = (stage row, w)
locked stage (err x, w) = finish (err x, w)

-- A turn of a session, up to the next statement that may wait for a lock. From the validation on
-- the session has the locks that it needs, and its turn is the rest of the call.
unfoldable pub advance : Engine → CreateTransferRequest → String → Stage → World → Stage × World
advance e req key idle w = begin_transfer e req w
advance e req key begun w =
    locked one (lock_wallet e (lock_order req.source_wallet_id req.destination_wallet_id).0 w)
advance e req key (one first) w =
    locked (both first)
      (lock_wallet e (lock_order req.source_wallet_id req.destination_wallet_id).1 w)
advance e req key (both first second) w =
    finish (close e w (validate_and_settle e req key (assign req.source_wallet_id first second) w))
advance e req key (ended r) w = (ended r, w)

-- The session has locked the row of wallets with that id.
abbrev pub holds : Stage → String → Bool
holds (one first) id = first.id == id
holds (both first second) id = first.id == id || second.id == id
holds _ id = false

abbrev pub is_ended : Stage → Bool
is_ended (ended _) = true
is_ended _ = false

-- The shared world, and the stage of each session.
pub record System : Type 0 where
  pub world : World
  pub stage : ℕ → Stage

abbrev pub update {ℓ} : {A : Type ℓ} → (ℕ → A) → ℕ → A → ℕ → A
update f i a j = elim (ℕ_discrete j i) [ yes _ ↦ a | no _ ↦ f j ]

-- The sessions are numbered from 0 to n - 1, each with its request and its key.
module _ (e : Engine) (request : ℕ → CreateTransferRequest) (key : ℕ → String) where
  abbrev pub turn : ℕ → System → System
  turn i s =
      let (stage, w) = advance e (request i) (key i) (s.stage i) s.world in
      record { world = w; stage = update s.stage i stage }

  -- The turn need not wait: no other session has locked a row that the turn locks.
  abbrev pub IsGranted : System → ℕ → Type 0
  IsGranted s i =
      (j : ℕ) (id : String)
      → j ≢ i
      → holds ((turn i s).stage i) id ≡ true
      → holds (s.stage j) id ≡ false

  -- A call that waits for the rows that are locked leaves them as they are.
  abbrev pub Untouched : System → World → Type 0
  Untouched s w' =
      (j : ℕ) (id : String)
      → holds (s.stage j) id ≡ true
      → find_row (has_id id) w'.tables.wallets ≡ find_row (has_id id) s.world.tables.wallets

  module _ (crypto : Crypto) (hmac : String → String → String) (secret : String) (n : ℕ) where
    -- A session takes its turn, or the service answers another call in between.
    pub data Step (s : System) : System → Type 0 where
      session : (i : ℕ) → i < n → IsGranted s i → Step s (turn i s)
      call :
          (c : Call)
          → Untouched s (perform e crypto hmac secret c s.world)
          → Step s (record s { world = perform e crypto hmac secret c s.world })

    -- What can be reached when the sessions are called in a world.
    pub data Reach (w : World) : System → Type 0 where
      start : Reach w (record { world = w; stage = λ _. idle })
      later : {s t : System} → Reach w s → Step s t → Reach w t
