-- ===== src/Locks/Freshness.antt =====
-- internal/transfers/service.go: what a session has read from the rows that it has locked, and the
-- rows that its turn changes.
use go_wallet_ledger.Base.{
  String, ◌≡◌, ◌≢◌, refl, sym, ap, ◌∙◌, subst, some, some_eq, List, [], ◌∷◌, false, not, ◌==◌,
  find_row, arith, inl, inr, Bool-cases,
}
use go_wallet_ledger.Base.Int.{ℤ, pos, ◌≤ℤ◌, ◌+ℤ◌, ◌-ℤ◌, ltb_ℤ}
use go_wallet_ledger.Models.Wallets.{Wallet, has_id}
use go_wallet_ledger.Models.Transfers.{CreateTransferRequest, Transfer}
use go_wallet_ledger.Store.{Engine, World, Tables, Result, ok, err, close}
use go_wallet_ledger.Store.Laws.{Ends, close-Ends}
use go_wallet_ledger.Books.{IsFaithful}
use go_wallet_ledger.Transfers.{
  lock_order, lock_wallet, assign, validate_and_settle, record_transfer, set_balance,
}
use go_wallet_ledger.Transfers.Locking.{Locked, lock_wallet-Locked, IsRow, assign-IsRow}
use go_wallet_ledger.Transfers.Settlement.{Settled-wallets}
use go_wallet_ledger.Transfers.Execution.{Executed, validate_and_settle-Succeeds}
use go_wallet_ledger.Transfers.Effects.{Contract, Contract-record}
use go_wallet_ledger.Locks.{
  Stage, idle, begun, one, both, ended, advance, finish, begin_transfer, locked, holds,
}
use go_wallet_ledger.Locks.Alone.{lock_wallet-next}

-- The request has passed the tests before `BeginTx`.
pub record IsValid (req : CreateTransferRequest) : Type 0 where
  pub different : req.source_wallet_id ≢ req.destination_wallet_id
  pub positive : pos 1 ≤ℤ req.amount

module _ (e : Engine) (req : CreateTransferRequest) where
  abbrev pub First : Tables → Wallet → Type 0
  First t first = Locked e (lock_order req.source_wallet_id req.destination_wallet_id).0 t first

  abbrev pub Second : Tables → Wallet → Type 0
  Second t second = Locked e (lock_order req.source_wallet_id req.destination_wallet_id).1 t second

  -- The rows that the session has read are still those of the table.
  abbrev pub IsFresh : Tables → Stage → Type 0
  IsFresh t idle = Unit
  IsFresh t begun = IsValid req
  IsFresh t (one first) = IsValid req × First t first
  IsFresh t (both first second) = IsValid req × First t first × Second t second
  IsFresh t (ended r) = Unit

  finish-IsFresh : (t : Tables) (r : Result Transfer × World) → IsFresh t (finish r).0
  finish-IsFresh t (ok a, w) = tt
  finish-IsFresh t (err x, w) = tt

  locked-IsFresh :
      (P : Tables → Wallet → Type 0) (t : Tables) (stage : Wallet → Stage)
      (r : Result Wallet × World)
      → ((row : Wallet) (w' : World) → r ≡ (ok row, w') → P w'.tables row)
      → ((row : Wallet) (w' : World) → P w'.tables row → IsFresh w'.tables (stage row))
      → IsFresh (locked stage r).1.tables (locked stage r).0
  locked-IsFresh P t stage (ok row, w') read fresh = fresh row w' (read row w' refl)
  locked-IsFresh P t stage (err x, w') read fresh = tt

  begin-IsFresh : (w : World) → IsFresh (begin_transfer e req w).1.tables (begin_transfer e req w).0
  begin-IsFresh w = elim (Bool-cases (not (req.source_wallet_id == req.destination_wallet_id))) [
    | inr same ↦ rw same tt
    | inl differ ↦ elim (Bool-cases (ltb_ℤ (pos 0) req.amount)) [
      | inr low ↦ rw (differ, low) tt
      | inl positive ↦ elim (Bool-cases (e.fault w.tick)) [
        | inl down ↦ rw (differ, positive, down) tt
        | inr up ↦
            rw (differ, positive, up)
              (record { different = λ same. ground arith; positive = ground arith })
      ]
    ]
  ]

  read_row :
      (id : String) (row : Wallet) (w w' : World)
      → lock_wallet e id w ≡ (ok row, w')
      → Locked e id w'.tables row
  read_row id row w w' run =
      let (l, same) = (lock_wallet-Locked e id w).at row w' run in
      subst (λ (t : Tables). Locked e id t row) (sym same) l

  unchanged :
      (id : String) (w : World) (row : Wallet) (w' : World)
      → lock_wallet e id w ≡ (ok row, w')
      → w.tables ≡ w'.tables
  unchanged id w row w' run = sym ((lock_wallet-Locked e id w).at row w' run).1

  -- A turn leaves the session with rows that are those of the table.
  pub advance-IsFresh :
      (key : String) (stage : Stage) (w : World)
      → IsFresh w.tables stage
      → IsFresh (advance e req key stage w).1.tables (advance e req key stage w).0
  unfolding advance
  advance-IsFresh key idle w h = begin-IsFresh w
  advance-IsFresh key begun w h =
      locked-IsFresh First w.tables one _ (λ row w' run. read_row _ row w w' run)
        (λ row w' f. (h, f))
  advance-IsFresh key (one first) w h =
      locked-IsFresh (λ t second. First t first × Second t second) w.tables (both first) _
        (λ row w' run. (
          subst (λ (t : Tables). First t first) (unchanged _ w row w' run) h.1,
          read_row _ row w w' run,
        ))
        (λ row w' f. (h.0, f.0, f.1))
  advance-IsFresh key (both first second) w h =
      let r =
        close e w (validate_and_settle e req key (assign req.source_wallet_id first second) w) in
      finish-IsFresh (finish r).1.tables r
  advance-IsFresh key (ended r) w h = tt

  module _ (key : String) (first second : Wallet) (w : World)
      (h : IsFresh w.tables (both first second)) where
    abbrev rows : Wallet × Wallet
    rows = assign req.source_wallet_id first second

    abbrev outcome : Result Transfer × World
    outcome = close e w (validate_and_settle e req key rows w)

    Contract-of :
        (r : Result Transfer × World)
        → Ends e (λ _. validate_and_settle e req key rows w) w r
        → Contract e req key w.tables r
    Contract-of r (Ends.undone x p same) = Contract.refused x p same
    Contract-of r (Ends.durable a w' run same done) =
        let x = (validate_and_settle-Succeeds e req key rows w).at a w' run in
        Contract.executed a (h.0).different (h.0).positive
          (subst (λ u. Executed e req key w.tables u) (sym same)
            (record {
              first = first;
              second = second;
              first_locked = h.1;
              second_locked = h.2;
              eligible = x.0;
              settled = x.1;
            }))
          done

    -- The last turn keeps the contract of a call that runs alone.
    pub settle-Contract : Contract e req key w.tables (record_transfer outcome)
    settle-Contract =
        Contract-record e req key w.tables outcome
          (Contract-of outcome (close-Ends e (λ _. validate_and_settle e req key rows w) w _ refl))

-- An UPDATE of the row `key` leaves the row `id`.
pub set_balance-find_row :
    (key id : String) (f : ℤ → ℤ) (rows : List Wallet)
    → key ≢ id
    → find_row (has_id id) (set_balance key f rows) ≡ find_row (has_id id) rows
set_balance-find_row key id f [] differ = refl
set_balance-find_row key id f (r ∷ rows) differ = ground (arith, set_balance-find_row key id f rows)

-- A row that is read again is still the one that was locked, where the row that its id names is.
pub Locked-Untouched :
    (e : Engine) (id : String) (t t' : Tables) (r : Wallet)
    → find_row (has_id r.id) t'.wallets ≡ find_row (has_id r.id) t.wallets
    → Locked e id t r
    → Locked e id t' r
Locked-Untouched e id t t' r same l =
    let own : r.id ≡ l.row.id = ap (λ (v : Wallet). v.id) l.scan in
    record {
      row = l.row;
      read = l.read;
      found =
          subst (λ k. find_row (has_id k) t'.wallets ≡ find_row (has_id k) t.wallets) own same
          ∙ l.found;
      scan = l.scan;
    }

module _ (e : Engine) (faithful : IsFaithful e) (req : CreateTransferRequest) (key : String) where
  -- The row that the settlement changes is the one that was locked.
  own_key :
      (id k : String) (t : Tables) (r : Wallet)
      → Locked e id t r
      → e.parse_uuid r.id ≡ some k
      → k ≡ r.id
  own_key id k t r l h =
      let own : r.id ≡ l.row.id = ap (λ (v : Wallet). v.id) l.scan in
      some_eq (sym h ∙ ap e.parse_uuid own ∙ faithful.reads_canonical id l.row.id l.read) ∙ sym own

  free_row :
      (id k : String) (t : Tables) (r : Wallet)
      → IsRow e t r
      → (r.id == id) ≡ false
      → e.parse_uuid r.id ≡ some k
      → k ≢ id
  free_row id k t r is_row free h =
      let own = own_key is_row.id k t r is_row.locked h in λ same. ground (arith, own)

  assign-free :
      (first second : Wallet) (id : String)
      → holds (both first second) id ≡ false
      → let (source, dest) = assign req.source_wallet_id first second in
        ((source.id == id) ≡ false) × ((dest.id == id) ≡ false)
  unfolding assign
  assign-free first second id free = (ground arith, ground arith)

  settle-others :
      (first second : Wallet) (w : World) (id : String)
      → IsFresh e req w.tables (both first second)
      → holds (both first second) id ≡ false
      → (r : Result Transfer × World)
      → Ends e (λ _. validate_and_settle e req key (assign req.source_wallet_id first second) w) w r
      → find_row (has_id id) r.1.tables.wallets ≡ find_row (has_id id) w.tables.wallets
  settle-others first second w id h free r (Ends.undone x p same) =
      ap (λ (t : Tables). find_row (has_id id) t.wallets) same
  settle-others first second w id h free r (Ends.durable a w' run same done) =
      let (s, d) = assign req.source_wallet_id first second in
      let x = ((validate_and_settle-Succeeds e req key (s, d) w).at a w' run).1 in
      let rows =
        assign-IsRow e w.tables req.source_wallet_id first second (record { id = _; locked = h.1 })
          (record { id = _; locked = h.2 }) in
      let others = assign-free first second id free in
      ap (λ (t : Tables). find_row (has_id id) t.wallets) same
      ∙ ap (λ (l : List Wallet). find_row (has_id id) l)
          (Settled-wallets e req key s d w.tables w'.tables x)
      ∙ set_balance-find_row x.credited.key id (λ b. b +ℤ req.amount)
          (set_balance x.debited.key (λ b. b -ℤ req.amount) w.tables.wallets)
          (free_row id x.credited.key w.tables d rows.1 others.1 x.credited.read)
      ∙ set_balance-find_row x.debited.key id (λ b. b -ℤ req.amount) w.tables.wallets
          (free_row id x.debited.key w.tables s rows.0 others.0 x.debited.read)

  pub finish-tables : (r : Result Transfer × World) → (finish r).1.tables ≡ r.1.tables
  finish-tables (ok a, w) = refl
  finish-tables (err x, w) = refl

  locked-tables :
      (stage : Wallet → Stage) (r : Result Wallet × World) → (locked stage r).1.tables ≡ r.1.tables
  locked-tables stage (ok row, w) = refl
  locked-tables stage (err x, w) = refl

  -- A lock changes no table.
  pub lock-tables :
      (stage : Wallet → Stage) (id : String) (w : World)
      → (locked stage (lock_wallet e id w)).1.tables ≡ w.tables
  lock-tables stage id w =
      locked-tables stage (lock_wallet e id w)
      ∙ ap (λ (u : World). u.tables) (lock_wallet-next e id w)

  pub begin-tables : (w : World) → (begin_transfer e req w).1.tables ≡ w.tables
  begin-tables w = elim (Bool-cases (not (req.source_wallet_id == req.destination_wallet_id))) [
    | inr same ↦ rw same refl
    | inl differ ↦ elim (Bool-cases (ltb_ℤ (pos 0) req.amount)) [
      | inr low ↦ rw (differ, low) refl
      | inl positive ↦ elim (Bool-cases (e.fault w.tick)) [
        | inl down ↦ rw (differ, positive, down) refl
        | inr up ↦ rw (differ, positive, up) refl
      ]
    ]
  ]

  same_row :
      (id : String) (t t' : Tables)
      → t' ≡ t
      → find_row (has_id id) t'.wallets ≡ find_row (has_id id) t.wallets
  same_row id t t' same = ap (λ (u : Tables). find_row (has_id id) u.wallets) same

  -- A turn leaves the rows that the session has not locked.
  pub advance-others :
      (stage : Stage) (w : World) (id : String)
      → IsFresh e req w.tables stage
      → holds stage id ≡ false
      → find_row (has_id id) (advance e req key stage w).1.tables.wallets
        ≡ find_row (has_id id) w.tables.wallets
  unfolding advance
  advance-others idle w id h free =
      same_row id w.tables (begin_transfer e req w).1.tables (begin-tables w)
  advance-others begun w id h free =
      same_row id w.tables _
        (lock-tables one (lock_order req.source_wallet_id req.destination_wallet_id).0 w)
  advance-others (one first) w id h free =
      same_row id w.tables _
        (lock-tables (both first) (lock_order req.source_wallet_id req.destination_wallet_id).1 w)
  advance-others (both first second) w id h free =
      let r =
        close e w (validate_and_settle e req key (assign req.source_wallet_id first second) w) in
      same_row id r.1.tables (finish r).1.tables (finish-tables r)
      ∙ settle-others first second w id h free r (
          close-Ends e
            (λ _. validate_and_settle e req key (assign req.source_wallet_id first second) w) w _
            refl)
  advance-others (ended r) w id h free = refl
