-- ===== src/Locks/Order.antt =====
-- internal/transfers/service.go: the rows that a session has and asks for, in the order of the locks.
use go_wallet_ledger.Base.{
  String, ◌≡◌, ◌≢◌, refl, subst, some, true, false, ◌==◌, gtb, gtb_total, arith, inl, inr,
  Bool-cases, ◌⊎◌,
}
use go_wallet_ledger.Models.Wallets.{Wallet}
use go_wallet_ledger.Models.Transfers.{CreateTransferRequest, Transfer}
use go_wallet_ledger.Store.{Engine, World, Tables, Result, ok, err, close}
use go_wallet_ledger.Transfers.{lock_order, lock_wallet, assign, validate_and_settle}
use go_wallet_ledger.Transfers.Canonical.{named, lock_order-cases}
use go_wallet_ledger.Locks.{Stage, idle, begun, one, both, ended, advance, finish, locked, holds}
use go_wallet_ledger.Locks.Freshness.{IsFresh, advance-IsFresh}

-- Of two different ids the second to be locked is the greater.
lock_order-increases : (a b : String) → a ≢ b → gtb (lock_order a b).1 (lock_order a b).0 ≡ true
unfolding lock_order
lock_order-increases a b ne = elim (Bool-cases (gtb a b)) [
  | inl above ↦ rw above above
  | inr below ↦ rw (below, gtb_total a b ne, below) refl
]

-- The database reads both ids of the request as themselves.
pub record IsCanonical (e : Engine) (req : CreateTransferRequest) : Type 0 where
  pub source : e.parse_uuid req.source_wallet_id ≡ some req.source_wallet_id
  pub destination : e.parse_uuid req.destination_wallet_id ≡ some req.destination_wallet_id

module _ (e : Engine) (req : CreateTransferRequest) (canonical : IsCanonical e req) where
  abbrev order : String × String
  order = lock_order req.source_wallet_id req.destination_wallet_id

  order-canonical :
      (p : String × String)
      → (p ≡ (req.source_wallet_id, req.destination_wallet_id))
        ⊎ (p ≡ (req.destination_wallet_id, req.source_wallet_id))
      → (e.parse_uuid p.0 ≡ some p.0) × (e.parse_uuid p.1 ≡ some p.1)
  order-canonical p (inl straight) = rw straight (canonical.source, canonical.destination)
  order-canonical p (inr crossed) = rw crossed (canonical.destination, canonical.source)

  -- The second row of a session has a greater id than the first.
  both-increases :
      (t : Tables) (first second : Wallet)
      → IsFresh e req t (both first second)
      → gtb second.id first.id ≡ true
  both-increases t first second h =
      let (c0, c1) =
        order-canonical order (lock_order-cases req.source_wallet_id req.destination_wallet_id) in
      rw (named e order.0 t first c0 h.1, named e order.1 t second c1 h.2)
        (lock_order-increases req.source_wallet_id req.destination_wallet_id (h.0).different)

  finish-holds : (r : Result Transfer × World) (id : String) → holds (finish r).0 id ≡ false
  finish-holds (ok a, w) id = refl
  finish-holds (err x, w) id = refl

  locked-asks :
      (first : Wallet) (p : Result Wallet × World) (id : String)
      → IsFresh e req (locked (both first) p).1.tables (locked (both first) p).0
      → holds (locked (both first) p).0 id ≡ true
      → (id ≡ first.id) ⊎ (gtb id first.id ≡ true)
  locked-asks first (ok row, w) id h held = elim (Bool-cases (first.id == id)) [
    | inl same ↦ inl (ground arith)
    | inr other ↦ inr (
        let own : row.id ≡ id = ground arith in
        subst (λ k. gtb k first.id ≡ true) own (both-increases w.tables first row h))
  ]
  locked-asks first (err x, w) id h held = cc

  -- A session with its first row asks for no row but that and a greater one.
  pub one-asks :
      (key : String) (stage : Stage) (w : World) (first : Wallet) (id : String)
      → stage ≡ one first
      → IsFresh e req w.tables stage
      → holds (advance e req key stage w).0 id ≡ true
      → (id ≡ first.id) ⊎ (gtb id first.id ≡ true)
  one-asks key stage w first id at h held =
      let fresh = advance-IsFresh e req key (one first) w (subst (IsFresh e req w.tables) at h) in
      asks fresh (subst (λ p. holds (advance e req key p w).0 id ≡ true) at held)
    where
      asks :
          IsFresh e req
            (advance e req key (one first) w).1.tables
            (advance e req key (one first) w).0
          → holds (advance e req key (one first) w).0 id ≡ true
          → (id ≡ first.id) ⊎ (gtb id first.id ≡ true)
      asks = unfold advance in locked-asks first (lock_wallet e order.1 w) id

  -- A session with both rows asks for none.
  pub both-asks :
      (key : String) (first second : Wallet) (w : World) (id : String)
      → holds (advance e req key (both first second) w).0 id ≡ false
  unfolding advance
  both-asks key first second w id =
      finish-holds
        (close e w (validate_and_settle e req key (assign req.source_wallet_id first second) w)) id

-- Who has locked a row has one row or both.
pub holds-cases :
    (stage : Stage) (id : String)
    → holds stage id ≡ true
    → ((first : Wallet) × (stage ≡ one first) × (first.id ≡ id))
      ⊎ ((first : Wallet) × (second : Wallet) × (stage ≡ both first second))
holds-cases idle id h = cc
holds-cases begun id h = cc
holds-cases (one first) id h = inl (first, refl, ground arith)
holds-cases (both first second) id h = inr (first, second, refl)
holds-cases (ended r) id h = cc
