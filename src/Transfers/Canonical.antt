-- ===== src/Transfers/Canonical.antt =====
-- internal/transfers/service.go: a request whose two ids are in canonical text.
use go_wallet_ledger.Base.{
  some_eq, String, ◌≡◌, ◌≢◌, sym, ◌∙◌, ap, subst, some, arith, ◌⊎◌, inl, inr, find_row, gtb,
  Bool-cases,
}
use go_wallet_ledger.Base.Int.{ℤ, ◌+ℤ◌, ◌-ℤ◌, ◌≤ℤ◌}
use go_wallet_ledger.Models.Wallets.{Wallet, WalletStatus, has_id}
use go_wallet_ledger.Models.Transfers.{CreateTransferRequest, Transfer}
use go_wallet_ledger.Store.{Tables, Engine, World, Result, ok}
use go_wallet_ledger.Transfers.{set_balance, assign, lock_order, execute_transfer}
use go_wallet_ledger.Transfers.Effects.{Contract, execute_transfer-Contract}
use go_wallet_ledger.Transfers.Execution.{Executed}
use go_wallet_ledger.Transfers.Settlement.{Rebalanced, Settled-wallets}
use go_wallet_ledger.Transfers.Locking.{Locked}

-- Both wallets exist, are active and in the request's currency, the source covers the amount, and
-- of all the wallets' rows exactly the balances of these two change, by the amount.
pub record Moved (req : CreateTransferRequest) (t t' : Tables) : Type 0 where
  pub source : Wallet
  pub destination : Wallet
  pub source_found : find_row (has_id req.source_wallet_id) t.wallets ≡ some source
  pub destination_found : find_row (has_id req.destination_wallet_id) t.wallets ≡ some destination
  pub active : (source.status ≡ WalletStatus.active) × (destination.status ≡ WalletStatus.active)
  pub currency : (source.currency ≡ req.currency) × (destination.currency ≡ req.currency)
  pub covered : req.amount ≤ℤ source.available_balance
  pub wallets :
      t'.wallets
      ≡ set_balance req.destination_wallet_id
          (λ b. b +ℤ req.amount)
          (set_balance req.source_wallet_id (λ b. b -ℤ req.amount) t.wallets)

-- The two locked rows, with their parts given back to the request's texts.
record Roles (e : Engine) (req : CreateTransferRequest) (t : Tables) (p : Wallet × Wallet)
    : Type 0 where
  source : Locked e req.source_wallet_id t p.0
  destination : Locked e req.destination_wallet_id t p.1

pub lock_order-cases : (a b : String) → (lock_order a b ≡ (a, b)) ⊎ (lock_order a b ≡ (b, a))
unfolding lock_order
lock_order-cases a b = elim (Bool-cases (gtb a b)) [
  | inl above ↦ inr (rw above)
  | inr below ↦ inl (rw below)
]

-- The id of a row that a canonical text names is that text.
pub named :
    (e : Engine) (id : String) (t : Tables) (r : Wallet)
    → e.parse_uuid id ≡ some id
    → Locked e id t r
    → r.id ≡ id
named e id t r canon l = ap (λ (v : Wallet). v.id) l.scan ∙ some_eq (sym l.read ∙ canon)

pub assign_same : (s : String) (x y : Wallet) → x.id ≡ s → assign s x y ≡ (x, y)
unfolding assign
assign_same s x y h = ground arith

pub assign_other : (s : String) (x y : Wallet) → x.id ≢ s → assign s x y ≡ (y, x)
unfolding assign
assign_other s x y h = ground arith

module _ (e : Engine) (req : CreateTransferRequest) (t : Tables)
    (source_canonical : e.parse_uuid req.source_wallet_id ≡ some req.source_wallet_id)
    (destination_canonical : e.parse_uuid req.destination_wallet_id
      ≡ some req.destination_wallet_id)
    (differ : req.source_wallet_id ≢ req.destination_wallet_id) where
  assign-Roles :
      (p : String × String) (first second : Wallet)
      → (p ≡ (req.source_wallet_id, req.destination_wallet_id))
        ⊎ (p ≡ (req.destination_wallet_id, req.source_wallet_id))
      → Locked e p.0 t first
      → Locked e p.1 t second
      → Roles e req t (assign req.source_wallet_id first second)
  assign-Roles p first second (inl straight) f s =
      let f' = subst (λ (q : String × String). Locked e q.0 t first) straight f in
      let s' = subst (λ (q : String × String). Locked e q.1 t second) straight s in
      rw
        (assign_same req.source_wallet_id first second
          (named e req.source_wallet_id t first source_canonical f'))
        (record { source = f'; destination = s' })
  assign-Roles p first second (inr crossed) f s =
      let f' = subst (λ (q : String × String). Locked e q.0 t first) crossed f in
      let s' = subst (λ (q : String × String). Locked e q.1 t second) crossed s in
      rw
        (assign_other req.source_wallet_id first second (λ h.
          differ (sym h ∙ named e req.destination_wallet_id t first destination_canonical f')))
        (record { source = s'; destination = f' })

  Locked-row :
      (id : String) (r : Wallet) → e.parse_uuid id ≡ some id → (l : Locked e id t r) → l.row.id ≡ id
  Locked-row id r canon l = some_eq (sym l.read ∙ canon)

  Locked-found :
      (id : String) (r : Wallet)
      → e.parse_uuid id ≡ some id
      → (l : Locked e id t r) → find_row (has_id id) t.wallets ≡ some l.row
  Locked-found id r canon l = rw (← Locked-row id r canon l) l.found

  -- The row that the settlement changes is the one that the text names.
  Rebalanced-key :
      (id : String) (r : Wallet) (f : ℤ → ℤ) (t1 t2 : Tables)
      → e.parse_uuid id ≡ some id
      → Locked e id t r
      → (b : Rebalanced e r.id f t1 t2) → b.key ≡ id
  Rebalanced-key id r f t1 t2 canon l b =
      some_eq (sym b.read ∙ ap e.parse_uuid (named e id t r canon l) ∙ canon)

  module _ (key : String) (t' : Tables) (x : Executed e req key t t') where
    abbrev rows : Wallet × Wallet
    rows = assign req.source_wallet_id x.first x.second

    roles : Roles e req t rows
    roles =
        assign-Roles (lock_order req.source_wallet_id req.destination_wallet_id) x.first x.second
          (lock_order-cases req.source_wallet_id req.destination_wallet_id) x.first_locked
          x.second_locked

    open x.settled use {t1, t2, debited, credited, logged, recorded, announced}

    debited_key : debited.key ≡ req.source_wallet_id
    debited_key =
        Rebalanced-key req.source_wallet_id rows.0 (λ b. b -ℤ req.amount) t t1 source_canonical
          roles.source debited

    credited_key : credited.key ≡ req.destination_wallet_id
    credited_key =
        Rebalanced-key req.destination_wallet_id rows.1 (λ b. b +ℤ req.amount) t1 t2
          destination_canonical roles.destination credited

    pub Moved-of : Moved req t t'
    Moved-of = record {
      source = roles.source.row;
      destination = roles.destination.row;
      source_found = Locked-found req.source_wallet_id rows.0 source_canonical roles.source;
      destination_found =
          Locked-found req.destination_wallet_id rows.1 destination_canonical roles.destination;
      active = (
        subst (λ (v : Wallet). v.status ≡ WalletStatus.active) roles.source.scan
            x.eligible.active.0,
        subst (λ (v : Wallet). v.status ≡ WalletStatus.active) roles.destination.scan
            x.eligible.active.1,
      );
      currency = (
        subst (λ (v : Wallet). v.currency ≡ req.currency) roles.source.scan x.eligible.currency.0,
        subst (λ (v : Wallet). v.currency ≡ req.currency) roles.destination.scan
            x.eligible.currency.1,
      );
      covered =
          subst (λ (v : Wallet). req.amount ≤ℤ v.available_balance) roles.source.scan
            x.eligible.covered;
      wallets =
          rw (← debited_key, ← credited_key)
            (Settled-wallets e req key rows.0 rows.1 t t' x.settled);
    }

Moved-when :
    (e : Engine) (req : CreateTransferRequest) (key : String) (t : Tables)
    (r : Result Transfer × World) (transfer : Transfer)
    → e.parse_uuid req.source_wallet_id ≡ some req.source_wallet_id
    → e.parse_uuid req.destination_wallet_id ≡ some req.destination_wallet_id
    → Contract e req key t r
    → r.0 ≡ ok transfer
    → Moved req t r.1.tables
Moved-when e req key t r transfer cs cd (Contract.refused x failed _) done = absurd cc
Moved-when e req key t r transfer cs cd (Contract.executed _ differ _ x _) done =
    Moved-of e req t cs cd differ key r.1.tables x

-- When a transfer whose two ids are in canonical text reports success, both wallets exist, are
-- active and in the request's currency, the source had the amount, and of all rows of `wallets` the
-- source's balance is less and the destination's is more by exactly the amount.
pub execute_transfer-Moved :
    (e : Engine) (req : CreateTransferRequest) (key : String) (w : World) (transfer : Transfer)
    → e.parse_uuid req.source_wallet_id ≡ some req.source_wallet_id
    → e.parse_uuid req.destination_wallet_id ≡ some req.destination_wallet_id
    → (execute_transfer e req key w).0 ≡ ok transfer
    → Moved req w.tables (execute_transfer e req key w).1.tables
execute_transfer-Moved e req key w transfer cs cd done =
    Moved-when e req key w.tables (execute_transfer e req key w) transfer cs cd
      (execute_transfer-Contract e req key w) done
