-- ===== src/Transfers/Swapped.antt =====
-- internal/transfers/service.go: a request whose source is not written in canonical text, and sorts
-- first.
use go_wallet_ledger.Base.{String, ◌≡◌, ◌≢◌, refl, sym, ap, ◌∙◌, subst, some, some_eq, false, gtb}
use go_wallet_ledger.Base.Int.{◌+ℤ◌, ◌-ℤ◌}
use go_wallet_ledger.Models.Wallets.{Wallet}
use go_wallet_ledger.Models.Transfers.{CreateTransferRequest, Transfer}
use go_wallet_ledger.Store.{Tables, Engine, World, Result, ok}
use go_wallet_ledger.Books.{IsFaithful}
use go_wallet_ledger.Transfers.{set_balance, lock_order, execute_transfer}
use go_wallet_ledger.Transfers.Effects.{Contract, execute_transfer-Contract}
use go_wallet_ledger.Transfers.Execution.{Executed}
use go_wallet_ledger.Transfers.Settlement.{Settled, Settled-wallets}
use go_wallet_ledger.Transfers.Locking.{Locked}
use go_wallet_ledger.Transfers.Canonical.{assign_other}

-- The id of the row that a text names is what the text is read as.
Locked-read :
    (e : Engine) (id c : String) (t : Tables) (r : Wallet)
    → e.parse_uuid id ≡ some c
    → Locked e id t r
    → r.id ≡ c
Locked-read e id c t r read l = ap (λ (v : Wallet). v.id) l.scan ∙ some_eq (sym l.read ∙ read)

lock_order-straight : (a b : String) → gtb a b ≡ false → lock_order a b ≡ (a, b)
unfolding lock_order
lock_order-straight a b h = rw h refl

module _ (e : Engine) (req : CreateTransferRequest) (key c d : String) (faithful : IsFaithful e)
    (source : e.parse_uuid req.source_wallet_id ≡ some c) (differs : c ≢ req.source_wallet_id)
    (first_locked : gtb req.source_wallet_id req.destination_wallet_id ≡ false)
    (destination : e.parse_uuid req.destination_wallet_id ≡ some d) (t : Tables) where
  Settled-swapped :
      (t' : Tables) (first second : Wallet)
      → first.id ≡ c
      → second.id ≡ d
      → Settled e req key second first t t'
      → t'.wallets
        ≡ set_balance c (λ b. b +ℤ req.amount) (set_balance d (λ b. b -ℤ req.amount) t.wallets)
  Settled-swapped t' first second f s x =
      rw (← credited, ← debited) (Settled-wallets e req key second first t t' x)
    where
      credited : (x.credited).key ≡ c
      credited = some_eq (
          sym (x.credited).read
          ∙ ap e.parse_uuid f
          ∙ faithful.reads_canonical req.source_wallet_id c source)

      debited : (x.debited).key ≡ d
      debited = some_eq (
          sym (x.debited).read
          ∙ ap e.parse_uuid s
          ∙ faithful.reads_canonical req.destination_wallet_id d destination)

  Executed-swapped :
      (t' : Tables)
      → Executed e req key t t'
      → t'.wallets
        ≡ set_balance c (λ b. b +ℤ req.amount) (set_balance d (λ b. b -ℤ req.amount) t.wallets)
  Executed-swapped t' x =
      let order = lock_order-straight req.source_wallet_id req.destination_wallet_id first_locked in
      let f : x.first.id ≡ c =
        Locked-read e req.source_wallet_id c t x.first source
          (subst (λ (q : String × String). Locked e q.0 t x.first) order x.first_locked) in
      let s : x.second.id ≡ d =
        Locked-read e req.destination_wallet_id d t x.second destination
          (subst (λ (q : String × String). Locked e q.1 t x.second) order x.second_locked) in
      Settled-swapped t' x.first x.second f s (
        subst (λ (p : Wallet × Wallet). Settled e req key p.0 p.1 t t')
          (assign_other req.source_wallet_id x.first x.second (λ h. differs (sym f ∙ h))) x.settled)

  swapped_when :
      (r : Result Transfer × World) (transfer : Transfer)
      → Contract e req key t r
      → r.0 ≡ ok transfer
      → r.1.tables.wallets
        ≡ set_balance c (λ b. b +ℤ req.amount) (set_balance d (λ b. b -ℤ req.amount) t.wallets)
  swapped_when r transfer (Contract.refused x failed _) done = absurd cc
  swapped_when r transfer (Contract.executed _ _ _ x _) done = Executed-swapped r.1.tables x

-- When a transfer whose source is not in canonical text, and does not sort after the destination,
-- reports success, the money has moved the other way: the wallet of the destination paid, and the
-- wallet of the source was paid.
pub execute_transfer-swapped :
    (e : Engine) (req : CreateTransferRequest) (key c d : String) (w : World) (transfer : Transfer)
    → IsFaithful e
    → e.parse_uuid req.source_wallet_id ≡ some c
    → c ≢ req.source_wallet_id
    → gtb req.source_wallet_id req.destination_wallet_id ≡ false
    → e.parse_uuid req.destination_wallet_id ≡ some d
    → (execute_transfer e req key w).0 ≡ ok transfer
    → (execute_transfer e req key w).1.tables.wallets
      ≡ set_balance c (λ b. b +ℤ req.amount) (set_balance d (λ b. b -ℤ req.amount) w.tables.wallets)
execute_transfer-swapped e req key c d w transfer faithful source differs order destination done =
    swapped_when e req key c d faithful source differs order destination w.tables
      (execute_transfer e req key w) transfer (execute_transfer-Contract e req key w) done
