-- ===== src/Locks/Crossed.antt =====
-- internal/transfers/service.go: the order of the locks where the ids are not in canonical text. The
-- ids are ordered as the texts of the request, and the rows that are locked are those that the
-- database reads from the texts.
use go_wallet_ledger.Base.{
  ℕ, ◌<◌, String, ◌≡◌, ◌≢◌, refl, sym, ap, ◌∙◌, subst, some, true, false, not, ◌==◌, find_row,
  arith, ℕ_discrete,
}
use go_wallet_ledger.Base.Int.{pos, ltb_ℤ}
use go_wallet_ledger.Models.Wallets.{Wallet, has_id}
use go_wallet_ledger.Models.Transfers.{CreateTransferRequest}
use go_wallet_ledger.Store.{Engine, World, Tables, ok, next, calls}
use go_wallet_ledger.Auth.{Crypto}
use go_wallet_ledger.Transfers.{lock_order, lock_wallet, select_for_update, scanned}
use go_wallet_ledger.Locks.{
  Stage, idle, begun, one, both, advance, holds, is_ended, System, turn, IsGranted, session, Reach,
  start, later,
}
use go_wallet_ledger.Locks.Freshness.{IsValid}
use go_wallet_ledger.Locks.Kept.{update_self, update_other}
use go_wallet_ledger.Transfers.Locking.{row_key}

-- The text names a row, and the database answers.
lock_wallet-ok :
    (e : Engine) (text id : String) (row : Wallet) (w : World)
    → e.fault w.tick ≡ false
    → e.parse_uuid text ≡ some id
    → find_row (has_id id) w.tables.wallets ≡ some row
    → lock_wallet e text w ≡ (ok (scanned row), next w)
unfolding lock_wallet select_for_update calls
lock_wallet-ok e text id row w up read found = rw (up, read, found) refl

different_texts : (a b : String) → a ≢ b → not (a == b) ≡ true
different_texts a b h = ground (arith, h)

begins :
    (e : Engine) (req : CreateTransferRequest) (key : String) (w : World)
    → IsValid req
    → e.fault w.tick ≡ false
    → advance e req key idle w ≡ (begun, next w)
unfolding advance
begins e req key w valid up =
    let positive : ltb_ℤ (pos 0) req.amount ≡ true = ground (arith, valid.positive) in
    rw
      (different_texts req.source_wallet_id req.destination_wallet_id valid.different, positive, up)
      refl

module _ (e : Engine) (request : ℕ → CreateTransferRequest) (key : ℕ → String) (i : ℕ) where
  abbrev locks : String × String
  locks = lock_order (request i).source_wallet_id (request i).destination_wallet_id

  takes_first :
      (id : String) (row : Wallet) (w : World)
      → e.fault w.tick ≡ false
      → e.parse_uuid locks.0 ≡ some id
      → find_row (has_id id) w.tables.wallets ≡ some row
      → advance e (request i) (key i) begun w ≡ (one (scanned row), next w)
  unfolding advance
  takes_first id row w up read found = rw (lock_wallet-ok e locks.0 id row w up read found) refl

  takes_second :
      (first : Wallet) (id : String) (row : Wallet) (w : World)
      → e.fault w.tick ≡ false
      → e.parse_uuid locks.1 ≡ some id
      → find_row (has_id id) w.tables.wallets ≡ some row
      → advance e (request i) (key i) (one first) w ≡ (both first (scanned row), next w)
  unfolding advance
  takes_second first id row w up read found =
      rw (lock_wallet-ok e locks.1 id row w up read found) refl

module _ (e : Engine) (request : ℕ → CreateTransferRequest) (key : ℕ → String) (crypto : Crypto)
    (hmac : String → String → String) (secret : String) (w0 : World) where
  -- The sessions `i` and `k` stand there, and no other has been called.
  record At (i k : ℕ) (p q : Stage) (w : World) : Type 0 where
    s : System
    reach : Reach e request key crypto hmac secret 2 w0 s
    world : s.world ≡ w
    here : s.stage i ≡ p
    there : s.stage k ≡ q
    others : (j : ℕ) → j ≢ i → j ≢ k → s.stage j ≡ idle

  abbrev swap : {i k : ℕ} {p q : Stage} {w : World} → At i k p q w → At k i q p w
  swap a = record {
    s = a.s;
    reach = a.reach;
    world = a.world;
    here = a.there;
    there = a.here;
    others = λ j nk ni. a.others j ni nk;
  }

  -- The session `i` takes its turn.
  goes :
      {i k : ℕ} {p q : Stage} {w : World}
      → At i k p q w
      → i < 2
      → i ≢ k
      → (p' : Stage) (w' : World) → advance e (request i) (key i) p w ≡ (p', w')
      → ((id : String) → holds p' id ≡ true → holds q id ≡ false)
      → At i k p' q w'
  goes {i} {k} {p} {q} {w} a in_range ne p' w' step free = record {
    s = turn e request key i a.s;
    reach = later a.reach (session i in_range granted);
    world = ap (λ (x : Stage × World). x.1) moved;
    here = own;
    there = update_other a.s.stage i k new (λ same. ne (sym same)) ∙ a.there;
    others = λ j ni nk. update_other a.s.stage i j new ni ∙ a.others j ni nk;
  }
    where
      new : Stage
      new = (advance e (request i) (key i) (a.s.stage i) a.s.world).0

      moved : advance e (request i) (key i) (a.s.stage i) a.s.world ≡ (p', w')
      moved = rw (a.here, a.world) step

      own : (turn e request key i a.s).stage i ≡ p'
      own = update_self a.s.stage i new ∙ ap (λ (x : Stage × World). x.0) moved

      granted : IsGranted e request key a.s i
      granted j id nj h = elim (ℕ_discrete j k) [
        | yes same ↦
            subst (λ m. holds (a.s.stage m) id ≡ false) (sym same)
              (subst (λ x. holds x id ≡ false) (sym a.there)
                (free id (subst (λ x. holds x id ≡ true) own h)))
        | no other ↦ subst (λ x. holds x id ≡ false) (sym (a.others j nj other)) refl
      ]

  -- The session `i` asks for a row that `k` has.
  stuck :
      {i k : ℕ} {p q : Stage} {w : World}
      → (a : At i k p q w) → i ≢ k
      → (p' : Stage) (w' : World) (id : String) → advance e (request i) (key i) p w ≡ (p', w')
      → holds p' id ≡ true
      → holds q id ≡ true
      → ¬ IsGranted e request key a.s i
  stuck {i} {k} {p} {q} {w} a ne p' w' id step asked held granted = cc (
    granted k id (λ same. ne (sym same)) (subst (λ x. holds x id ≡ true) (sym own) asked),
    subst (λ x. holds x id ≡ true) (sym a.there) held,
  )
    where
      moved : advance e (request i) (key i) (a.s.stage i) a.s.world ≡ (p', w')
      moved = rw (a.here, a.world) step

      own : (turn e request key i a.s).stage i ≡ p'
      own =
          update_self a.s.stage i (advance e (request i) (key i) (a.s.stage i) a.s.world).0
          ∙ ap (λ (x : Stage × World). x.0) moved

row_named :
    (id : String) (t : Tables) (row : Wallet)
    → find_row (has_id id) t.wallets ≡ some row
    → (row.id == id) ≡ true
row_named id t row h = let own = row_key id t row h in ground arith

-- Two transfers of positive amounts between different ids, in texts whose order is not that of the rows
-- that they name, can deadlock. If the first of the two to be locked names the row `a` for one transfer
-- and the row `b` for the other, and the second the other row, then both transfers, called in a world
-- where both rows exist and a database that answers, can reach a state in which neither has ended and
-- each waits for the other.
pub Reach-Deadlock :
    (e : Engine) (request : ℕ → CreateTransferRequest) (key : ℕ → String) (crypto : Crypto)
    (hmac : String → String → String) (secret : String) (w : World) (a b : String)
    (row_a row_b : Wallet)
    → ((m : ℕ) → e.fault m ≡ false)
    → ((i : ℕ) → IsValid (request i))
    → a ≢ b
    → find_row (has_id a) w.tables.wallets ≡ some row_a
    → find_row (has_id b) w.tables.wallets ≡ some row_b
    → e.parse_uuid (lock_order (request 0).source_wallet_id (request 0).destination_wallet_id).0
      ≡ some a
    → e.parse_uuid (lock_order (request 0).source_wallet_id (request 0).destination_wallet_id).1
      ≡ some b
    → e.parse_uuid (lock_order (request 1).source_wallet_id (request 1).destination_wallet_id).0
      ≡ some b
    → e.parse_uuid (lock_order (request 1).source_wallet_id (request 1).destination_wallet_id).1
      ≡ some a
    → (s : System) × Reach e request key crypto hmac secret 2 w s
      × (is_ended (s.stage 0) ≡ false)
      × (is_ended (s.stage 1) ≡ false)
      × (¬ IsGranted e request key s 0)
      × (¬ IsGranted e request key s 1)
Reach-Deadlock e request key crypto hmac secret w a b row_a row_b up valid ne found_a found_b f0 s0
      f1 s1 =
    (
      at4.s,
      at4.reach,
      subst (λ p. is_ended p ≡ false) (sym at4.here) refl,
      subst (λ p. is_ended p ≡ false) (sym at4.there) refl,
      stuck e request key crypto hmac secret w at4 (omega arith) _ _ b
          (takes_second e request key 0 (scanned row_a) b row_b w4 (up w4.tick) s0 found_b)
          (ground (arith, row_named b w.tables row_b found_b)) (row_named b w.tables row_b found_b),
      stuck e request key crypto hmac secret w (swap e request key crypto hmac secret w at4)
          (omega arith) _ _ a
          (takes_second e request key 1 (scanned row_b) a row_a w4 (up w4.tick) s1 found_a)
          (ground (arith, row_named a w.tables row_a found_a)) (row_named a w.tables row_a found_a),
    )
  where
    w4 : World
    w4 = next (next (next (next w)))

    at0 : At e request key crypto hmac secret w 0 1 idle idle w
    at0 = record {
      s = record { world = w; stage = λ _. idle };
      reach = start;
      world = refl;
      here = refl;
      there = refl;
      others = λ j n0 n1. refl;
    }

    at1 : At e request key crypto hmac secret w 0 1 begun idle (next w)
    at1 =
        goes e request key crypto hmac secret w at0 (omega arith) (omega arith) begun (next w)
          (begins e (request 0) (key 0) w (valid 0) (up w.tick)) (λ id h. refl)

    at2 : At e request key crypto hmac secret w 1 0 begun begun (next (next w))
    at2 =
        goes e request key crypto hmac secret w (swap e request key crypto hmac secret w at1)
          (omega arith) (omega arith) begun (next (next w))
          (begins e (request 1) (key 1) (next w) (valid 1) (up (next w).tick)) (λ id h. refl)

    at3 :
        At e request key crypto hmac secret w 0 1 (one (scanned row_a)) begun (next (next (next w)))
    at3 =
        goes e request key crypto hmac secret w (swap e request key crypto hmac secret w at2)
          (omega arith) (omega arith) (one (scanned row_a)) (next (next (next w)))
          (takes_first e request key 0 a row_a (next (next w)) (up (next (next w)).tick) f0 found_a)
          (λ id h. refl)

    apart : (id : String) → (row_b.id == id) ≡ true → (row_a.id == id) ≡ false
    apart id h =
        let own_a = row_key a w.tables row_a found_a in
        let own_b = row_key b w.tables row_b found_b in ground (arith, ne)

    at4 : At e request key crypto hmac secret w 0 1 (one (scanned row_a)) (one (scanned row_b)) w4
    at4 = swap e request key crypto hmac secret w (
        goes e request key crypto hmac secret w (swap e request key crypto hmac secret w at3)
          (omega arith) (omega arith) (one (scanned row_b)) w4
          (takes_first e request key 1 b row_b (next (next (next w)))
            (up (next (next (next w))).tick) f1 found_b)
          apart)
