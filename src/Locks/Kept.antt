-- ===== src/Locks/Kept.antt =====
-- What holds in every state that concurrent transfers reach, and what a step keeps of it.
use go_wallet_ledger.Base.{
  ℕ, ◌≤◌, ◌<◌, String, ◌≡◌, ◌≢◌, refl, sym, ◌∙◌, subst, true, false, find_row, arith, inl, inr,
  Bool-cases, ℕ_discrete,
}
use go_wallet_ledger.Models.Wallets.{has_id}
use go_wallet_ledger.Models.Transfers.{CreateTransferRequest}
use go_wallet_ledger.Store.{Engine, World, Tables}
use go_wallet_ledger.Books.{IsFaithful}
use go_wallet_ledger.Auth.{Crypto}
use go_wallet_ledger.System.{perform}
use go_wallet_ledger.Locks.{
  Stage, idle, begun, one, both, ended, advance, holds, System, update, turn, IsGranted, Step,
  session, call, Reach, start, later,
}
use go_wallet_ledger.Locks.Freshness.{IsFresh, advance-IsFresh, advance-others, Locked-Untouched}

module _ {ℓ} {A : Type ℓ} where
  pub update_self : (f : ℕ → A) (i : ℕ) (a : A) → update f i a i ≡ a
  update_self f i a = elim (ℕ_discrete i i) as (λ d. (elim d [ yes _ ↦ a | no _ ↦ f i ]) ≡ a) [
    | yes _ ↦ refl
    | no differ ↦ absurd (differ refl)
  ]

  pub update_other : (f : ℕ → A) (i j : ℕ) (a : A) → j ≢ i → update f i a j ≡ f j
  update_other f i j a ne =
      elim (ℕ_discrete j i) as (λ d. (elim d [ yes _ ↦ a | no _ ↦ f j ]) ≡ f j) [
        | yes same ↦ absurd (ne same)
        | no _ ↦ refl
      ]

-- What a session has read stays true while nobody changes the rows that it has locked.
IsFresh-Untouched :
    (e : Engine) (req : CreateTransferRequest) (t t' : Tables) (stage : Stage)
    → ((id : String)
        → holds stage id ≡ true
        → find_row (has_id id) t'.wallets ≡ find_row (has_id id) t.wallets)
    → IsFresh e req t stage
    → IsFresh e req t' stage
IsFresh-Untouched e req t t' idle same h = tt
IsFresh-Untouched e req t t' begun same h = h
IsFresh-Untouched e req t t' (one first) same h =
    (h.0, Locked-Untouched e _ t t' first (same first.id (ground arith)) h.1)
IsFresh-Untouched e req t t' (both first second) same h = (
  h.0,
  Locked-Untouched e _ t t' first (same first.id (ground arith)) h.1,
  Locked-Untouched e _ t t' second (same second.id (ground arith)) h.2,
)
IsFresh-Untouched e req t t' (ended r) same h = tt

module _ (e : Engine) (request : ℕ → CreateTransferRequest) (key : ℕ → String) (crypto : Crypto)
    (hmac : String → String → String) (secret : String) (n : ℕ) where
  -- What each session has read is what the table has, no row is locked twice, and the others are not called.
  pub record Inv (s : System) : Type 0 where
    pub fresh : (j : ℕ) → IsFresh e (request j) s.world.tables (s.stage j)
    pub alone :
        (i j : ℕ) (id : String) → i ≢ j → holds (s.stage i) id ≡ true → holds (s.stage j) id ≡ false
    pub outside : (j : ℕ) → n ≤ j → s.stage j ≡ idle

  module _ (faithful : IsFaithful e) where
    module _ {s : System} (inv : Inv s) (i : ℕ) (granted : IsGranted e request key s i) where
      abbrev moved : Stage × World
      moved = advance e (request i) (key i) (s.stage i) s.world

      own : (turn e request key i s).stage i ≡ moved.0
      own = update_self s.stage i moved.0

      other : (j : ℕ) → j ≢ i → (turn e request key i s).stage j ≡ s.stage j
      other j ne = update_other s.stage i j moved.0 ne

      after : ℕ → Stage
      after = (turn e request key i s).stage

      own-IsFresh : IsFresh e (request i) moved.1.tables (after i)
      unfolding after
      own-IsFresh =
          subst (IsFresh e (request i) moved.1.tables) (sym own)
            (advance-IsFresh e (request i) (key i) (s.stage i) s.world (inv.fresh i))

      other-IsFresh : (j : ℕ) → j ≢ i → IsFresh e (request j) moved.1.tables (after j)
      unfolding after
      other-IsFresh j ne = subst (IsFresh e (request j) moved.1.tables) (sym (other j ne)) (
          IsFresh-Untouched e (request j) s.world.tables moved.1.tables (s.stage j)
            (λ id held.
              advance-others e faithful (request i) (key i) (s.stage i) s.world id (inv.fresh i)
                (inv.alone j i id ne held))
            (inv.fresh j))

      turn-IsFresh : (j : ℕ) → IsFresh e (request j) moved.1.tables (after j)
      turn-IsFresh j = elim (ℕ_discrete j i) [
        | yes same ↦
            subst (λ k. IsFresh e (request k) moved.1.tables (after k)) (sym same) own-IsFresh
        | no ne ↦ other-IsFresh j ne
      ]

      -- A row that the turn locks is locked by nobody else.
      own-alone :
          (j : ℕ) (id : String) → j ≢ i → holds (after i) id ≡ true → holds (after j) id ≡ false
      unfolding after
      own-alone j id ne h = rw (other j ne) (granted j id ne h)

      other-alone :
          (j : ℕ) (id : String) → j ≢ i → holds (after j) id ≡ true → holds (after i) id ≡ false
      other-alone j id ne h = elim (Bool-cases (holds (after i) id)) [
        | inl taken ↦ cc (own-alone j id ne taken)
        | inr free ↦ free
      ]

      turn-alone :
          (a b : ℕ) (id : String) → a ≢ b → holds (after a) id ≡ true → holds (after b) id ≡ false
      unfolding after
      turn-alone a b id ne h = elim (ℕ_discrete a i) [
        | yes first ↦
            subst (λ k. holds (after k) id ≡ true → holds (after b) id ≡ false) (sym first)
              (own-alone b id (λ last. ne (first ∙ sym last))) h
        | no na ↦ elim (ℕ_discrete b i) [
          | yes last ↦ subst (λ k. holds (after k) id ≡ false) (sym last) (other-alone a id na h)
          | no nb ↦ rw (other b nb) (inv.alone a b id ne (rw (other a na) at h))
        ]
      ]

      pub turn-Inv : i < n → Inv (turn e request key i s)
      unfolding after
      turn-Inv below = record {
        fresh = turn-IsFresh;
        alone = turn-alone;
        outside = λ j above. other j (λ same. absurd (omega arith)) ∙ inv.outside j above;
      }

    pub Step-Inv : {s t : System} → Step e request key crypto hmac secret n s t → Inv s → Inv t
    Step-Inv (session i below granted) inv = turn-Inv inv i granted below
    Step-Inv {s} (call c untouched) inv = record {
      fresh = λ j.
          IsFresh-Untouched e (request j) s.world.tables
            (perform e crypto hmac secret c s.world).tables (s.stage j)
            (λ id held. untouched j id held) (inv.fresh j);
      alone = inv.alone;
      outside = inv.outside;
    }

    pub Reach-Inv : {w : World} {s : System} → Reach e request key crypto hmac secret n w s → Inv s
    Reach-Inv start = record {
      fresh = λ j. tt;
      alone = λ i j id ne h. cc;
      outside = λ j above. refl;
    }
    Reach-Inv (later r step) = Step-Inv step (Reach-Inv r)
