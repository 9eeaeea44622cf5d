-- ===== src/Books/Relabel.antt =====
-- An UPDATE of wallet rows that leaves ids, accounts and balances.
use go_wallet_ledger.Base.{
  ◌≡◌, refl, List, [], ◌∷◌, Bool, All, All-update_rows, update_rows, arith, if◌then◌else◌,
  Bool-cases, inl, inr,
}
use go_wallet_ledger.Models.Ledger.{Entry}
use go_wallet_ledger.Models.Wallets.{Account, Wallet}
use go_wallet_ledger.Store.{Engine, Tables}
use go_wallet_ledger.Books.{IsSound, Distinct, Apart, Backed, Named, Funded}

-- The columns that the books read.
abbrev pub SameBooks : Wallet → Wallet → Type 0
SameBooks w v =
    (v.id ≡ w.id)
    × (v.account_id ≡ w.account_id)
    × (v.available_balance ≡ w.available_balance)
    × (v.locked_balance ≡ w.locked_balance)

module _ (p : Wallet → Bool) (f : Wallet → Wallet) (same : (w : Wallet) → SameBooks w (f w)) where
  abbrev relabel : Wallet → Wallet
  relabel w = if p w then f w else w

  relabel-SameBooks : (w : Wallet) → SameBooks w (relabel w)
  relabel-SameBooks w = elim (Bool-cases (p w)) [
    | inl hit ↦ rw hit (same w)
    | inr miss ↦ rw miss (refl, refl, refl, refl)
  ]

  Apart-same : (x y v z : Wallet) → SameBooks x y → SameBooks v z → Apart x v → Apart y z
  Apart-same x y v z s r a = ground arith

  relabel-Apart :
      (x y : Wallet) (ws : List Wallet)
      → SameBooks x y
      → All (Apart x) ws
      → All (Apart y) (update_rows p f ws)
  relabel-Apart x y ws s h =
      All-update_rows (Apart x) (Apart y) p f
        (λ v a. Apart-same x y v (relabel v) s (relabel-SameBooks v) a) ws h

  relabel-Distinct : (ws : List Wallet) → Distinct ws → Distinct (update_rows p f ws)
  relabel-Distinct [] d = tt
  relabel-Distinct (x ∷ xs) d =
      (relabel-Apart x (relabel x) xs (relabel-SameBooks x) d.0, relabel-Distinct xs d.1)

  Backed-same :
      (entries : List Entry) (w v : Wallet) → SameBooks w v → Backed entries w → Backed entries v
  Backed-same entries w v s h = rw (s.1, s.2, s.3) h

  Named-same : (e : Engine) (w v : Wallet) → SameBooks w v → Named e w → Named e v
  Named-same e w v s h = rw s.0 h

  Funded-same :
      (accounts : List Account) (w v : Wallet)
      → SameBooks w v
      → Funded accounts w
      → Funded accounts v
  Funded-same accounts w v s h = record {
    available = rw s.2 h.available;
    locked = rw s.3 h.locked;
    known = rw s.1 h.known;
    private = rw s.1 h.private;
  }

  pub relabel-IsSound :
      (e : Engine) (t t' : Tables)
      → IsSound e t
      → (t'.wallets ≡ update_rows p f t.wallets)
        × (t'.accounts ≡ t.accounts)
        × (t'.ledger_entries ≡ t.ledger_entries)
      → IsSound e t'
  relabel-IsSound e t t' sound (w, a, l) = record {
    distinct = rw w (relabel-Distinct t.wallets sound.distinct);
    backed =
        rw (w, l)
          (All-update_rows (Backed t.ledger_entries) (Backed t.ledger_entries) p f
            (λ v h. Backed-same t.ledger_entries v (relabel v) (relabel-SameBooks v) h) t.wallets
            sound.backed);
    named = rw w (
        All-update_rows (Named e) (Named e) p f
          (λ v h. Named-same e v (relabel v) (relabel-SameBooks v) h) t.wallets sound.named);
    funded =
        rw (w, a)
          (All-update_rows (Funded t.accounts) (Funded t.accounts) p f
            (λ v h. Funded-same t.accounts v (relabel v) (relabel-SameBooks v) h) t.wallets
            sound.funded);
    canonical = rw a sound.canonical;
    posted = rw (l, a) sound.posted;
    balanced = rw l sound.balanced;
  }
