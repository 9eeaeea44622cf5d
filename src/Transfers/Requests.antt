-- ===== src/Transfers/Requests.antt =====
-- internal/transfers/handler.go: `HandleTransfer` as a whole, its tables and its key.
use go_wallet_ledger.Base.{
  ℕ, String, ◌≡◌, refl, ◌∙◌, some, none, Option, ◌==◌, arith, ◌⊎◌, inl, inr, Bool-cases,
}
use go_wallet_ledger.Models.Auth.{JwtClaims}
use go_wallet_ledger.Models.Transfers.{CreateTransferRequest, Transfer}
use go_wallet_ledger.Models.Idempotency.{KeyRecord, ResponsePayload}
use go_wallet_ledger.Models.Wallets.{Wallet}
use go_wallet_ledger.Store.{World, Tables, Engine, Result, ok, err, next, calls}
use go_wallet_ledger.Books.{IsFaithful, IsSound}
use go_wallet_ledger.Books.Steps.{same-IsSound}
use go_wallet_ledger.Idempotency.{try_acquire, complete}
use go_wallet_ledger.Idempotency.Keys.{
  Held, Acquired, with_key, try_acquire-Acquired, granted-Held, complete-Held, complete-books,
  complete-payments,
}
use go_wallet_ledger.Wallets.{get_wallet_by_id}
use go_wallet_ledger.Transfers.{execute_transfer}
use go_wallet_ledger.Transfers.Effects.{Contract, execute_transfer-Contract}
use go_wallet_ledger.Transfers.Soundness.{execute_transfer-IsSound}
use go_wallet_ledger.Transfers.Settlement.{Settled}
use go_wallet_ledger.Transfers.Handler.{
  handle_transfer, proceed, spend, forbid, report, may_spend, store_response,
}

pub get_wallet_by_id-next :
    (e : Engine) (id : String) (w : World) → (get_wallet_by_id e id w).1 ≡ next w
unfolding get_wallet_by_id calls
get_wallet_by_id-next e id w = ground arith

-- The tables that a transfer leaves.
abbrev pub SameOthers : Tables → Tables → Type 0
SameOthers t t' = (t'.idempotency_keys ≡ t.idempotency_keys) × (t'.payments ≡ t.payments)

pub Settled-SameOthers :
    (e : Engine) (req : CreateTransferRequest) (key : String) (s d : Wallet) (t t' : Tables)
    → Settled e req key s d t t'
    → SameOthers t t'
Settled-SameOthers e req key s d t t' x =
    rw
      (
        (x.announced).1,
        (x.recorded).tables,
        (x.logged).tables,
        (x.credited).tables,
        (x.debited).tables,
      )
      (refl, refl)

-- A transfer leaves the keys and the payments.
pub execute_transfer-SameOthers :
    (e : Engine) (req : CreateTransferRequest) (key : String) (w : World)
    → SameOthers w.tables (execute_transfer e req key w).1.tables
execute_transfer-SameOthers e req key w =
    go (execute_transfer e req key w) (execute_transfer-Contract e req key w)
  where
    go :
        (r : Result Transfer × World)
        → Contract e req key w.tables r
        → SameOthers w.tables r.1.tables
    go r (Contract.refused _ _ same) = rw same (refl, refl)
    go r (Contract.executed _ _ _ x _) =
        Settled-SameOthers e req key _ _ w.tables r.1.tables x.settled

-- An invariant of the tables that the calls of the handler keep.
pub record Kept (e : Engine) (key : String) (I : Tables → Type 0) : Type 0 where
  pub taken : (req : CreateTransferRequest) (t : Tables) → I t → I (with_key key req t)
  pub stored :
      (response : ResponsePayload) (status : ℕ) (w : World)
      → I w.tables
      → I (complete e key response status w).1.tables
  pub executed :
      (req : CreateTransferRequest) (w : World)
      → I w.tables
      → I (execute_transfer e req key w).1.tables

module _ (e : Engine) (claims : JwtClaims) (key : String) (req : CreateTransferRequest)
    (I : Tables → Type 0) (kept : Kept e key I) where
  forbid-keeps : (w : World) → I w.tables → I (forbid e key w).1.tables
  unfolding store_response
  forbid-keeps w h = kept.stored ResponsePayload.forbidden_document 403 w h

  report-keeps : (r : Result Transfer × World) → I r.1.tables → I (report e key r).1.tables
  unfolding store_response
  report-keeps (ok transfer, w) h = kept.stored (ResponsePayload.transfer_document transfer) 201 w h
  report-keeps (err x, w) h = kept.stored (ResponsePayload.error_document x) 400 w h

  spend-keeps : (r : Result Wallet × World) → I r.1.tables → I (spend e claims key req r).1.tables
  spend-keeps (err x, w) h = forbid-keeps w h
  spend-keeps (ok wallet, w) h = elim (Bool-cases (may_spend wallet claims)) [
    | inl may ↦ rw may (report-keeps (execute_transfer e req key w) (kept.executed req w h))
    | inr may_not ↦ rw may_not (forbid-keeps w h)
  ]

  looked-keeps :
      (w : World)
      → I w.tables
      → I (spend e claims key req (get_wallet_by_id e req.source_wallet_id w)).1.tables
  looked-keeps w h =
      spend-keeps (get_wallet_by_id e req.source_wallet_id w)
        (rw (get_wallet_by_id-next e req.source_wallet_id w) h)

-- From the answer of `TryAcquire` on: nothing changes, or the key is held.
proceed-Held :
    (e : Engine) (claims : JwtClaims) (key : String) (req : CreateTransferRequest) (t : Tables)
    (r : Result (Option KeyRecord) × World)
    → Acquired key req t r
    → ((proceed e claims key req r).1.tables ≡ t) ⊎ Held key (proceed e claims key req r).1.tables
proceed-Held e claims key req t (err x, w) (Acquired.granted h _) = absurd (ground arith)
proceed-Held e claims key req t (err x, w) (Acquired.withheld _ same) = inl same
proceed-Held e claims key req t (ok (some row), w) (Acquired.granted h _) = absurd (ground arith)
proceed-Held e claims key req t (ok (some row), w) (Acquired.withheld _ same) = inl same
proceed-Held e claims key req t (ok none, w) (Acquired.withheld h _) = absurd (h refl)
proceed-Held e claims key req t (ok none, w) (Acquired.granted _ taken) = inr (
    looked-keeps e claims key req (Held key)
      (record {
        taken = λ request u h. granted-Held key request u (with_key key request u) refl;
        stored = complete-Held e key key;
        executed = λ request v h. rw ((execute_transfer-SameOthers e request key v).0) h;
      })
      w (granted-Held key req t w.tables taken))

pub handle_transfer-Held :
    (e : Engine) (caller : Option JwtClaims) (key : String) (body : Option CreateTransferRequest)
    (w : World)
    → ((handle_transfer e caller key body w).1.tables ≡ w.tables)
      ⊎ Held key (handle_transfer e caller key body w).1.tables
unfolding handle_transfer
handle_transfer-Held e none key body w = inl refl
handle_transfer-Held e (some claims) key none w = inl (ground arith)
handle_transfer-Held e (some claims) key (some req) w = elim (Bool-cases (key == "")) [
  | inl empty ↦ rw empty (inl refl)
  | inr named ↦ rw named (
      proceed-Held e claims key req w.tables (try_acquire e key req w)
        (try_acquire-Acquired e key req w))
]

module _ (e : Engine) (key : String) (I : Tables → Type 0) (kept : Kept e key I) where
  proceed-keeps :
      (claims : JwtClaims) (req : CreateTransferRequest) (t : Tables)
      (r : Result (Option KeyRecord) × World)
      → I t
      → Acquired key req t r
      → I (proceed e claims key req r).1.tables
  proceed-keeps claims req t (err x, w) h (Acquired.granted got _) = absurd (ground arith)
  proceed-keeps claims req t (err x, w) h (Acquired.withheld _ same) = rw same h
  proceed-keeps claims req t (ok (some row), w) h (Acquired.granted got _) = absurd (ground arith)
  proceed-keeps claims req t (ok (some row), w) h (Acquired.withheld _ same) = rw same h
  proceed-keeps claims req t (ok none, w) h (Acquired.withheld lost _) = absurd (lost refl)
  proceed-keeps claims req t (ok none, w) h (Acquired.granted _ taken) =
      looked-keeps e claims key req I kept w (rw taken (kept.taken req t h))

  -- The handler keeps what its calls keep.
  pub handle_transfer-keeps :
      (caller : Option JwtClaims) (body : Option CreateTransferRequest) (w : World)
      → I w.tables
      → I (handle_transfer e caller key body w).1.tables
  unfolding handle_transfer
  handle_transfer-keeps none body w h = h
  handle_transfer-keeps (some claims) none w h = ground arith
  handle_transfer-keeps (some claims) (some req) w h = elim (Bool-cases (key == "")) [
    | inl empty ↦ rw empty h
    | inr named ↦ rw named (
        proceed-keeps claims req w.tables (try_acquire e key req w) h
          (try_acquire-Acquired e key req w))
  ]

-- A request to the transfer endpoint leaves the payments.
pub handle_transfer-payments :
    (e : Engine) (caller : Option JwtClaims) (key : String) (body : Option CreateTransferRequest)
    (w : World)
    → (handle_transfer e caller key body w).1.tables.payments ≡ w.tables.payments
handle_transfer-payments e caller key body w =
    handle_transfer-keeps e key (λ (t : Tables). t.payments ≡ w.tables.payments)
      (record {
        taken = λ request t h. h;
        stored = λ response status v h. complete-payments e key response status v ∙ h;
        executed = λ request v h. (execute_transfer-SameOthers e request key v).1 ∙ h;
      })
      caller body w refl

-- A request to the transfer endpoint, whatever it is and on every path, leaves the wallets in
-- agreement with the ledger.
pub handle_transfer-IsSound :
    (e : Engine) (caller : Option JwtClaims) (key : String) (body : Option CreateTransferRequest)
    (w : World)
    → IsFaithful e
    → IsSound e w.tables
    → IsSound e (handle_transfer e caller key body w).1.tables
handle_transfer-IsSound e caller key body w faithful sound =
    handle_transfer-keeps e key (IsSound e)
      (record {
        taken = λ request t h. same-IsSound e t (with_key key request t) h (refl, refl, refl);
        stored = λ response status v h.
            same-IsSound e v.tables (complete e key response status v).1.tables h
              (complete-books e key response status v);
        executed = λ request v h. execute_transfer-IsSound e request key v faithful h;
      })
      caller body w sound
