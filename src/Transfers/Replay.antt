-- ===== src/Transfers/Replay.antt =====
-- internal/transfers/handler.go: `HandleTransfer` under repetition.
use go_wallet_ledger.Base.{
  String, ◌≡◌, refl, ap, some, none, Option, List, [], ◌∷◌, true, false, ◌==◌, some_row, find_row,
  if◌then◌else◌, arith, inl, inr, Bool-cases,
}
use go_wallet_ledger.Models.Errors.{Error}
use go_wallet_ledger.Models.Auth.{JwtClaims}
use go_wallet_ledger.Models.Transfers.{CreateTransferRequest}
use go_wallet_ledger.Models.Idempotency.{KeyRecord, Status}
use go_wallet_ledger.Store.{World, Engine, next}
use go_wallet_ledger.Http.{Response, failure}
use go_wallet_ledger.Idempotency.{has_key}
use go_wallet_ledger.Idempotency.Keys.{try_acquire-taken, Held}
use go_wallet_ledger.Idempotency.Stored.{Replays, RowOf}
use go_wallet_ledger.Transfers.Handler.{handle_transfer, acquire_failure, cached}

-- The answer to a request whose key has the row `r`.
abbrev pub replayed : KeyRecord → Response
replayed r = elim r.status [
  | Status.in_progress ↦ acquire_failure Error.key_in_progress
  | Status.completed ↦ cached r
]

-- The handler's answer to a key that has a row, in the handler's own words.
pub handle_transfer-row :
    (e : Engine) (claims : JwtClaims) (key : String) (req : CreateTransferRequest) (w : World)
    (r : KeyRecord)
    → (key == "") ≡ false
    → find_row (has_key key) w.tables.idempotency_keys ≡ some r
    → handle_transfer e (some claims) key (some req) w ≡ (
      if e.fault (next w).tick then failure 500 "internal server error" else replayed r,
      next (next w),
    )
unfolding handle_transfer
handle_transfer-row e claims key req w r named found =
    rw (named, try_acquire-taken e key req w r found) (ground arith)

pub replayed-Replays :
    (r : KeyRecord) (response : Response) → Replays r response → replayed r ≡ response
replayed-Replays r response (Replays.under_way still) = rw still refl
replayed-Replays r response (Replays.stored done payload code) = rw (done, payload, code) refl

-- A request whose key has a row is answered from it.
pub handle_transfer-replayed :
    (e : Engine) (claims : JwtClaims) (key : String) (req : CreateTransferRequest) (w : World)
    (r : KeyRecord) (response : Response)
    → (key == "") ≡ false
    → RowOf key r w.tables
    → Replays r response
    → handle_transfer e (some claims) key (some req) w ≡ (
      if e.fault (next w).tick then failure 500 "internal server error" else response,
      next (next w),
    )
handle_transfer-replayed e claims key req w r response named found stands =
    rw (← replayed-Replays r response stands) (handle_transfer-row e claims key req w r named found)

pub held_row :
    (key : String) (rows : List KeyRecord)
    → some_row (has_key key) rows ≡ true
    → (r : KeyRecord) × (find_row (has_key key) rows ≡ some r)
held_row key [] h = ground arith
held_row key (x ∷ xs) h = elim (Bool-cases (has_key key x)) [
  | inl hit ↦ (x, rw hit refl)
  | inr miss ↦ let (r, found) = held_row key xs (ground arith) in (r, rw miss found)
]

-- A request whose key is in the table changes no table.
pub handle_transfer-unchanged :
    (e : Engine) (caller : Option JwtClaims) (key : String) (body : Option CreateTransferRequest)
    (w : World)
    → Held key w.tables
    → (handle_transfer e caller key body w).1.tables ≡ w.tables
unfolding handle_transfer
handle_transfer-unchanged e none key body w held = refl
handle_transfer-unchanged e (some claims) key none w held = ground arith
handle_transfer-unchanged e (some claims) key (some req) w held = elim (Bool-cases (key == "")) [
  | inl empty ↦ rw empty refl
  | inr named ↦
      let (r, found) = held_row key w.tables.idempotency_keys held in
      ap (λ (x : Response × World). x.1.tables)
        (handle_transfer-row e claims key req w r named found)
]
