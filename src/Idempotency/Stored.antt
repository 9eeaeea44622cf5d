-- ===== src/Idempotency/Stored.antt =====
-- internal/idempotency/repository.go: what becomes of the row of a key.
use go_wallet_ledger.Base.{
  ℕ, String, ◌≡◌, refl, ◌∙◌, sym, some, some_eq, List, [], ◌∷◌, ◌++◌, false, ◌==◌, some_row,
  find_row, find_row-append, update_rows, arith, inl, inr, Bool-cases,
}
use go_wallet_ledger.Models.Errors.{Error}
use go_wallet_ledger.Models.Transfers.{CreateTransferRequest}
use go_wallet_ledger.Models.Idempotency.{KeyRecord, Status, ResponsePayload}
use go_wallet_ledger.Store.{World, Tables, Engine, calls}
use go_wallet_ledger.Http.{Response, error_body, stored_json, json}
use go_wallet_ledger.Idempotency.{has_key, claimed, complete, complete_with}
use go_wallet_ledger.Idempotency.Keys.{with_key}

-- The row `r` of a key stands for the answer: a conflict while it is under way, and the status code
-- and the payload that `Complete` stored once it is completed.
pub data Replays (r : KeyRecord) : Response → Type 0 where
  under_way :
      r.status ≡ Status.in_progress
      → Replays r (record { status = 409; body = error_body Error.key_in_progress })
  stored :
      {payload : ResponsePayload} {code : ℕ}
      → r.status ≡ Status.completed
      → r.response_payload ≡ some payload
      → r.response_status ≡ some code
      → Replays r (record { status = code; body = json (stored_json payload) })

-- The row of a key in the table.
abbrev pub RowOf : String → KeyRecord → Tables → Type 0
RowOf key r t = find_row (has_key key) t.idempotency_keys ≡ some r

-- Taking another key leaves it.
pub with_key-RowOf :
    (key other : String) (request : CreateTransferRequest) (r : KeyRecord) (t : Tables)
    → RowOf key r t
    → RowOf key r (with_key other request t)
with_key-RowOf key other request r t h =
    find_row-append (has_key key) t.idempotency_keys (claimed other request ∷ []) r h

find_row-new :
    (key : String) (request : CreateTransferRequest) (rows : List KeyRecord)
    → some_row (has_key key) rows ≡ false
    → find_row (has_key key) (rows ++ claimed key request ∷ []) ≡ some (claimed key request)
find_row-new key request [] h = ground arith
find_row-new key request (x ∷ rows) h = ground (arith, find_row-new key request rows)

-- Taking the key makes it.
pub with_key-claimed :
    (key : String) (request : CreateTransferRequest) (t : Tables)
    → some_row (has_key key) t.idempotency_keys ≡ false
    → RowOf key (claimed key request) (with_key key request t)
with_key-claimed key request t h = find_row-new key request t.idempotency_keys h

find_row-other :
    (key other : String) (payload : ResponsePayload) (code : ℕ) (rows : List KeyRecord)
    → (other == key) ≡ false
    → find_row (has_key key) (update_rows (has_key other) (complete_with payload code) rows)
      ≡ find_row (has_key key) rows
find_row-other key other payload code [] h = refl
find_row-other key other payload code (x ∷ rows) h =
    ground (arith, find_row-other key other payload code rows h)

-- `Complete` of another key leaves it.
pub complete-RowOf :
    (e : Engine) (key other : String) (payload : ResponsePayload) (code : ℕ) (r : KeyRecord)
    (w : World)
    → (other == key) ≡ false
    → RowOf key r w.tables
    → RowOf key r (complete e other payload code w).1.tables
unfolding complete calls
complete-RowOf e key other payload code r w h row =
    ground (arith, find_row-other key other payload code w.tables.idempotency_keys h)

find_row-completed :
    (key : String) (payload : ResponsePayload) (code : ℕ) (rows : List KeyRecord) (r : KeyRecord)
    → find_row (has_key key) rows ≡ some r
    → find_row (has_key key) (update_rows (has_key key) (complete_with payload code) rows)
      ≡ some (complete_with payload code r)
find_row-completed key payload code [] r h = ground arith
find_row-completed key payload code (x ∷ rows) r h =
    ground (arith, find_row-completed key payload code rows r)

-- If the row of a request under way is completed after `Complete`, it is with what was stored.
pub complete-Replays :
    (e : Engine) (key : String) (payload : ResponsePayload) (code : ℕ)
    (request : CreateTransferRequest) (r : KeyRecord) (w : World)
    → RowOf key (claimed key request) w.tables
    → RowOf key r (complete e key payload code w).1.tables
    → r.status ≡ Status.completed
    → Replays r (record { status = code; body = json (stored_json payload) })
unfolding complete calls
complete-Replays e key payload code request r w before after done =
    elim (Bool-cases (e.fault w.tick)) [
      | inl down ↦ absurd (ground arith)
      | inr up ↦
          let found : some (complete_with payload code (claimed key request)) ≡ some r =
            sym (
              find_row-completed key payload code w.tables.idempotency_keys (claimed key request)
                before)
            ∙ (rw up at after) in
          rw (← some_eq found) (Replays.stored refl refl refl)
    ]
