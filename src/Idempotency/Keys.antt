-- ===== src/Idempotency/Keys.antt =====
-- internal/idempotency/repository.go: `TryAcquire` of a new key and of one that is in the table.
use go_wallet_ledger.Base.{
  ◌++◌, ℕ, update_rows, ◌≢◌, String, ◌≡◌, refl, some, none, List, [], ◌∷◌, Option, Bool, true, leb,
  chars, some_row, find_row, if◌then◌else◌, Bool-cases, inl, inr, ◌⊎◌, arith, Option-cases,
}
use go_wallet_ledger.Models.Errors.{Error}
use go_wallet_ledger.Models.Transfers.{CreateTransferRequest}
use go_wallet_ledger.Models.Idempotency.{KeyRecord, Status, ResponsePayload}
use go_wallet_ledger.Store.{World, Tables, Engine, Result, ok, err, calls, next, violation, ◌>>=◌}
use go_wallet_ledger.Idempotency.{
  has_key, try_acquire, insert_key, select_key, finished, key_constraints, claimed, complete,
  complete_with,
}

pub some_row-find_row :
    (p : KeyRecord → Bool) (rows : List KeyRecord) (r : KeyRecord)
    → find_row p rows ≡ some r
    → some_row p rows ≡ true
some_row-find_row p [] r h = ground arith
some_row-find_row p (x ∷ xs) r h = ground (arith, some_row-find_row p xs r)

-- The error with which an INSERT of a key that is in the table fails.
abbrev insert_failure : Engine → String → World → Error
insert_failure e key w =
    if e.fault w.tick
    then Error.unavailable
    else if leb (chars key) 255
    then Error.unique_violation
    else Error.value_too_long

insert_key-refused :
    (e : Engine) (key : String) (request : CreateTransferRequest) (w : World)
    → some_row (has_key key) w.tables.idempotency_keys ≡ true
    → insert_key e key request w ≡ (err (insert_failure e key w), next w)
unfolding insert_key calls
insert_key-refused e key request w taken = ground arith

-- The answer to a key whose row is `r`, when its SELECT is answered.
abbrev pub stored_answer : KeyRecord → Result (Option KeyRecord)
stored_answer r = elim r.status [
  | Status.in_progress ↦ err Error.key_in_progress
  | Status.completed ↦ ok (some r)
]

finished_lem : (r : KeyRecord) (w : World) → finished r w ≡ (stored_answer r, w)
unfolding finished calls
finished_lem r w = ground arith

-- For a key whose row is `r`, whatever request it comes with: the row is answered when it is
-- completed, a conflict is reported when it is under way, and nothing changes but the count of calls.
pub try_acquire-taken :
    (e : Engine) (key : String) (request : CreateTransferRequest) (w : World) (r : KeyRecord)
    → find_row (has_key key) w.tables.idempotency_keys ≡ some r
    → try_acquire e key request w
      ≡ (if e.fault (next w).tick then err Error.unavailable else stored_answer r, next (next w))
unfolding try_acquire select_key calls
try_acquire-taken e key request w r found =
    rw
      (
        insert_key-refused e key request w
            (some_row-find_row (has_key key) w.tables.idempotency_keys r found),
        found,
      )
      (ground (arith, finished_lem r (next (next w))))

-- The key is in the table.
abbrev pub Held : String → Tables → Type 0
Held key t = some_row (has_key key) t.idempotency_keys ≡ true

Held-last :
    (key : String) (request : CreateTransferRequest) (rows : List KeyRecord)
    → some_row (has_key key) (rows ++ claimed key request ∷ []) ≡ true
Held-last key request [] = ground arith
Held-last key request (r ∷ rows) = ground (arith, Held-last key request rows)

abbrev pub with_key : String → CreateTransferRequest → Tables → Tables
with_key key request t = record t {
  idempotency_keys = t.idempotency_keys ++ claimed key request ∷ [];
}

insert_key-cases :
    (e : Engine) (key : String) (request : CreateTransferRequest) (w : World)
    → (insert_key e key request w
        ≡ (ok tt, record (next w) { tables = with_key key request w.tables }))
      ⊎ ((x : Error) × (insert_key e key request w ≡ (err x, next w)))
unfolding insert_key calls
insert_key-cases e key request w = elim (Bool-cases (e.fault w.tick)) [
  | inl down ↦ inr (Error.unavailable, rw down refl)
  | inr up ↦ elim (Option-cases (violation (key_constraints key w.tables))) [
    | inl holds ↦ inl (rw (up, holds) refl)
    | inr (x, fails) ↦ inr (x, rw (up, fails) refl)
  ]
]

-- What the SELECT answers.
abbrev lookup : String → Tables → Result (Option KeyRecord)
lookup key t = elim (find_row (has_key key) t.idempotency_keys) [
  | none ↦ err Error.no_rows
  | some r ↦ stored_answer r
]

select-lookup :
    (e : Engine) (key : String) (w : World)
    → (select_key e key >>= finished) w
      ≡ (if e.fault w.tick then err Error.unavailable else lookup key w.tables, next w)
unfolding select_key calls
select-lookup e key w = elim (Option-cases (find_row (has_key key) w.tables.idempotency_keys)) [
  | inl gone ↦ rw gone (ground arith)
  | inr (r, here) ↦ rw here (ground (arith, finished_lem r (next w)))
]

pub stored_answer-some : (r : KeyRecord) → stored_answer r ≢ ok none
stored_answer-some r h = ground arith

lookup-some :
    (e : Engine) (key : String) (w : World)
    → (if e.fault w.tick then err Error.unavailable else lookup key w.tables) ≢ ok none
lookup-some e key w h = elim (Option-cases (find_row (has_key key) w.tables.idempotency_keys)) [
  | inl gone ↦ ground arith
  | inr (r, here) ↦ ground (arith, stored_answer-some r)
]

-- The key is given to the caller and put into the table, or it is not given and no table changes.
pub data Acquired (key : String) (request : CreateTransferRequest) (t : Tables)
    (r : Result (Option KeyRecord) × World) : Type 0 where
  granted : r.0 ≡ ok none → r.1.tables ≡ with_key key request t → Acquired key request t r
  withheld : r.0 ≢ ok none → r.1.tables ≡ t → Acquired key request t r

pub try_acquire-Acquired :
    (e : Engine) (key : String) (request : CreateTransferRequest) (w : World)
    → Acquired key request w.tables (try_acquire e key request w)
unfolding try_acquire
try_acquire-Acquired e key request w = elim (insert_key-cases e key request w) [
  | inl inserted ↦ rw inserted (Acquired.granted refl refl)
  | inr (x, failed) ↦
      rw (failed, select-lookup e key (next w))
        (Acquired.withheld (lookup-some e key (next w)) refl)
]

pub granted-Held :
    (key : String) (request : CreateTransferRequest) (t t' : Tables)
    → t' ≡ with_key key request t
    → Held key t'
granted-Held key request t t' h = rw h (Held-last key request t.idempotency_keys)

Held-append :
    (key : String) (rows rest : List KeyRecord)
    → some_row (has_key key) rows ≡ true
    → some_row (has_key key) (rows ++ rest) ≡ true
Held-append key [] rest h = ground arith
Held-append key (r ∷ rows) rest h = ground (arith, Held-append key rows rest)

-- A key stays in the table when another is taken.
pub with_key-Held :
    (key other : String) (request : CreateTransferRequest) (t : Tables)
    → Held key t
    → Held key (with_key other request t)
with_key-Held key other request t h =
    Held-append key t.idempotency_keys (claimed other request ∷ []) h

-- An UPDATE that leaves the keys.
update_rows-key :
    (key : String) (p : KeyRecord → Bool) (f : KeyRecord → KeyRecord) (rows : List KeyRecord)
    → ((r : KeyRecord) → (f r).key ≡ r.key)
    → some_row (has_key key) (update_rows p f rows) ≡ some_row (has_key key) rows
update_rows-key key p f [] same = refl
update_rows-key key p f (r ∷ rows) same = ground (arith, same r, update_rows-key key p f rows same)

pub complete-Held :
    (e : Engine) (key other : String) (response : ResponsePayload) (status_code : ℕ) (w : World)
    → Held key w.tables
    → Held key (complete e other response status_code w).1.tables
unfolding complete calls
complete-Held e key other response status_code w h = ground (
  arith,
  update_rows-key key (has_key other) (complete_with response status_code) w.tables.idempotency_keys
      (λ r. refl),
)

-- `Complete` touches its own table alone.
pub complete-books :
    (e : Engine) (key : String) (response : ResponsePayload) (status_code : ℕ) (w : World)
    → let t' = (complete e key response status_code w).1.tables in
      (t'.wallets ≡ w.tables.wallets)
      × (t'.accounts ≡ w.tables.accounts)
      × (t'.ledger_entries ≡ w.tables.ledger_entries)
unfolding complete calls
complete-books e key response status_code w = (ground arith, ground arith, ground arith)

pub complete-payments :
    (e : Engine) (key : String) (response : ResponsePayload) (status_code : ℕ) (w : World)
    → (complete e key response status_code w).1.tables.payments ≡ w.tables.payments
unfolding complete calls
complete-payments e key response status_code w = ground arith
