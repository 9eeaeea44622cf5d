-- ===== src/Idempotency.antt =====
-- internal/idempotency/repository.go: the keys of the requests, as rows of `idempotency_keys`.
pub mod Keys
pub mod Stored
use go_wallet_ledger.Base.{
  ℕ, String, List, [], ◌∷◌, ◌++◌, Option, none, some, Bool, not, ◌==◌, leb, chars, some_row,
  find_row, update_rows,
}
use go_wallet_ledger.Models.Errors.{Error}
use go_wallet_ledger.Models.Transfers.{CreateTransferRequest}
use go_wallet_ledger.Models.Idempotency.{KeyRecord, Status, ResponsePayload}
use go_wallet_ledger.Store.{
  Engine, Tables, World, Result, ok, err, Action, ◌>>=◌, ◌>>◌, pure, raise, gets, or_raise, write,
  statement,
}

abbrev pub has_key : String → KeyRecord → Bool
has_key key r = r.key == key

-- The row of a request that is under way.
abbrev pub claimed : String → CreateTransferRequest → KeyRecord
claimed key request = record {
  key = key;
  status = Status.in_progress;
  request_payload = request;
  response_payload = none;
  response_status = none;
}

abbrev pub key_constraints : String → Tables → List (Bool × Error)
key_constraints key t =
    (leb (chars key) 255, Error.value_too_long)
    ∷ (not (some_row (has_key key) t.idempotency_keys), Error.unique_violation)
    ∷ []

-- `INSERT INTO idempotency_keys …`
unfoldable pub insert_key : Engine → String → CreateTransferRequest → Action (Unit {0})
insert_key e key request = statement e λ n. do
  write (key_constraints key)
      (λ t. record t { idempotency_keys = t.idempotency_keys ++ claimed key request ∷ [] })
  pure tt

-- `SELECT … FROM idempotency_keys WHERE key = $1`
unfoldable pub select_key : Engine → String → Action KeyRecord
select_key e key =
    statement e λ n. do
      row ← gets (λ t. find_row (has_key key) t.idempotency_keys)
      or_raise row Error.no_rows

-- A record under way is an error, a completed one is the stored response.
unfoldable pub finished : KeyRecord → Action (Option KeyRecord)
finished row = elim row.status [
  | Status.in_progress ↦ raise Error.key_in_progress
  | Status.completed ↦ pure (some row)
]

-- Whatever made the INSERT fail, the row is looked up.
abbrev pub acquired :
    Engine → String → Result (Unit {0}) × World → Result (Option KeyRecord) × World
acquired e key (ok _, w) = (ok none, w)
acquired e key (err _, w) = (select_key e key >>= finished) w

-- `TryAcquire`: `none` gives the key to the caller.
unfoldable pub try_acquire : Engine → String → CreateTransferRequest → Action (Option KeyRecord)
unfolding insert_key select_key finished
try_acquire e key request w = acquired e key (insert_key e key request w)

abbrev pub complete_with : ResponsePayload → ℕ → KeyRecord → KeyRecord
complete_with response status_code r = record r {
  status = Status.completed;
  response_payload = some response;
  response_status = some status_code;
}

-- `Complete`
unfoldable pub complete : Engine → String → ResponsePayload → ℕ → Action (Unit {0})
complete e key response status_code = statement e λ n. do
  write (λ _. [])
      (λ t. record t {
        idempotency_keys =
            update_rows (has_key key) (complete_with response status_code) t.idempotency_keys;
      })
  pure tt
