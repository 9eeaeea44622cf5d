-- ===== src/RateLimit.antt =====
-- internal/redis/client.go: `Allow`, with its script as a step of a counter; and the middleware of
-- internal/middleware/rate_limiter.go.
pub mod Window
use Prim.Native.String.{◌++◌ as join}
use go_wallet_ledger.Base.{
  ℕ, suc, ◌+◌, String, List, [], ◌∷◌, Option, none, some, Bool, true, false, ◌==◌, if◌then◌else◌,
  leb,
}
use go_wallet_ledger.Http.{Response, failure}

-- A counter of Redis, and the second at which it expires.
pub record Counter : Type 0 where
  pub value : ℕ
  pub expires : Option ℕ

abbrev pub is_live : ℕ → Option ℕ → Bool
is_live now none = true
is_live now (some t) = if leb t now then false else true

-- `GET`: an expired key is gone.
unfoldable pub get_counter : ℕ → Option Counter → Option Counter
get_counter now none = none
get_counter now (some c) = if is_live now c.expires then some c else none

-- `INCR`, and `EXPIRE` where the counter is now 1.
unfoldable pub incremented : ℕ → ℕ → Option Counter → Counter
incremented window now none = record { value = 1; expires = some (now + window) }
incremented window now (some c) = record {
  value = suc c.value;
  expires = if leb (suc c.value) 1 then some (now + window) else c.expires;
}

-- The script: 1 or 0, as a Boolean, and the counter after it.
abbrev pub decide : ℕ → ℕ → ℕ → Option Counter → Bool × Option Counter
decide limit window now none = (true, some (incremented window now none))
decide limit window now (some c) =
    if leb limit c.value then (false, some c) else (true, some (incremented window now (some c)))

unfoldable pub allow_script : ℕ → ℕ → ℕ → Option Counter → Bool × Option Counter
unfolding get_counter incremented
allow_script limit window now counter = decide limit window now (get_counter now counter)

-- The answers of `Allow`: nil, `ErrRateLimitExceeded`, or an error of Redis.
pub data Verdict : Type 0 where
  allowed exceeded failed : Verdict

abbrev pub verdict : Bool → Verdict
verdict true = Verdict.allowed
verdict false = Verdict.exceeded

-- A window of no second is one of one second.
abbrev pub window_seconds : ℕ → ℕ
window_seconds window = if leb window 0 then 1 else window

-- The keys of Redis, each with its counter.
abbrev pub Cache : Type 0
Cache = String → Option Counter

abbrev pub store_counter : String → Option Counter → Cache → Cache
store_counter key counter cache k = if k == key then counter else cache k

-- `Allow`, of whether the script's call fails.
unfoldable pub allow : Bool → ℕ → String → ℕ → ℕ → Cache → Verdict × Cache
unfolding allow_script
allow true now key limit window cache = (Verdict.failed, cache)
allow false now key limit window cache =
    let (pass, counter) = allow_script limit (window_seconds window) now (cache key) in
    (verdict pass, store_counter key counter cache)

-- The address that a request is counted under: two headers, then the connection's.
abbrev pub client_ip : String → String → String → String
client_ip real_ip forwarded_for remote_addr =
    if real_ip == "" then if forwarded_for == "" then remote_addr else forwarded_for else real_ip

abbrev pub limited {ℓ} : {S : Type ℓ} → (S → Response × S) → S → Verdict → Response × S
limited next s Verdict.allowed = next s
limited next s Verdict.exceeded = (failure 429 "Too Many Requests", s)
limited next s Verdict.failed = next s

-- `RateLimiter` around the handler `next`, which is let through when Redis fails.
unfoldable pub rate_limiter {ℓ} :
    {S : Type ℓ} → Bool → ℕ → String → ℕ → (S → Response × S) → Cache → S → (Response × S) × Cache
unfolding allow
rate_limiter fails now ip limit next cache s =
    let (answer, cache') = allow fails now (join "ratelimit:ip:" ip) limit 60 cache in
    (limited next s answer, cache')
