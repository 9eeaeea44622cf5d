-- ===== src/Server/Combinators.antt =====
-- internal/server/server.go: what holds of every handler of a router holds of the router, and of the
-- server around it.
use go_wallet_ledger.Base.{
  ℕ, String, ◌≡◌, ◌==◌, refl, arith, inl, inr, Bool-cases, Option, none, some, Bool, true, false,
  if◌then◌else◌,
}
use go_wallet_ledger.Store.{Engine, World}
use go_wallet_ledger.Http.{Response}
use go_wallet_ledger.RateLimit.{Verdict, limited, rate_limiter}
use go_wallet_ledger.Server.{
  Method, Request, Wiring, Process, Handler, on_get, on_post, by_method, route, metrics_middleware,
  limited_route, routed, after_cors, serve, not_found, not_allowed,
}

-- `P` relates the worlds before and after; it holds of a handler that leaves the world as it is.
module _ (P : World → World → Type 0) (still : (w : World) → P w w) where
  abbrev pub Meets : Handler → Type 0
  Meets h = (w : World) → P w (h w).1

  pub missing-Meets : Meets not_found
  missing-Meets w = still w

  no_method : Meets not_allowed
  no_method w = still w

  pub on_get-Meets : (m : Method) (h : Handler) → (m ≡ Method.get → Meets h) → Meets (on_get m h)
  on_get-Meets Method.get h meets = meets refl
  on_get-Meets Method.post h meets = no_method
  on_get-Meets Method.other h meets = no_method

  pub on_post-Meets : (m : Method) (h : Handler) → (m ≡ Method.post → Meets h) → Meets (on_post m h)
  on_post-Meets Method.post h meets = meets refl
  on_post-Meets Method.get h meets = no_method
  on_post-Meets Method.other h meets = no_method

  pub by_method-Meets :
      (m : Method) (g p : Handler)
      → (m ≡ Method.get → Meets g)
      → (m ≡ Method.post → Meets p)
      → Meets (by_method m g p)
  by_method-Meets Method.get g p meets_g meets_p = meets_g refl
  by_method-Meets Method.post g p meets_g meets_p = meets_p refl
  by_method-Meets Method.other g p meets_g meets_p = no_method

  pub if-Meets : (b : Bool) (h k : Handler) → Meets h → Meets k → Meets (if b then h else k)
  if-Meets true h k meets_h meets_k = meets_h
  if-Meets false h k meets_h meets_k = meets_k

  -- A test of a segment of the path.
  pub when-Meets :
      (a b : String) (h k : Handler) → (a ≡ b → Meets h) → Meets k → Meets (if a == b then h else k)
  when-Meets a b h k meets_h meets_k w = elim (Bool-cases (a == b)) [
    | inl same ↦ rw same (meets_h (ground arith) w)
    | inr other ↦ rw other (meets_k w)
  ]

  module _ (e : Engine) (c : Wiring) (r : Request) (router : Meets (route e c r r.path)) where
    limited-Meets : (w : World) (answer : Verdict) → P w (limited (routed e c r) (w, "") answer).1.0
    limited-Meets w Verdict.allowed = router w
    limited-Meets w Verdict.exceeded = still w
    limited-Meets w Verdict.failed = router w

    limited_route-Meets :
        (has_redis fails : Bool) (now : ℕ) (s : Process)
        → P s.world (limited_route e c has_redis fails now r s).2.world
    unfolding limited_route rate_limiter
    limited_route-Meets false fails now s = router s.world
    limited_route-Meets true fails now s = limited-Meets s.world _

    after_cors-Meets :
        (has_redis fails : Bool) (now : ℕ) (response : Option Response) (s : Process)
        → P s.world (after_cors e c has_redis fails now r response s).2.world
    after_cors-Meets has_redis fails now none s = limited_route-Meets has_redis fails now s
    after_cors-Meets has_redis fails now (some response) s = still s.world

    pub serve-Meets :
        (has_redis fails : Bool) (now : ℕ) (s : Process)
        → P s.world (serve e c has_redis fails now r s).1.world
    unfolding serve metrics_middleware
    serve-Meets has_redis fails now s = after_cors-Meets has_redis fails now (c.preflight r) s
