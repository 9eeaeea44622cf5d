-- ===== src/Server/Anonymous.antt =====
-- internal/server/server.go: what a request can change that carries no valid bearer token and no valid
-- webhook signature.
use go_wallet_ledger.Base.{
  ℕ, String, ◌≡◌, refl, sym, subst, List, [], ◌∷◌, ◌++◌, Option, none, some, Bool, false, ◌==◌,
  ◌||◌, ◌&&◌, split_spaces, arith, Bool-cases, inl, inr,
}
use go_wallet_ledger.Models.Errors.{Error}
use go_wallet_ledger.Models.Auth.{
  User, Role, JwtClaims, RegisterRequest, LoginRequest, AuthResponse,
}
use go_wallet_ledger.Store.{
  Engine, World, Tables, Result, ok, err, calls, next, wrapped, continue, checked, pure, ◌>>=◌,
  clock, or_raise, raise,
}
use go_wallet_ledger.Http.{Response}
use go_wallet_ledger.Wallets.Handler.{answer}
use go_wallet_ledger.Auth.{
  Crypto, validate_token, register, login, create_user, get_user_by_email, generate_token,
  user_error, user_row, default_role, handle_register, handle_login,
}
use go_wallet_ledger.Payments.Handler.{RawPayload, verify_webhook_signature, handle_webhook}
use go_wallet_ledger.Middleware.{auth_middleware}
use go_wallet_ledger.Middleware.Roles.{bearer}
use go_wallet_ledger.Server.{
  Request, Wiring, Process, Handler, auth_routes, protected_routes, is_webhook, api_routes, ready,
  route, serve,
}
use go_wallet_ledger.Server.Access.{auth_middleware_401}
use go_wallet_ledger.Server.Combinators.{
  Meets, missing-Meets, on_get-Meets, on_post-Meets, if-Meets, serve-Meets,
}

-- No table has changed, or one user was added.
pub data Signup (t t' : Tables) : Type 0 where
  same : t' ≡ t → Signup t t'
  joined : (user : User) → t' ≡ record t { users = t.users ++ user ∷ [] } → Signup t t'

-- The signature is the HMAC of the body's bytes.
abbrev pub is_signed : (String → String → String) → String → String → Option RawPayload → Bool
is_signed hmac secret signature none = false
is_signed hmac secret signature (some payload) =
    verify_webhook_signature hmac secret payload.text signature

abbrev Joins : World → World → Type 0
Joins w w' = Signup w.tables w'.tables

still : (w : World) → Joins w w
still w = Signup.same refl

module _ (crypto : Crypto) (e : Engine) (secret : String) where
  inserted :
      (row : User) (x : Option Error) (t : Tables) (w : World)
      → w.tables ≡ t
      → Signup t
          (wrapped user_error (
            continue
              (λ _. pure row)
              (checked x (λ v. record v { users = v.users ++ row ∷ [] }) w))).1.tables
  unfolding pure
  inserted row none t w h = Signup.joined row (rw h refl)
  inserted row (some x) t w h = Signup.same h

  create_user-Signup :
      (email hash : String) (role : Role) (w : World) → Joins w (create_user e email hash role w).1
  unfolding create_user calls
  create_user-Signup email hash role w = elim (Bool-cases (e.fault w.tick)) [
    | inl down ↦ rw down (Signup.same refl)
    | inr up ↦ rw up (inserted (user_row e w.tick email hash role) _ w.tables (next w) refl)
  ]

  signed :
      (user : User) (o : Option String) (w : World)
      → (continue {B = AuthResponse}
          (λ token. pure (record { token = token; user = user }))
          (or_raise o Error.signing_failed w)).1
        ≡ w
  unfolding pure or_raise raise
  signed user none w = refl
  signed user (some token) w = refl

  created :
      (r : Result User × World) (t : Tables)
      → Signup t r.1.tables
      → Signup t
          (continue {B = AuthResponse}
            (λ user. do
              token ← generate_token crypto e secret user
              pure (record { token = token; user = user }))
            r).1.tables
  unfolding generate_token ◌>>=◌ clock
  created (err x, w) t h = h
  created (ok user, w) t h = rw (signed user _ w) h

  hashed :
      (req : RegisterRequest) (o : Option String) (w : World)
      → Joins w
          (continue {B = AuthResponse}
            (λ hash. do
              user ← create_user e req.email hash (default_role req.role)
              token ← generate_token crypto e secret user
              pure (record { token = token; user = user }))
            (or_raise o Error.hashing_failed w)).1
  unfolding or_raise pure raise ◌>>=◌
  hashed req none w = Signup.same refl
  hashed req (some hash) w =
      created (create_user e req.email hash (default_role req.role) w) w.tables
        (create_user-Signup req.email hash (default_role req.role) w)

  register-Signup : (req : RegisterRequest) (w : World) → Joins w (register crypto e secret req w).1
  unfolding register ◌>>=◌
  register-Signup req w = hashed req (crypto.generate req.password) w

  login-Signup : (req : LoginRequest) (w : World) → Joins w (login crypto e secret req w).1
  unfolding login get_user_by_email generate_token calls
  login-Signup req w = Signup.same (ground arith)

  answer-Joins :
      {A : Type 0} (w : World) (failed : Error → Response) (done : A → Response)
      (r : Result A × World)
      → Joins w r.1
      → Joins w (answer failed done r).1
  answer-Joins w failed done (ok a, w') h = h
  answer-Joins w failed done (err x, w') h = h

  handle_register-Joins :
      (body : Option RegisterRequest) (w : World)
      → Joins w (handle_register crypto e secret body w).1
  unfolding handle_register
  handle_register-Joins none w = still w
  handle_register-Joins (some req) w = elim (Bool-cases (req.email == "" || req.password == "")) [
    | inl empty ↦ rw empty (still w)
    | inr given ↦
        rw given (answer-Joins w _ _ (register crypto e secret req w) (register-Signup req w))
  ]

  handle_login-Joins :
      (body : Option LoginRequest) (w : World) → Joins w (handle_login crypto e secret body w).1
  unfolding handle_login
  handle_login-Joins none w = still w
  handle_login-Joins (some req) w = elim (Bool-cases (req.email == "" || req.password == "")) [
    | inl empty ↦ rw empty (still w)
    | inr given ↦ rw given (answer-Joins w _ _ (login crypto e secret req w) (login-Signup req w))
  ]

-- Without a signature that verifies, a webhook changes nothing.
handle_webhook-unsigned :
    (hmac : String → String → String) (e : Engine) (secret signature : String)
    (body : Option RawPayload) (w : World)
    → is_signed hmac secret signature body ≡ false
    → Joins w (handle_webhook hmac e secret signature body w).1
unfolding handle_webhook
handle_webhook-unsigned hmac e secret signature none w h = elim (Bool-cases (signature == "")) [
  | inl empty ↦ rw empty (still w)
  | inr given ↦ rw given (still w)
]
handle_webhook-unsigned hmac e secret signature (some payload) w h =
    elim (Bool-cases (signature == "")) [
      | inl empty ↦ rw empty (still w)
      | inr given ↦ rw (given, h) (still w)
    ]

module _ (e : Engine) (c : Wiring) (r : Request)
    (no_token : bearer (validate_token c.jwt) c.secret (split_spaces r.authorization) ≡ none)
    (unsigned : is_signed c.hmac c.secret r.webhook_signature r.body.webhook ≡ false) where
  guarded-Joins :
      (handler : JwtClaims → Handler)
      → Meets Joins still (auth_middleware (validate_token c.jwt) c.secret r.authorization handler)
  guarded-Joins handler w =
      subst (λ (v : World). Joins w v)
        (sym
          (auth_middleware_401 (validate_token c.jwt) c.secret handler w r.authorization
            no_token).1)
        (still w)

  protected_routes-Joins :
      (group : String) (rest : List String) → Meets Joins still (protected_routes e c r group rest)
  unfolding protected_routes
  protected_routes-Joins group rest =
      if-Meets Joins still (group == "wallets") _ _ (guarded-Joins _) (
        if-Meets Joins still (group == "transfers") _ _ (guarded-Joins _) (
          if-Meets Joins still (group == "payments") _ _ (guarded-Joins _) (
            if-Meets Joins still (group == "reconciliation") _ _ (guarded-Joins _)
              (missing-Meets Joins still))))

  auth_routes-Joins :
      (rest : List String) → Meets Joins still (auth_routes c.crypto e c.secret r rest)
  unfolding auth_routes
  auth_routes-Joins [] = missing-Meets Joins still
  auth_routes-Joins (action ∷ []) =
      if-Meets Joins still (action == "register") _ _
        (on_post-Meets Joins still r.method _
          (λ _. handle_register-Joins c.crypto e c.secret r.body.register))
        (if-Meets Joins still (action == "login") _ _
          (on_post-Meets Joins still r.method _
            (λ _. handle_login-Joins c.crypto e c.secret r.body.login))
          (missing-Meets Joins still))
  auth_routes-Joins (x ∷ y ∷ rest) = missing-Meets Joins still

  api_routes-Joins : (rest : List String) → Meets Joins still (api_routes e c r rest)
  unfolding api_routes
  api_routes-Joins [] = missing-Meets Joins still
  api_routes-Joins (group ∷ rest) =
      if-Meets Joins still (group == "auth") _ _ (auth_routes-Joins rest) (
        if-Meets Joins still (is_webhook e c group rest) _ _
          (on_post-Meets Joins still r.method _ (λ _ w.
            handle_webhook-unsigned c.hmac e c.secret r.webhook_signature r.body.webhook w
              unsigned))
          (protected_routes-Joins group rest))

  ready-Joins : Meets Joins still (ready e)
  unfolding ready
  ready-Joins w = elim (Bool-cases (e.fault w.tick)) [
    | inl down ↦ rw down (Signup.same refl)
    | inr up ↦ rw up (Signup.same refl)
  ]

  route-Joins : (path : List String) → Meets Joins still (route e c r path)
  unfolding route
  route-Joins [] = missing-Meets Joins still
  route-Joins (name ∷ []) =
      if-Meets Joins still (name == "metrics") _ _
        (on_get-Meets Joins still r.method _ (λ _. still))
        (if-Meets Joins still (name == "health") _ _
          (on_get-Meets Joins still r.method _ (λ _. still))
          (if-Meets Joins still (name == "ready") _ _
            (on_get-Meets Joins still r.method _ (λ _. ready-Joins)) (missing-Meets Joins still)))
  route-Joins (api ∷ version ∷ rest) =
      if-Meets Joins still (api == "api" && version == "v1") _ _ (api_routes-Joins rest)
        (missing-Meets Joins still)

-- All that a request can do to the tables that carries no valid bearer token, and no webhook signature
-- that is the HMAC of its body: it adds one user, or it changes nothing, whatever its method, its path
-- and its body.
pub serve-Signup :
    (e : Engine) (c : Wiring) (has_redis fails : Bool) (now : ℕ) (r : Request) (s : Process)
    → bearer (validate_token c.jwt) c.secret (split_spaces r.authorization) ≡ none
    → is_signed c.hmac c.secret r.webhook_signature r.body.webhook ≡ false
    → Signup s.world.tables (serve e c has_redis fails now r s).1.world.tables
serve-Signup e c has_redis fails now r s no_token unsigned =
    serve-Meets Joins still e c r (route-Joins e c r no_token unsigned r.path) has_redis fails now s
