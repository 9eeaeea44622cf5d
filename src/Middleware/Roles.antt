-- ===== src/Middleware/Roles.antt =====
-- Who gets through the bearer token and the roles of the operators.
use go_wallet_ledger.Base.{
  String, ◌≡◌, refl, List, [], ◌∷◌, Option, none, some, Bool, false, ◌==◌, ◌||◌, ◌⊎◌, arith,
  if◌then◌else◌, split_spaces, Bool-cases, inl, inr,
}
use go_wallet_ledger.Models.Auth.{Role, role_text, JwtClaims}
use go_wallet_ledger.Store.{World}
use go_wallet_ledger.Http.{Response, failure}
use go_wallet_ledger.Middleware.{has_role, require_role, auth_middleware, authenticated}

-- The claims of the token that the header carries, if it is one bearer token that is valid.
abbrev pub bearer : (String → String → Option JwtClaims) → String → List String → Option JwtClaims
bearer validate secret (scheme ∷ token ∷ []) =
    if scheme == "Bearer" then validate token secret else none
bearer validate secret _ = none

-- They are those of the system or of an admin.
abbrev pub is_operator : Option JwtClaims → Bool
is_operator none = false
is_operator (some claims) = role_text claims.role == "SYSTEM" || role_text claims.role == "ADMIN"

-- Answered with 401 or 403, and nothing has changed.
pub record Denied (w : World) (r : Response × World) : Type 0 where
  pub unchanged : r.1 ≡ w
  pub status : (r.0.status ≡ 401) ⊎ (r.0.status ≡ 403)

abbrev operators : List Role
operators = Role.system ∷ Role.admin ∷ []

not_operator :
    (claims : JwtClaims)
    → is_operator (some claims) ≡ false
    → has_role claims.role operators ≡ false
not_operator claims h = ground arith

pub require_role-Denied :
    (claims : JwtClaims) (next : World → Response × World) (w : World)
    → is_operator (some claims) ≡ false
    → Denied w (require_role operators (some claims) next w)
unfolding require_role
require_role-Denied claims next w h =
    rw (not_operator claims h) (record { unchanged = refl; status = inr refl })

module _ (validate : String → String → Option JwtClaims) (secret : String)
    (guarded : JwtClaims → World → Response × World) (w : World)
    (denied : (a : JwtClaims) → is_operator (some a) ≡ false → Denied w (guarded a w)) where
  unauthenticated : (text : String) → Denied w (failure 401 text, w)
  unauthenticated text = record { unchanged = refl; status = inl refl }

  validated-Denied :
      (claims : Option JwtClaims)
      → is_operator claims ≡ false
      → Denied w (elim claims [ none ↦ (failure 401 "invalid token", w) | some c ↦ guarded c w ])
  validated-Denied none h = unauthenticated "invalid token"
  validated-Denied (some claims) h = denied claims h

  authenticated-Denied :
      (parts : List String)
      → is_operator (bearer validate secret parts) ≡ false
      → Denied w (authenticated validate secret parts guarded w)
  authenticated-Denied [] h = unauthenticated "invalid authorization header format"
  authenticated-Denied (scheme ∷ []) h = unauthenticated "invalid authorization header format"
  authenticated-Denied (scheme ∷ token ∷ []) h = elim (Bool-cases (scheme == "Bearer")) [
    | inl yes_bearer ↦ rw yes_bearer (validated-Denied (validate token secret) (rw yes_bearer at h))
    | inr other ↦ rw other (unauthenticated "invalid authorization header format")
  ]
  authenticated-Denied (scheme ∷ token ∷ more ∷ parts) h =
      unauthenticated "invalid authorization header format"

  pub auth_middleware-Denied :
      (header : String)
      → is_operator (bearer validate secret (split_spaces header)) ≡ false
      → Denied w (auth_middleware validate secret header guarded w)
  unfolding auth_middleware
  auth_middleware-Denied header h = elim (Bool-cases (header == "")) [
    | inl missing ↦ rw missing (unauthenticated "missing authorization header")
    | inr given ↦ rw given (authenticated-Denied (split_spaces header) h)
  ]
