-- ===== src/Middleware.antt =====
-- internal/middleware/auth.go: the bearer token and the roles, around a handler. `ValidateToken` of
-- internal/auth/jwt.go stands on the JWT library, and is the parameter `validate`.
pub mod Roles
use go_wallet_ledger.Base.{
  ℕ, String, List, [], ◌∷◌, Option, none, some, Bool, true, false, not, ◌==◌, ◌&&◌, if◌then◌else◌,
  split_spaces,
}
use go_wallet_ledger.Models.Auth.{Role, role_text, JwtClaims}
use go_wallet_ledger.Store.{Engine, World}
use go_wallet_ledger.Http.{Response, failure}
use go_wallet_ledger.Wallets.Handler.{handle_freeze_wallet, handle_unfreeze_wallet}

-- `claims.Role == role`
abbrev pub same_role : Role → Role → Bool
same_role a b = role_text a == role_text b

abbrev pub has_role : Role → List Role → Bool
has_role role [] = false
has_role role (r ∷ rs) = if same_role role r then true else has_role role rs

-- `RequireRole`, of the claims in the context, around the handler `next`.
unfoldable pub require_role :
    List Role → Option JwtClaims → (World → Response × World) → World → Response × World
require_role roles none next w = (failure 401 "unauthorized", w)
require_role roles (some claims) next w =
    if has_role claims.role roles
    then next w
    else (failure 403 "forbidden: insufficient permissions", w)

module _ (validate : String → String → Option JwtClaims) where
  abbrev pub authenticated :
      String → List String → (JwtClaims → World → Response × World) → World → Response × World
  authenticated secret (scheme ∷ token ∷ []) next w =
      if scheme == "Bearer"
      then elim (validate token secret) [
        | none ↦ (failure 401 "invalid token", w)
        | some claims ↦ next claims w
      ]
      else (failure 401 "invalid authorization header format", w)
  authenticated secret _ next w = (failure 401 "invalid authorization header format", w)

  -- `AuthMiddleware`, of the secret and the header `Authorization`, around the handler `next`.
  unfoldable pub auth_middleware :
      String → String → (JwtClaims → World → Response × World) → World → Response × World
  unfolding split_spaces
  auth_middleware secret header next w =
      if header == ""
      then (failure 401 "missing authorization header", w)
      else authenticated secret (split_spaces header) next w
