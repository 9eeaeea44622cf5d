-- ===== src/Server/Operators.antt =====
-- internal/wallets/handler.go, in the router of internal/server/server.go: who may freeze and unfreeze a
-- wallet.
use go_wallet_ledger.Base.{String, ◌≡◌, [], ◌∷◌, some, false, split_spaces, String_discrete}
use go_wallet_ledger.Models.Auth.{JwtClaims}
use go_wallet_ledger.Store.{Engine, World}
use go_wallet_ledger.Auth.{validate_token}
use go_wallet_ledger.Middleware.Roles.{
  bearer, is_operator, Denied, require_role-Denied, auth_middleware-Denied,
}
use go_wallet_ledger.Wallets.Handler.{handle_freeze_wallet, handle_unfreeze_wallet}
use go_wallet_ledger.Server.{
  Method, Request, Wiring, Handler, on_post, wallet_routes, protected_routes, api_routes, route,
}

on_post-Denied :
    (m : Method) (h : Handler) (w : World)
    → m ≡ Method.post
    → Denied w (h w)
    → Denied w (on_post m h w)
on_post-Denied m h w posted denied = rw posted denied

module _ (e : Engine) (c : Wiring) (r : Request) (id : String) (w : World)
    (posted : r.method ≡ Method.post) where
  freeze-Denied :
      (a : JwtClaims)
      → is_operator (some a) ≡ false
      → Denied w (wallet_routes e a r (id ∷ "freeze" ∷ []) w)
  unfolding wallet_routes String_discrete
  freeze-Denied a h =
      on_post-Denied r.method _ w posted (require_role-Denied a (handle_freeze_wallet e id) w h)

  unfreeze-Denied :
      (a : JwtClaims)
      → is_operator (some a) ≡ false
      → Denied w (wallet_routes e a r (id ∷ "unfreeze" ∷ []) w)
  unfolding wallet_routes String_discrete
  unfreeze-Denied a h =
      on_post-Denied r.method _ w posted (require_role-Denied a (handle_unfreeze_wallet e id) w h)

-- A request to the server's router to freeze or to unfreeze a wallet whose header does not carry a valid
-- token of the system or of an admin is answered with 401 or 403, and changes nothing.
pub route_freeze-Denied :
    (e : Engine) (c : Wiring) (r : Request) (id : String) (w : World)
    → r.method ≡ Method.post
    → is_operator (bearer (validate_token c.jwt) c.secret (split_spaces r.authorization)) ≡ false
    → Denied w (route e c r ("api" ∷ "v1" ∷ "wallets" ∷ id ∷ "freeze" ∷ []) w)
      × Denied w (route e c r ("api" ∷ "v1" ∷ "wallets" ∷ id ∷ "unfreeze" ∷ []) w)
unfolding route api_routes protected_routes String_discrete
route_freeze-Denied e c r id w posted h = (
  auth_middleware-Denied (validate_token c.jwt) c.secret _ w (freeze-Denied e c r id w posted)
      r.authorization h,
  auth_middleware-Denied (validate_token c.jwt) c.secret _ w (unfreeze-Denied e c r id w posted)
      r.authorization h,
)
