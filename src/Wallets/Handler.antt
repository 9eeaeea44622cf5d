-- ===== src/Wallets/Handler.antt =====
-- internal/wallets/handler.go, after the router: the claims that the middleware put into the
-- request's context, the path's `id`, and the decoded body, which is `none` where it is no JSON of
-- the request.
use go_wallet_ledger.Base.{String, Option, none, some}
use go_wallet_ledger.Models.Errors.{Error}
use go_wallet_ledger.Models.Auth.{JwtClaims}
use go_wallet_ledger.Models.Wallets.{CreateWalletRequest}
use go_wallet_ledger.Store.{Engine, World, Result, ok, err}
use go_wallet_ledger.Http.{
  Response, failure, reply, no_body, error_body, wallet_json, wallets_json, balance_json,
  transactions_json,
}
use go_wallet_ledger.Wallets.Service.{
  create_wallet, get_wallet, get_balance, freeze_wallet, unfreeze_wallet, get_transactions,
  get_wallets,
}

abbrev pub unauthorized : Response
unauthorized = failure 401 "unauthorized"

-- The answers of the reading handlers to an error of the service.
abbrev pub access_failure : Error → Response
access_failure Error.wallet_not_found = failure 404 "wallet not found"
access_failure Error.unauthorized_wallet_access = failure 403 "forbidden"
access_failure _ = failure 500 "internal server error"

abbrev pub status_failure : Error → Response
status_failure Error.wallet_not_found = failure 404 "wallet not found"
status_failure _ = failure 500 "internal server error"

-- The answer to a result of the service, by its error or by its encoding.
abbrev pub answer {ℓ} :
    {S : Type ℓ} {A : Type 0} → (Error → Response) → (A → Response) → Result A × S → Response × S
answer failed done (ok a, w) = (done a, w)
answer failed done (err x, w) = (failed x, w)

unfoldable pub handle_create_wallet :
    Engine → Option JwtClaims → Option CreateWalletRequest → World → Response × World
handle_create_wallet e none body w = (unauthorized, w)
handle_create_wallet e (some claims) none w = (failure 400 "invalid request body", w)
handle_create_wallet e (some claims) (some req) w =
    answer (λ x. record { status = 400; body = error_body x })
      (λ wallet. reply 201 (wallet_json wallet)) (create_wallet e req claims.user_id claims.role w)

unfoldable pub handle_get_wallet : Engine → Option JwtClaims → String → World → Response × World
handle_get_wallet e none id w = (unauthorized, w)
handle_get_wallet e (some claims) id w =
    answer access_failure (λ wallet. reply 200 (wallet_json wallet))
      (get_wallet e id claims.user_id claims.role w)

unfoldable pub handle_get_balance : Engine → Option JwtClaims → String → World → Response × World
handle_get_balance e none id w = (unauthorized, w)
handle_get_balance e (some claims) id w =
    answer access_failure (λ balance. reply 200 (balance_json balance))
      (get_balance e id claims.user_id claims.role w)

unfoldable pub handle_freeze_wallet : Engine → String → World → Response × World
handle_freeze_wallet e id w =
    answer status_failure (λ _. record { status = 200; body = no_body }) (freeze_wallet e id w)

unfoldable pub handle_unfreeze_wallet : Engine → String → World → Response × World
handle_unfreeze_wallet e id w =
    answer status_failure (λ _. record { status = 200; body = no_body }) (unfreeze_wallet e id w)

unfoldable pub handle_get_transactions :
    Engine → Option JwtClaims → String → World → Response × World
handle_get_transactions e none id w = (unauthorized, w)
handle_get_transactions e (some claims) id w =
    answer access_failure (λ lines. reply 200 (transactions_json lines))
      (get_transactions e id claims.user_id claims.role w)

unfoldable pub handle_get_wallets : Engine → Option JwtClaims → World → Response × World
handle_get_wallets e none w = (unauthorized, w)
handle_get_wallets e (some claims) w =
    answer (λ _. failure 500 "internal server error") (λ rows. reply 200 (wallets_json rows))
      (get_wallets e claims.user_id w)
