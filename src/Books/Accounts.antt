-- ===== src/Books/Accounts.antt =====
-- Accounts that exist.
use go_wallet_ledger.Base.{String, ◌≡◌, List, [], ◌∷◌, some, All, arith}
use go_wallet_ledger.Models.Wallets.{Account}
use go_wallet_ledger.Store.{Engine}
use go_wallet_ledger.Books.{Known}

-- The text of a known account reads as that account.
pub Known-canonical :
    (e : Engine) (accounts : List Account) (id : String)
    → All (λ (a : Account). e.parse_uuid a.id ≡ some a.id) accounts
    → Known accounts id
    → e.parse_uuid id ≡ some id
Known-canonical e [] id h k = cc k
Known-canonical e (x ∷ xs) id h k = ground (arith, Known-canonical e xs id h.1)
