-- ===== src/Transfers/Refusals.antt =====
-- internal/transfers/service.go: the transfers that `ExecuteTransfer` refuses.
use go_wallet_ledger.Base.{
  String, ◌≡◌, ◌≢◌, sym, ap, ◌∙◌, subst, some, find_row, some_eq, ◌⊎◌, inl, inr,
}
use go_wallet_ledger.Base.Int.{◌≤ℤ◌}
use go_wallet_ledger.Models.Wallets.{Wallet, WalletStatus, has_id}
use go_wallet_ledger.Models.Transfers.{CreateTransferRequest, Transfer}
use go_wallet_ledger.Store.{World, Tables, Engine, Result}
use go_wallet_ledger.Store.Laws.{Refused}
use go_wallet_ledger.Transfers.{execute_transfer}
use go_wallet_ledger.Transfers.Effects.{Contract, execute_transfer-Contract}
use go_wallet_ledger.Transfers.Canonical.{Moved, Moved-of}

module _ (e : Engine) (req : CreateTransferRequest) (key : String) (w : World)
    (source_canonical : e.parse_uuid req.source_wallet_id ≡ some req.source_wallet_id)
    (destination_canonical : e.parse_uuid req.destination_wallet_id
      ≡ some req.destination_wallet_id) where
  Refused-of :
      (r : Result Transfer × World)
      → ((t' : Tables) → ¬ Moved req w.tables t')
      → Contract e req key w.tables r
      → Refused w r
  Refused-of r never (Contract.refused x failed same) = record {
    error = x;
    failed = failed;
    unchanged = same;
  }
  Refused-of r never (Contract.executed _ differ _ x _) = absurd (
      never r.1.tables
        (Moved-of e req w.tables source_canonical destination_canonical differ key r.1.tables x))

  -- A transfer that cannot move its amount is refused.
  Refused-when :
      ((t' : Tables) → ¬ Moved req w.tables t') → Refused w (execute_transfer e req key w)
  Refused-when never =
      Refused-of (execute_transfer e req key w) never (execute_transfer-Contract e req key w)

  -- A transfer in canonical text that takes from a wallet, or pays into one, that is frozen or closed
  -- is refused and changes no table.
  pub execute_transfer-inactive :
      (id : String) (wallet : Wallet)
      → (id ≡ req.source_wallet_id) ⊎ (id ≡ req.destination_wallet_id)
      → find_row (has_id id) w.tables.wallets ≡ some wallet
      → wallet.status ≢ WalletStatus.active
      → Refused w (execute_transfer e req key w)
  execute_transfer-inactive id wallet (inl named) found inactive = Refused-when λ t' m. inactive (
      subst (λ (v : Wallet). v.status ≡ WalletStatus.active)
        (some_eq
          (sym m.source_found ∙ ap (λ k. find_row (has_id k) w.tables.wallets) (sym named) ∙ found))
        (m.active).0)
  execute_transfer-inactive id wallet (inr named) found inactive = Refused-when λ t' m. inactive (
      subst (λ (v : Wallet). v.status ≡ WalletStatus.active)
        (some_eq (
          sym m.destination_found
          ∙ ap (λ k. find_row (has_id k) w.tables.wallets) (sym named)
          ∙ found))
        (m.active).1)

  -- A transfer in canonical text of more than the source's available balance is refused and changes
  -- no table.
  pub execute_transfer-overdraft :
      (wallet : Wallet)
      → find_row (has_id req.source_wallet_id) w.tables.wallets ≡ some wallet
      → ¬ (req.amount ≤ℤ wallet.available_balance)
      → Refused w (execute_transfer e req key w)
  execute_transfer-overdraft wallet found short = Refused-when λ t' m. short (
      subst (λ (v : Wallet). req.amount ≤ℤ v.available_balance)
        (some_eq (sym m.source_found ∙ found)) m.covered)
