-- ===== src/Transfers/Execution.antt =====
-- internal/transfers/service.go: the validation and the settlement, as a description of a run.
use go_wallet_ledger.Base.{String, ◌≡◌, subst, ◌∙◌, arith}
use go_wallet_ledger.Base.Int.{◌≤ℤ◌}
use go_wallet_ledger.Models.Wallets.{Wallet, WalletStatus}
use go_wallet_ledger.Models.Transfers.{CreateTransferRequest}
use go_wallet_ledger.Store.{World, Tables, Engine}
use go_wallet_ledger.Store.Laws.{Succeeds, bind-Succeeds, guard-Succeeds}
use go_wallet_ledger.Transfers.{validate_and_settle, transfer_body, assign, lock_order}
use go_wallet_ledger.Transfers.Settlement.{Settled, settle-Settled}
use go_wallet_ledger.Transfers.Locking.{Locked, lock_wallet-Locked}

-- The validation of the locked rows has passed.
pub record Eligible (req : CreateTransferRequest) (p : Wallet × Wallet) : Type 0 where
  pub active : (p.0.status ≡ WalletStatus.active) × (p.1.status ≡ WalletStatus.active)
  pub currency : (p.0.currency ≡ req.currency) × (p.1.currency ≡ req.currency)
  pub covered : req.amount ≤ℤ p.0.available_balance

-- What a run of the statements between `BeginTx` and `Commit` does, when it succeeds: two rows are
-- locked, the one of them taken for the source covers the amount, both are active and in the
-- request's currency, and the settlement is made.
pub record Executed (e : Engine) (req : CreateTransferRequest) (key : String) (t t' : Tables)
    : Type 0 where
  pub first : Wallet
  pub second : Wallet
  pub first_locked : Locked e (lock_order req.source_wallet_id req.destination_wallet_id).0 t first
  pub second_locked :
      Locked e (lock_order req.source_wallet_id req.destination_wallet_id).1 t second
  pub eligible : Eligible req (assign req.source_wallet_id first second)
  pub settled : let (s, d) = assign req.source_wallet_id first second in Settled e req key s d t t'

pub validate_and_settle-Succeeds :
    (e : Engine) (req : CreateTransferRequest) (key : String) (p : Wallet × Wallet) (w : World)
    → Succeeds
        (validate_and_settle e req key p)
        w
        λ _ w'. Eligible req p × Settled e req key p.0 p.1 w.tables w'.tables
unfolding validate_and_settle
validate_and_settle-Succeeds e req key (s, d) w = guard-Succeeds _ _ _ w λ active.
    guard-Succeeds _ _ _ w λ currency. guard-Succeeds _ _ _ w λ covered. record {
      at = λ a w' run. (
        record { active = ground arith; currency = ground arith; covered = ground arith },
        (settle-Settled e req key s d w).at a w' run,
      );
    }

pub transfer_body-Executed :
    (e : Engine) (req : CreateTransferRequest) (key : String) (w : World)
    → Succeeds (transfer_body e req key) w λ _ w'. Executed e req key w.tables w'.tables
unfolding transfer_body
transfer_body-Executed e req key w = bind-Succeeds _ _ w λ first w1 run1.
    bind-Succeeds _ _ w1 λ second w2 run2. record {
      at = λ a w' run.
          let l1 = (lock_wallet-Locked e _ w).at first w1 run1 in
          let l2 = (lock_wallet-Locked e _ w1).at second w2 run2 in
          let (ok_rows, settled) =
            (validate_and_settle-Succeeds e req key (assign req.source_wallet_id first second)
                w2).at
              a w' run in
          let p = assign req.source_wallet_id first second in
          record {
            first = first;
            second = second;
            first_locked = l1.0;
            second_locked =
                subst
                  (λ u.
                    Locked e (lock_order req.source_wallet_id req.destination_wallet_id).1 u second)
                  l1.1 l2.0;
            eligible = ok_rows;
            settled = subst (λ u. Settled e req key p.0 p.1 u w'.tables) (l2.1 ∙ l1.1) settled;
          };
    }
