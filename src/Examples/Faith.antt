-- ===== src/Examples/Faith.antt =====
-- The example's services and tables are what the theorems ask for.
use go_wallet_ledger.Base.{
  All, String, List, [], ◌∷◌, ℕ, zero, suc, ◌≡◌, refl, ◌==◌, ◌||◌, Bool, false, arith,
  String_discrete,
}
use go_wallet_ledger.Base.Int.{◌+ℤ◌, ◌-ℤ◌}
use go_wallet_ledger.Models.Wallets.{WalletStatus}
use go_wallet_ledger.Models.Payments.{platform_account}
use go_wallet_ledger.Ledger.Sums.{net}
use go_wallet_ledger.Books.{IsFaithful, IsSound}
use go_wallet_ledger.Examples.{calm, last, pick, names, tables}

pub pick_other :
    (s : String) (xs : List String)
    → (last == s) ≡ false
    → All (λ (x : String). (x == s) ≡ false) xs
    → (n : ℕ) → (pick xs n == s) ≡ false
pick_other s [] z h n = z
pick_other s (x ∷ xs) z h zero = h.0
pick_other s (x ∷ xs) z h (suc n) = pick_other s xs z h.1 n

abbrev pub named_by : String → List String → Bool
named_by s [] = false
named_by s (x ∷ xs) = x == s || named_by s xs

pub none_named :
    (s : String) (xs : List String)
    → named_by s xs ≡ false
    → All (λ (x : String). (x == s) ≡ false) xs
none_named s [] h = tt
none_named s (x ∷ xs) h = (ground arith, none_named s xs (ground arith))

unnamed : named_by platform_account names ≡ false
unfolding String_discrete
unnamed = refl

pub names_not_nil : All (λ (x : String). (x == platform_account) ≡ false) names
names_not_nil = none_named platform_account names unnamed

pub calm-IsFaithful : IsFaithful calm
unfolding String_discrete
calm-IsFaithful = record {
  reads_canonical = λ s c h. refl;
  nil_canonical = refl;
  fresh_canonical = λ n. refl;
  fresh_not_nil = pick_other platform_account names refl names_not_nil;
}

pub tables-IsSound : (status : WalletStatus) → IsSound calm (tables status)
unfolding net ◌+ℤ◌ ◌-ℤ◌ String_discrete
tables-IsSound status = record {
  distinct = (((refl, refl), tt), (tt, tt));
  backed = (refl, (refl, tt));
  named = (refl, (refl, tt));
  funded = (
    record { available = omega arith; locked = omega arith; known = refl; private = refl },
    (record { available = omega arith; locked = omega arith; known = refl; private = refl }, tt),
  );
  canonical = (refl, (refl, (refl, tt)));
  posted = (refl, (refl, tt));
  balanced = refl;
}
