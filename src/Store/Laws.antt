-- ===== src/Store/Laws.antt =====
-- Rules for successful runs of a `do` block, one for each call, and the ends of a transaction.
use go_wallet_ledger.Base.{
  ℕ, ◌≡◌, refl, arith, Bool, true, false, ◌⊎◌, inl, inr, Bool-cases, Option, none, some, List,
  String,
}
use go_wallet_ledger.Models.Errors.{Error}
use go_wallet_ledger.Store.{
  World, Tables, Metrics, Engine, Result, ok, err, Action, Outcome, ◌>>=◌, ◌>>◌, continue, next,
  statement, transaction, conclude, close, or_raise, wrap_error, wrapped, write, violation, uuid,
  pure, gets, lift, guard, count_metric, checked, clock, calls,
}

-- Whenever the call at `w` succeeds, its result and the world after it satisfy `P`.
pub record Succeeds {A : Type 0} (m : Action A) (w : World) (P : A → World → Type 0) : Type 0 where
  pub at : (a : A) (w' : World) → m w ≡ (ok a, w') → P a w'

continue-eq-ok :
    {A B : Type 0} (f : A → Action B) (r : Result A × World) (b : B) (w : World)
    → continue f r ≡ (ok b, w)
    → (a : A) × (w' : World) × (r ≡ (ok a, w')) × (f a w' ≡ (ok b, w))
continue-eq-ok f (ok a, w') b w h = (a, w', refl, h)
continue-eq-ok f (err x, w') b w h = ground arith

wrapped-eq-ok :
    {A : Type 0} (f : Error → Error) (r : Result A × World) (a : A) (w : World)
    → wrapped f r ≡ (ok a, w)
    → r ≡ (ok a, w)
wrapped-eq-ok f (ok b, w') a w h = h
wrapped-eq-ok f (err x, w') a w h = ground arith

module _ {A : Type 0} {P : A → World → Type 0} where
  pub pure-Succeeds : (a : A) (w : World) → P a w → Succeeds (pure a) w P
  unfolding calls
  pure-Succeeds a w h = record { at = λ b w' e. ground (arith, h) }

  pub raise-Succeeds : (x : Error) (w : World) → Succeeds (lift (err x)) w P
  unfolding calls
  raise-Succeeds x w = record { at = λ b w' e. ground arith }

  -- `or_raise` at the end of a block.
  pub raised-Succeeds :
      (o : Option A) (x : Error) (w : World)
      → ((a : A) → o ≡ some a → P a w)
      → Succeeds (or_raise o x) w P
  unfolding calls
  raised-Succeeds none x w h = record { at = λ b w' r. ground arith }
  raised-Succeeds (some a) x w h = pure-Succeeds a w (h a refl)

  pub statement-Succeeds :
      (e : Engine) (body : ℕ → Action A) (w : World)
      → Succeeds (body w.tick) (next w) P
      → Succeeds (statement e body) w P
  unfolding calls
  statement-Succeeds e body w h = record { at = λ a w' r. ground (arith, h.at a w') }

  pub wrap_error-Succeeds :
      (f : Error → Error) (m : Action A) (w : World)
      → Succeeds m w P
      → Succeeds (wrap_error f m) w P
  unfolding calls
  wrap_error-Succeeds f m w h = record { at = λ a w' r. h.at a w' (wrapped-eq-ok f (m w) a w' r) }

module _ {A B : Type 0} {P : B → World → Type 0} where
  pub bind-Succeeds :
      (m : Action A) (f : A → Action B) (w : World)
      → ((a : A) (w' : World) → m w ≡ (ok a, w') → Succeeds (f a) w' P)
      → Succeeds (m >>= f) w P
  unfolding calls
  bind-Succeeds m f w h = record {
    at = λ b w'' r.
        let split = continue-eq-ok f (m w) b w'' r in (h split.0 split.1 split.2).at b w'' split.3;
  }

  pub gets-Succeeds :
      (g : Tables → A) (f : A → Action B) (w : World)
      → Succeeds (f (g w.tables)) w P
      → Succeeds (gets g >>= f) w P
  unfolding calls
  gets-Succeeds g f w h = record { at = h.at }

  pub or_raise-Succeeds :
      (o : Option A) (x : Error) (f : A → Action B) (w : World)
      → ((a : A) → o ≡ some a → Succeeds (f a) w P)
      → Succeeds (or_raise o x >>= f) w P
  unfolding calls
  or_raise-Succeeds none x f w h = record { at = λ b w' r. ground arith }
  or_raise-Succeeds (some a) x f w h = record { at = (h a refl).at }

module _ {B : Type 0} {P : B → World → Type 0} where
  pub uuid-Succeeds :
      (e : Engine) (s : String) (f : String → Action B) (w : World)
      → ((u : String) → e.parse_uuid s ≡ some u → Succeeds (f u) w P)
      → Succeeds (uuid e s >>= f) w P
  unfolding calls
  uuid-Succeeds e s f w h = or_raise-Succeeds (e.parse_uuid s) Error.invalid_uuid f w h

  pub clock-Succeeds :
      (e : Engine) (f : ℕ → Action B) (w : World)
      → Succeeds (f (e.now w.tick)) w P
      → Succeeds (clock e >>= f) w P
  unfolding calls
  clock-Succeeds e f w h = record { at = h.at }

  pub guard-Succeeds :
      (b : Bool) (x : Error) (k : Action B) (w : World)
      → (b ≡ true → Succeeds k w P)
      → Succeeds (guard b x >> k) w P
  unfolding calls
  guard-Succeeds true x k w h = record { at = (h refl).at }
  guard-Succeeds false x k w h = record { at = λ b w' r. ground arith }

  pub lift-Succeeds :
      (r : Result (Unit {0})) (k : Action B) (w : World)
      → (r ≡ ok tt → Succeeds k w P)
      → Succeeds (lift r >> k) w P
  unfolding calls
  lift-Succeeds (ok tt) k w h = record { at = (h refl).at }
  lift-Succeeds (err x) k w h = record { at = λ b w' r. ground arith }

  pub then-Succeeds :
      (m : Action (Unit {0})) (k : Action B) (w : World)
      → ((w' : World) → m w ≡ (ok tt, w') → Succeeds k w' P)
      → Succeeds (m >> k) w P
  unfolding calls
  then-Succeeds m k w h = record {
    at = λ b w'' r.
        let split = continue-eq-ok (λ _. k) (m w) b w'' r in (h split.1 split.2).at b w'' split.3;
  }

  pub metric-Succeeds :
      (f : Metrics → Metrics) (k : Action B) (w : World)
      → Succeeds k (record w { metrics = f w.metrics }) P
      → Succeeds (count_metric f >> k) w P
  unfolding calls
  metric-Succeeds f k w h = record { at = h.at }

  write_case :
      (o : Option Error) (change : Tables → Tables) (k : Action B) (w : World)
      → (o ≡ none → Succeeds k (record w { tables = change w.tables }) P)
      → (b : B) (w' : World) → continue (λ _. k) (checked o change w) ≡ (ok b, w')
      → P b w'
  write_case none change k w h b w' r = (h refl).at b w' r
  write_case (some x) change k w h b w' r = ground arith

  pub write-Succeeds :
      (constraints : Tables → List (Bool × Error)) (change : Tables → Tables) (k : Action B)
      (w : World)
      → (violation (constraints w.tables) ≡ none
          → Succeeds k (record w { tables = change w.tables }) P)
      → Succeeds (write constraints change >> k) w P
  unfolding calls
  write-Succeeds constraints change k w h = record {
    at = write_case (violation (constraints w.tables)) change k w h;
  }

-- How a transaction can end: it failed and the tables are as before, or its statements succeeded
-- and the tables are as they left them. Only the second reports success.
pub data Ends {A : Type 0} (e : Engine) (body : Action A) (w : World) (r : Result A × World)
    : Type 0 where
  undone : (x : Error) → r.0 ≡ err x → r.1.tables ≡ w.tables → Ends e body w r
  durable :
      (a : A) (w' : World)
      → body (next w) ≡ (ok a, w')
      → r.1.tables ≡ w'.tables
      → (r.0 ≡ ok a) ⊎ (r.0 ≡ err Error.unavailable)
      → Ends e body w r

conclude-Ends :
    {A : Type 0} (e : Engine) (body : Action A) (w : World) (o : Outcome) (a : A) (w' : World)
    → body (next w) ≡ (ok a, w')
    → Ends e body w (conclude o a w (next w'))
conclude-Ends e body w Outcome.committed a w' h = durable a w' h refl (inl refl)
conclude-Ends e body w Outcome.aborted a w' h = undone Error.unavailable refl refl
conclude-Ends e body w Outcome.in_doubt a w' h = durable a w' h refl (inr refl)

pub close-Ends :
    {A : Type 0} (e : Engine) (body : Action A) (w : World) (r : Result A × World)
    → body (next w) ≡ r
    → Ends e body w (close e w r)
close-Ends e body w (ok a, w') h = conclude-Ends e body w (e.outcome w'.tick) a w' h
close-Ends e body w (err x, w') h = undone x refl refl

pub transaction-Ends :
    {A : Type 0} (e : Engine) (body : Action A) (w : World) → Ends e body w (transaction e body w)
unfolding calls
transaction-Ends e body w = elim (Bool-cases (e.fault w.tick)) [
  | inl down ↦ rw down (undone Error.unavailable refl refl)
  | inr up ↦ rw up (close-Ends e body w (body (next w)) refl)
]

Ends-keeps :
    {A : Type 0} (I : Tables → Type 0) (e : Engine) (body : Action A) (w : World)
    (r : Result A × World)
    → Ends e body w r
    → Succeeds body (next w) (λ _ w'. I w'.tables)
    → I w.tables
    → I r.1.tables
Ends-keeps I e body w r (undone x _ same) s h = rw same h
Ends-keeps I e body w r (durable a w' done same _) s h = rw same (s.at a w' done)

-- A transaction keeps an invariant that its statements, when all succeed, restore.
pub transaction-keeps :
    {A : Type 0} (I : Tables → Type 0) (e : Engine) (body : Action A) (w : World)
    → Succeeds body (next w) (λ _ w'. I w'.tables)
    → I w.tables
    → I (transaction e body w).1.tables
transaction-keeps I e body w s h = Ends-keeps I e body w _ (transaction-Ends e body w) s h

-- The call fails and changes no table.
pub record Refused {A : Type 0} (w : World) (r : Result A × World) : Type 0 where
  pub error : Error
  pub failed : r.0 ≡ err error
  pub unchanged : r.1.tables ≡ w.tables

Ends-Refused :
    {A : Type 0} (e : Engine) (body : Action A) (w : World) (r : Result A × World)
    → ((a : A) (w' : World) → ¬ (body (next w) ≡ (ok a, w')))
    → Ends e body w r
    → Refused w r
Ends-Refused e body w r never (undone x failed same) = record {
  error = x;
  failed = failed;
  unchanged = same;
}
Ends-Refused e body w r never (durable a w' done _ _) = absurd (never a w' done)

-- A transaction whose statements cannot all succeed is refused.
pub transaction-Refused :
    {A : Type 0} (e : Engine) (body : Action A) (w : World)
    → ((a : A) (w' : World) → ¬ (body (next w) ≡ (ok a, w')))
    → Refused w (transaction e body w)
transaction-Refused e body w never =
    Ends-Refused e body w (transaction e body w) never (transaction-Ends e body w)
