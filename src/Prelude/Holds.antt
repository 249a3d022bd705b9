-- ===== src/Prelude/Holds.antt =====
-- What holds of an outcome on either side: `P` of a value and the state behind it, `F` of an error
-- and the state beside it.
use bethkit.Prelude.Action.{Action, Outcome, done, fail, ◌>>=◌}

module _ {E S : Type 0} where
  unfoldable pub Holds : {A : Type 0} → (A → S → Type 0) → (E → S → Type 0) → Outcome E S A → Type 0
  Holds P F (done a s) = P a s
  Holds P F (fail e s) = F e s

  pub Holds-weaken :
      {A : Type 0} (P Q : A → S → Type 0) (F G : E → S → Type 0) (o : Outcome E S A)
      → Holds P F o
      → ((a : A) (s : S) → P a s → Q a s)
      → ((e : E) (s : S) → F e s → G e s)
      → Holds Q G o
  unfolding Holds
  Holds-weaken P Q F G (done a s) holds good bad = good a s holds
  Holds-weaken P Q F G (fail e s) holds good bad = bad e s holds

  -- One action after another.
  pub Holds-bind :
      {A B : Type 0} (P : A → S → Type 0) (Q : B → S → Type 0) (F G : E → S → Type 0)
      (m : Action E S A) (f : A → Action E S B) (s : S)
      → Holds P F (m s)
      → ((a : A) (s' : S) → P a s' → Holds Q G (f a s'))
      → ((e : E) (s' : S) → F e s' → G e s')
      → Holds Q G ((m >>= f) s)
  unfolding Holds
  Holds-bind {A = A} P Q F G m f s first next bad = go (m s) first
    where
      go :
          (o : Outcome E S A)
          → Holds P F o
          → Holds Q G (elim o [ done a s' ↦ f a s' | fail e s' ↦ fail e s' ])
      go (done a s') holds = next a s' holds
      go (fail e s') holds = bad e s' holds
