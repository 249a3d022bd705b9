-- ===== src/Prelude/Fine.antt =====
-- What holds of an action that may run out of fuel: `Fine P o` says that the outcome `o` is an error
-- of the program's own, or a value and a state of which `P` holds.
use mathlib.Core.Path.{◌≡◌, refl}
use bethkit.Prelude.Action.{Action, Outcome, done, fail, ◌>>=◌}
use bethkit.Prelude.Fault.{Fault, error, out_of_fuel}

module _ {E S : Type 0} where
  unfoldable pub Fine : {A : Type 0} → (A → S → Type 0) → Outcome (Fault E) S A → Type 0
  Fine P (done a s) = P a s
  Fine P (fail (error e) s) = Unit
  Fine P (fail out_of_fuel s) = ⊥

  pub Fine-weaken :
      {A : Type 0} (P Q : A → S → Type 0) (o : Outcome (Fault E) S A)
      → Fine P o
      → ((a : A) (s : S) → P a s → Q a s)
      → Fine Q o
  unfolding Fine
  Fine-weaken P Q (done a s) fine implies = implies a s fine
  Fine-weaken P Q (fail (error e) s) fine implies = tt
  Fine-weaken P Q (fail out_of_fuel s) fine implies = fine

  -- One action after another.
  pub Fine-bind :
      {A B : Type 0} (P : A → S → Type 0) (Q : B → S → Type 0) (m : Action (Fault E) S A)
      (f : A → Action (Fault E) S B) (s : S)
      → Fine P (m s)
      → ((a : A) (s' : S) → P a s' → Fine Q (f a s'))
      → Fine Q ((m >>= f) s)
  unfolding Fine
  Fine-bind {A = A} P Q m f s fine next = go (m s) fine
    where
      go :
          (o : Outcome (Fault E) S A)
          → Fine P o
          → Fine Q (elim o [ done a s' ↦ f a s' | fail e s' ↦ fail e s' ])
      go (done a s') holds = next a s' holds
      go (fail (error e) s') holds = tt
      go (fail out_of_fuel s') holds = holds

  -- What the outcome's own equation shows of a value may be added.
  pub Fine-also :
      {A : Type 0} (P Q : A → S → Type 0) (o : Outcome (Fault E) S A)
      → Fine P o
      → ((a : A) (s : S) → o ≡ done a s → Q a s)
      → Fine (λ a s. P a s × Q a s) o
  unfolding Fine
  Fine-also P Q (done a s) fine also = (fine, also a s refl)
  Fine-also P Q (fail (error e) s) fine also = tt
  Fine-also P Q (fail out_of_fuel s) fine also = fine
