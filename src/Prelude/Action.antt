-- ===== src/Prelude/Action.antt =====
-- Methods on `&mut self` that may fail: the state comes back beside the error too.
use mathlib.Core.Path.{◌≡◌, refl}
use mathlib.Core.Logic.{◌⊎◌, inl, inr}

pub data Outcome {ℓ κ} (E S : Type ℓ) (A : Type κ) : Type (ℓ ⊔ κ) where
  done : A → S → Outcome E S A
  fail : E → S → Outcome E S A

abbrev pub Action {ℓ κ} : (E S : Type ℓ) (A : Type κ) → Type (ℓ ⊔ κ)
Action E S A = S → Outcome E S A

module _ {ℓ κ} {E S : Type ℓ} {A : Type κ} where
  abbrev pub pure : A → Action E S A
  pure a s = done a s

  abbrev pub throw : E → Action E S A
  throw e s = fail e s

  -- The state that an outcome leaves, whether it is a value or an error.
  abbrev pub final : Outcome E S A → S
  final (done a s) = s
  final (fail e s) = s

  -- The conversion that `?` makes from one error type to another.
  abbrev pub convert : {F : Type ℓ} → (E → F) → Action E S A → Action F S A
  convert f m s = elim (m s) [ done a s' ↦ done a s' | fail e s' ↦ fail (f e) s' ]

infixl 5 ◌>>=◌ ◌>>◌
abbrev pub ◌>>=◌ {ℓ κ μ} :
    {E S : Type ℓ} {A : Type κ} {B : Type μ} → Action E S A → (A → Action E S B) → Action E S B
◌>>=◌ m f s = elim (m s) [ done a s' ↦ f a s' | fail e s' ↦ fail e s' ]

abbrev pub ◌>>◌ {ℓ κ μ} :
    {E S : Type ℓ} {A : Type κ} {B : Type μ} → Action E S A → Action E S B → Action E S B
m >> n = m >>= λ _. n

pub Outcome-cases {ℓ κ} :
    {E S : Type ℓ} {A : Type κ} (o : Outcome E S A)
    → ((a : A) × (s : S) × (o ≡ done a s)) ⊎ ((e : E) × (s : S) × (o ≡ fail e s))
Outcome-cases (done a s) = inl (a, s, refl)
Outcome-cases (fail e s) = inr (e, s, refl)
