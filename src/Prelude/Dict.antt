-- ===== src/Prelude/Dict.antt =====
-- The language's hash maps, by what a lookup sees: an association list with one entry for a key.
-- The order of iteration, which the language leaves open, is the order of first insertion here.
use bethkit.Prelude.Checks.{if◌then◌else◌}
use mathlib.Core.Path.{◌≡◌, refl}
use mathlib.Core.Logic.{◌↔◌}
use mathlib.Core.Bool.{Bool, true, false}
use mathlib.Core.Option.{Option, none, some}
use mathlib.Core.List.{List, [], ◌∷◌}
use native.Mathlib.Omega.{arith}

-- What a hash map asks of its keys: `same` decides their equality.
pub record Key {ℓ} (K : Type ℓ) : Type ℓ where
  pub same : K → K → Bool
  pub same_iff : (k j : K) → (same k j ≡ true) ↔ (k ≡ j)

abbrev pub Dict {ℓ κ} : Type ℓ → Type κ → Type (ℓ ⊔ κ)
Dict K V = List (K × V)

module _ {ℓ κ} {K : Type ℓ} {V : Type κ} ⦃key : Key K⦄ where
  unfoldable pub lookup : K → Dict K V → Option V
  lookup k [] = none
  lookup k (entry ∷ rest) = elim (key.same k entry.0) [
    | true ↦ some entry.1
    | false ↦ lookup k rest
  ]

  unfoldable pub insert : K → V → Dict K V → Dict K V
  insert k v [] = (k, v) ∷ []
  insert k v (entry ∷ rest) = elim (key.same k entry.0) [
    | true ↦ (k, v) ∷ rest
    | false ↦ entry ∷ insert k v rest
  ]

  -- An insertion changes the lookup of its own key.
  pub lookup-insert :
      (k j : K) (v : V) (dict : Dict K V)
      → lookup j (insert k v dict) ≡ (if key.same j k then some v else lookup j dict)
  unfolding lookup insert
  lookup-insert k j v [] = ground arith
  lookup-insert k j v (entry ∷ rest) = ground (
    arith,
    lookup-insert k j v rest,
    key.same_iff j k,
    key.same_iff k entry.0,
    key.same_iff j entry.0,
  )

pub same_refl {ℓ} : {K : Type ℓ} ⦃key : Key K⦄ (k : K) → key.same k k ≡ true
same_refl ⦃key⦄ k = (key.same_iff k k).1 refl
