-- ===== src/Prelude/SortedMap.antt =====
-- The language's `BTreeMap` with integer keys: an association list in ascending order of the keys.
use Prim.Native.Nat.{ℕ, ◌≤◌, ◌<◌}
use bethkit.Prelude.Checks.{◌==◌, ltb, if◌then◌else◌}
use bethkit.Prelude.Lists.{All}
use mathlib.Core.Path.{◌≡◌, refl}
use mathlib.Core.Option.{Option, none, some}
use mathlib.Core.Bool.{Bool, true, false}
use mathlib.Core.List.{List, [], ◌∷◌, ◌++◌}
use native.Mathlib.Omega.{arith}

abbrev pub SortedMap {ℓ} : Type ℓ → Type ℓ
SortedMap V = List (ℕ × V)

module _ {ℓ} {V : Type ℓ} where
  unfoldable pub lookup : ℕ → SortedMap V → Option V
  lookup k [] = none
  lookup k (entry ∷ rest) = if entry.0 == k then some entry.1 else lookup k rest

  unfoldable pub contains_key : ℕ → SortedMap V → Bool
  contains_key k [] = false
  contains_key k (entry ∷ rest) = if entry.0 == k then true else contains_key k rest

  unfoldable pub insert : ℕ → V → SortedMap V → SortedMap V
  insert k v [] = (k, v) ∷ []
  insert k v (entry ∷ rest) =
      if ltb entry.0 k
      then entry ∷ insert k v rest
      else if entry.0 == k
      then (k, v) ∷ rest
      else (k, v) ∷ entry ∷ rest

  unfoldable pub remove : ℕ → SortedMap V → SortedMap V
  remove k [] = []
  remove k (entry ∷ rest) = if entry.0 == k then rest else entry ∷ remove k rest

  -- Every key of the map is above `k`.
  abbrev pub Above : ℕ → SortedMap V → Type 0
  Above k m = All (λ e. k < e.0) m

  abbrev pub IsSorted : SortedMap V → Type 0
  IsSorted [] = Unit
  IsSorted ((k, v) ∷ m) = Above k m × IsSorted m

module _ {ℓ} {V : Type ℓ} where
  pub lookup-insert :
      (k j : ℕ) (v : V) (m : SortedMap V)
      → lookup j (insert k v m) ≡ (if k == j then some v else lookup j m)
  unfolding lookup insert
  lookup-insert k j v [] = refl
  lookup-insert k j v (entry ∷ rest) = ground (arith, lookup-insert k j v rest)

  pub Above-trans : (k j : ℕ) (m : SortedMap V) → k ≤ j → Above j m → Above k m
  Above-trans k j [] h a = tt
  Above-trans k j (entry ∷ rest) h a = (omega (arith, a.0), Above-trans k j rest h a.1)

  Above-insert : (k j : ℕ) (v : V) (m : SortedMap V) → j < k → Above j m → Above j (insert k v m)
  unfolding insert
  Above-insert k j v [] h a = (h, tt)
  Above-insert k j v (entry ∷ rest) h a = ground (arith, Above-insert k j v rest h)

  pub insert-IsSorted : (k : ℕ) (v : V) (m : SortedMap V) → IsSorted m → IsSorted (insert k v m)
  unfolding insert
  insert-IsSorted k v [] s = (tt, tt)
  insert-IsSorted k v (entry ∷ rest) s =
      ground
        (arith, insert-IsSorted k v rest, Above-insert k entry.0 v rest, Above-trans k entry.0 rest)

  pub lookup-Above : (k : ℕ) (m : SortedMap V) → Above k m → lookup k m ≡ none
  unfolding lookup
  lookup-Above k [] a = refl
  lookup-Above k (entry ∷ rest) a = ground (arith, lookup-Above k rest a.1, a.0)

  pub lookup-remove :
      (k j : ℕ) (m : SortedMap V)
      → IsSorted m
      → lookup j (remove k m) ≡ (if k == j then none else lookup j m)
  unfolding lookup remove
  lookup-remove k j [] s = ground arith
  lookup-remove k j (entry ∷ rest) s =
      ground (arith, lookup-remove k j rest s.1, lookup-Above entry.0 rest s.0)

  Above-remove : (k j : ℕ) (m : SortedMap V) → Above j m → Above j (remove k m)
  unfolding remove
  Above-remove k j [] a = tt
  Above-remove k j (entry ∷ rest) a = ground (arith, Above-remove k j rest)

  pub remove-IsSorted : (k : ℕ) (m : SortedMap V) → IsSorted m → IsSorted (remove k m)
  unfolding remove
  remove-IsSorted k [] s = tt
  remove-IsSorted k (entry ∷ rest) s =
      ground (arith, remove-IsSorted k rest, Above-remove k entry.0 rest)

  pub contains_key-lookup :
      (k : ℕ) (m : SortedMap V)
      → contains_key k m ≡ elim (lookup k m) [ none ↦ false | some _ ↦ true ]
  unfolding contains_key lookup
  contains_key-lookup k [] = refl
  contains_key-lookup k (entry ∷ rest) = ground (arith, contains_key-lookup k rest)

  -- A key above all others is inserted at the end.
  pub insert_last :
      (k : ℕ) (v : V) (m : SortedMap V) → All (λ e. e.0 < k) m → insert k v m ≡ m ++ (k, v) ∷ []
  unfolding insert
  insert_last k v [] a = refl
  insert_last k v (entry ∷ rest) a = ground (arith, insert_last k v rest a.1, a.0)

module _ {ℓ κ} {V : Type ℓ} (P : ℕ × V → Type κ) where
  pub All-insert : (k : ℕ) (v : V) (m : SortedMap V) → P (k, v) → All P m → All P (insert k v m)
  unfolding insert
  All-insert k v [] p a = (p, tt)
  All-insert k v (entry ∷ rest) p a = ground (arith, All-insert k v rest p)

  pub All-remove : (k : ℕ) (m : SortedMap V) → All P m → All P (remove k m)
  unfolding remove
  All-remove k [] a = tt
  All-remove k (entry ∷ rest) a = ground (arith, All-remove k rest)

  pub All-weaken {μ} :
      {Q : ℕ × V → Type μ} → ((e : ℕ × V) → P e → Q e) → (m : SortedMap V) → All P m → All Q m
  All-weaken f [] a = tt
  All-weaken f (e ∷ m) a = (f e a.0, All-weaken f m a.1)
