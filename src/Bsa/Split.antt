-- ===== src/Bsa/Split.antt =====
-- hash.rs: `split_name_ext` cuts at the last dot.
use bethkit.Prelude.{ℕ, suc, ◌≡◌, ◌≢◌, refl, sym, ap, subst, arith, ◌==◌}
use bethkit.Prelude.{
  List, [], ◌∷◌, ◌++◌, ◌⊎◌, inl, inr, none, some, All, Bool-cases, drop, take-append-drop,
  append-nil,
}
use bethkit.Bsa.Hash.{rfind, split_at, split_name_ext}

-- No byte of a string is `c`.
abbrev pub Lacks : ℕ → List ℕ → Type 0
Lacks c s = All (λ b. b ≢ c) s

rfind_cases :
    (c : ℕ) (s : List ℕ)
    → ((rfind c s ≡ none) × Lacks c s)
      ⊎ ((pos : ℕ) × (rest : List ℕ) × (rfind c s ≡ some pos)
          × (drop pos s ≡ c ∷ rest)
          × Lacks c rest)
unfolding rfind
rfind_cases c [] = inl (refl, tt)
rfind_cases c (b ∷ bs) = elim (rfind_cases c bs) [
  | inr (pos, rest, found, cut, lacking) ↦ inr (suc pos, rest, rw (found) refl, cut, lacking)
  | inl (missed, lacking) ↦ elim (Bool-cases (b == c)) [
    | inl here ↦
        inr (0, bs, rw (missed, here) refl, ap (λ x. x ∷ bs) (ground (arith, here)), lacking)
    | inr other ↦ inl (rw (missed, other) refl, (ground (arith, other), lacking))
  ]
]

-- The parts make up the filename again, and the second starts with the last dot, if there is one.
abbrev pub Splits : List ℕ → List ℕ × List ℕ → Type 0
Splits filename (stem, extension) =
    (stem ++ extension ≡ filename)
    × (((extension ≡ []) × Lacks 46 filename)
        ⊎ ((rest : List ℕ) × (extension ≡ 46 ∷ rest) × Lacks 46 rest))

-- The stem and the extension make up the filename again. The extension starts with a dot and has no
-- other, or it is empty and the filename has none.
pub split_name_ext-Splits : (filename : List ℕ) → Splits filename (split_name_ext filename)
split_name_ext-Splits filename = elim (rfind_cases 46 filename) [
  | inl (missed, lacking) ↦
      subst (λ o. Splits filename (split_at filename o)) (sym missed)
        (append-nil filename, inl (refl, lacking))
  | inr (pos, rest, found, cut, lacking) ↦
      subst (λ o. Splits filename (split_at filename o)) (sym found)
        (take-append-drop pos filename, inr (rest, cut, lacking))
]
