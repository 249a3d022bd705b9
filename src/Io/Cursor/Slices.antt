-- ===== src/Io/Cursor/Slices.antt =====
-- Slices of a byte string: their lengths, and two that meet.
use bethkit.Prelude.{ℕ, zero, suc, ◌+◌, ◌-◌, ◌≤◌, ◌≡◌, refl, sym, ap, ◌∙◌, arith}
use bethkit.Prelude.{List, [], ◌∷◌, ◌++◌, length, take, drop, length-take, length-drop, drop-drop}
use bethkit.Prelude.{All, All-take, All-drop, take-all}
use bethkit.Io.Bytes.{IsByte}
use bethkit.Io.Cursor.{slice}

take_plus : (m n k : ℕ) (xs : List ℕ) → m + n ≡ k → take m xs ++ take n (drop m xs) ≡ take k xs
take_plus zero n k xs e = ap (λ j. take j xs) (let e' : n ≡ k = omega arith in e')
take_plus (suc m) n zero xs e = absurd (omega arith)
take_plus (suc m) zero (suc k) [] e = refl
take_plus (suc m) (suc n) (suc k) [] e = refl
take_plus (suc m) n (suc k) (x ∷ xs) e = ap (λ r. x ∷ r) (take_plus m n k xs (omega arith))

pub length-slice : (a b : ℕ) (xs : List ℕ) → b ≤ length xs → length (slice a b xs) ≡ b - a
length-slice a b xs h = omega (arith, length-take (b - a) (drop a xs), length-drop a xs)

pub slice_join :
    (a b c : ℕ) (xs : List ℕ) → a ≤ b → b ≤ c → slice a b xs ++ slice b c xs ≡ slice a c xs
slice_join a b c xs h k =
    ap (λ ys. slice a b xs ++ take (c - b) ys) (sym (drop-drop (b - a) a b xs (omega arith)))
    ∙ take_plus (b - a) (c - b) (c - a) (drop a xs) (omega arith)

pub slice_all : (xs : List ℕ) → slice 0 (length xs) xs ≡ xs
slice_all xs = take-all (length xs - 0) xs (omega arith)

pub slice_none : (a : ℕ) (xs : List ℕ) → slice a a xs ≡ []
slice_none a xs = rw (none_left) refl
  where
    none_left : a - a ≡ 0
    none_left = omega arith

pub slice-IsByte : (a b : ℕ) (xs : List ℕ) → All IsByte xs → All IsByte (slice a b xs)
slice-IsByte a b xs h = All-take IsByte (b - a) (drop a xs) (All-drop IsByte a xs h)
