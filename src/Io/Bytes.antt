-- ===== src/Io/Bytes.antt =====
-- Little-endian encodings of unsigned integers, the language's `to_le_bytes` and `from_le_bytes`.
use bethkit.Prelude.{ℕ, zero, suc, ◌+◌, ◌*◌, ◌/◌, ◌%◌, ◌^◌, ◌<◌, ◌≡◌, ◌∙◌, refl, ap, ap₂, arith}
use bethkit.Prelude.{List, [], ◌∷◌, length, All}

abbrev pub IsByte : ℕ → Type 0
IsByte b = b < 256

unfoldable pub from_le_bytes : List ℕ → ℕ
from_le_bytes [] = 0
from_le_bytes (b ∷ bs) = b + 256 * from_le_bytes bs

-- The `n` low bytes of `v`, lowest first.
unfoldable pub to_le_bytes : ℕ → ℕ → List ℕ
to_le_bytes zero v = []
to_le_bytes (suc n) v = (v % 256) ∷ to_le_bytes n (v / 256)

pub length-to_le_bytes : (n v : ℕ) → length (to_le_bytes n v) ≡ n
unfolding to_le_bytes
length-to_le_bytes zero v = refl
length-to_le_bytes (suc n) v = ap suc (length-to_le_bytes n (v / 256))

pub to_le_bytes-IsByte : (n v : ℕ) → All IsByte (to_le_bytes n v)
unfolding to_le_bytes
to_le_bytes-IsByte zero v = tt
to_le_bytes-IsByte (suc n) v = (omega arith, to_le_bytes-IsByte n (v / 256))

pub from_le_bytes-to_le_bytes : (n v : ℕ) → v < 256 ^ n → from_le_bytes (to_le_bytes n v) ≡ v
unfolding from_le_bytes to_le_bytes
from_le_bytes-to_le_bytes zero v h = omega arith
from_le_bytes-to_le_bytes (suc n) v h =
    omega (arith, from_le_bytes-to_le_bytes n (v / 256) (omega arith))

pub from_le_bytes-lt :
    (n : ℕ) (bs : List ℕ) → length bs ≡ n → All IsByte bs → from_le_bytes bs < 256 ^ n
unfolding from_le_bytes
from_le_bytes-lt zero [] e h = omega arith
from_le_bytes-lt zero (b ∷ bs) e h = absurd (omega arith)
from_le_bytes-lt (suc n) [] e h = absurd (omega arith)
from_le_bytes-lt (suc n) (b ∷ bs) e h = omega (arith, from_le_bytes-lt n bs (omega arith) h.1, h.0)

pub to_le_bytes-from_le_bytes :
    (n : ℕ) (bs : List ℕ) → length bs ≡ n → All IsByte bs → to_le_bytes n (from_le_bytes bs) ≡ bs
unfolding from_le_bytes to_le_bytes
to_le_bytes-from_le_bytes zero [] e h = refl
to_le_bytes-from_le_bytes zero (b ∷ bs) e h = absurd (omega arith)
to_le_bytes-from_le_bytes (suc n) [] e h = absurd (omega arith)
to_le_bytes-from_le_bytes (suc n) (b ∷ bs) e h =
    ap₂ (λ x xs. x ∷ xs) low
      (ap (to_le_bytes n) high ∙ to_le_bytes-from_le_bytes n bs (omega arith) h.1)
  where
    low : (b + 256 * from_le_bytes bs) % 256 ≡ b
    low = omega (arith, h.0)

    high : (b + 256 * from_le_bytes bs) / 256 ≡ from_le_bytes bs
    high = omega (arith, h.0)
