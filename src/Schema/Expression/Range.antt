-- ===== src/Schema/Expression/Range.antt =====
-- expression.rs: the integers that the leaves of an expression read are `i64`.
use bethkit.Prelude.{ℕ, zero, suc, ◌-◌, ◌/◌, ◌≤◌, ◌≡◌, sym, ap, ◌∙◌, subst, arith}
use bethkit.Prelude.{true, List, All, length, some}
use bethkit.Prelude.Int.{ℤ, pos, pattern_of, fits}
use bethkit.Prelude.Result.{ok}
use bethkit.Io.Bytes.{IsByte, from_le_bytes-lt}
use bethkit.Io.Cursor.{slice}
use bethkit.Io.Cursor.Slices.{length-slice, slice-IsByte}
use bethkit.Core.Record.Text.{get_range}
use bethkit.Schema.Expression.Data.{EvalValue, bool, int}
use bethkit.Schema.Expression.Evaluate.{checked, checked_div, ones, count_ones, value_of}

-- An `i64`.
abbrev pub IsWord : ℤ → Type 0
IsWord z = fits 63 z ≡ true

abbrev pub InRange : EvalValue → Type 0
InRange (bool b) = Unit
InRange (int z) = IsWord z

pub checked-IsWord : (z w : ℤ) → checked z ≡ some w → IsWord w
checked-IsWord z w e = ground (arith, e)

pub checked_div-IsWord : (a b w : ℤ) → checked_div a b ≡ some w → IsWord w
checked_div-IsWord a b w e = ground (arith, e)

ones-le : (w n : ℕ) → ones w n ≤ w
unfolding ones
ones-le zero n = omega arith
ones-le (suc w) n = omega (arith, ones-le w (n / 2))

pub count_ones-IsWord : (z : ℤ) → IsWord (pos (count_ones z))
unfolding count_ones
count_ones-IsWord z = ground (arith, ones-le 64 (pattern_of 63 z))

pub value_of-IsWord :
    (width : ℕ) (bytes : List ℕ) (z : ℤ)
    → length bytes ≡ width
    → All IsByte bytes
    → value_of width bytes ≡ ok z
    → IsWord z
unfolding value_of
value_of-IsWord width bytes z long small e =
    ground (arith, e, from_le_bytes-lt width bytes long small)

get_range-some :
    (payload bytes : List ℕ) (start end : ℕ)
    → get_range payload start end ≡ some bytes
    → (end ≤ length payload) × (slice start end payload ≡ bytes)
get_range-some payload bytes start end e = ground (arith, e)

-- The bytes of a range that was given.
pub get_range-IsByte :
    (payload bytes : List ℕ) (start end : ℕ)
    → All IsByte payload
    → get_range payload start end ≡ some bytes
    → (length bytes ≡ end - start) × All IsByte bytes
get_range-IsByte payload bytes start end small e = (
  ap length (sym found.1) ∙ length-slice start end payload found.0,
  subst (All IsByte) found.1 (slice-IsByte start end payload small),
)
  where
    found : (end ≤ length payload) × (slice start end payload ≡ bytes)
    found = get_range-some payload bytes start end e
