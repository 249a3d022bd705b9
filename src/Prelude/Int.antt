-- ===== src/Prelude/Int.antt =====
-- Signed integers over the native numbers, and the two's complement reading of a bit pattern.
use Prim.Native.Nat.{ℕ, ◌+◌, ◌-◌, ◌*◌, ◌/◌, ◌^◌, ◌<◌}
use mathlib.Core.Bool.{Bool, true, false}
use mathlib.Core.Path.{◌≡◌}
use native.Mathlib.Omega.{arith}
use bethkit.Prelude.Checks.{ltb, ◌==◌, if◌then◌else◌}

-- `negsuc n` is -(n + 1).
pub data ℤ : Type 0 where
  pos : ℕ → ℤ
  negsuc : ℕ → ℤ

-- A pattern of `w + 1` bits read as a signed integer (`i16` at 15, `i32` at 31).
unfoldable pub signed : ℕ → ℕ → ℤ
signed w x = if ltb x (2 ^ w) then pos x else negsuc (2 ^ w + 2 ^ w - 1 - x)

-- The pattern of `w + 1` bits that stands for a signed integer.
unfoldable pub pattern_of : ℕ → ℤ → ℕ
pattern_of w (pos n) = n
pattern_of w (negsuc n) = 2 ^ w + 2 ^ w - 1 - n

-- The pattern comes back from the integer that it was read as.
pub pattern_of-signed : (w x : ℕ) → x < 2 ^ w + 2 ^ w → pattern_of w (signed w x) ≡ x
unfolding pattern_of signed
pattern_of-signed w x h = ground arith

-- `a - b` over the integers.
abbrev pub sub_nat : ℕ → ℕ → ℤ
sub_nat a b = if ltb a b then negsuc (b - a - 1) else pos (a - b)

infixl 60 ◌+ℤ◌ ◌-ℤ◌
abbrev pub ◌+ℤ◌ : ℤ → ℤ → ℤ
pos a +ℤ pos b = pos (a + b)
pos a +ℤ negsuc b = sub_nat a (b + 1)
negsuc a +ℤ pos b = sub_nat b (a + 1)
negsuc a +ℤ negsuc b = negsuc (a + b + 1)

abbrev pub neg : ℤ → ℤ
neg (pos n) = sub_nat 0 n
neg (negsuc n) = pos (n + 1)

abbrev pub ◌-ℤ◌ : ℤ → ℤ → ℤ
a -ℤ b = a +ℤ neg b

infixl 70 ◌*ℤ◌
abbrev pub ◌*ℤ◌ : ℤ → ℤ → ℤ
pos a *ℤ pos b = pos (a * b)
pos a *ℤ negsuc b = sub_nat 0 (a * (b + 1))
negsuc a *ℤ pos b = sub_nat 0 ((a + 1) * b)
negsuc a *ℤ negsuc b = pos ((a + 1) * (b + 1))

-- The quotient rounded towards zero, for a divisor other than zero.
abbrev pub quot : ℤ → ℤ → ℤ
quot (pos a) (pos b) = pos (a / b)
quot (pos a) (negsuc b) = sub_nat 0 (a / (b + 1))
quot (negsuc a) (pos b) = sub_nat 0 ((a + 1) / b)
quot (negsuc a) (negsuc b) = pos ((a + 1) / (b + 1))

abbrev pub int_ltb : ℤ → ℤ → Bool
int_ltb (pos a) (pos b) = ltb a b
int_ltb (pos a) (negsuc b) = false
int_ltb (negsuc a) (pos b) = true
int_ltb (negsuc a) (negsuc b) = ltb b a

abbrev pub int_eq : ℤ → ℤ → Bool
int_eq (pos a) (pos b) = a == b
int_eq (pos a) (negsuc b) = false
int_eq (negsuc a) (pos b) = false
int_eq (negsuc a) (negsuc b) = a == b

-- Whether an integer of `w + 1` bits holds it.
abbrev pub fits : ℕ → ℤ → Bool
fits w (pos n) = ltb n (2 ^ w)
fits w (negsuc n) = ltb n (2 ^ w)
