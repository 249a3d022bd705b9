-- ===== src/Prelude/Bits.antt =====
-- The laws of the native exclusive or and or that the hashes use.
use Prim.Native.Nat.{
  ℕ, zero, suc, ◌+◌, ◌*◌, ◌/◌, ◌%◌, ◌^◌, ◌≤◌, ◌<◌, min, max, bit_and, bit_and-bitwise, bit_or,
  bit_xor, digits, differ, bit_or-bitwise, bit_xor-bitwise,
}
use mathlib.Core.Path.{◌≡◌, refl, sym, ap, ap₂, ◌∙◌}
use mathlib.Core.Logic.{inl, inr}
use mathlib.Core.Bool.{true}
use bethkit.Prelude.Checks.{◌==◌, Bool-cases}
use native.Mathlib.Omega.{arith}

-- An operation digit by digit, which leaves what stands behind the end of the first number to `z`.
module _ (z : ℕ → ℕ) (f : ℕ → ℕ → ℕ) where
  digits_enough :
      (a b wide narrow : ℕ)
      → a ≤ narrow
      → narrow ≤ wide
      → digits z f wide a b ≡ digits z f narrow a b
  digits_enough zero b zero zero room above = refl
  digits_enough zero b (suc wide) zero room above = refl
  digits_enough zero b zero (suc narrow) room above = absurd (omega (arith, above))
  digits_enough zero b (suc wide) (suc narrow) room above = refl
  digits_enough (suc a) b wide zero room above = absurd (omega (arith, room))
  digits_enough (suc a) b zero (suc narrow) room above = absurd (omega (arith, above))
  digits_enough (suc a) b (suc wide) (suc narrow) room above =
      ap (λ high. high * 2 + f (suc a % 2) (b % 2))
        (digits_enough (suc a / 2) (b / 2) wide narrow (omega (arith, room)) (omega (arith, above)))

  digits_halved :
      ((b : ℕ) → z b ≡ z (b / 2) * 2 + f 0 (b % 2))
      → (a b : ℕ) → digits z f a a b ≡ digits z f (a / 2) (a / 2) (b / 2) * 2 + f (a % 2) (b % 2)
  digits_halved behind zero b = behind b
  digits_halved behind (suc a) b =
      ap (λ high. high * 2 + f (suc a % 2) (b % 2))
        (digits_enough (suc a / 2) (b / 2) a (suc a / 2) (omega arith) (omega arith))

pub zero-bit_xor : (b : ℕ) → bit_xor 0 b ≡ b
zero-bit_xor b = bit_xor-bitwise 0 b

differ_sum : (x y : ℕ) → x < 2 → y < 2 → differ x y ≡ (x + y) % 2
differ_sum zero y x_bit y_bit = omega (arith, x_bit, y_bit)
differ_sum (suc zero) zero x_bit y_bit = refl
differ_sum (suc zero) (suc y) x_bit y_bit = omega (arith, x_bit, y_bit)
differ_sum (suc (suc x)) y x_bit y_bit = absurd (omega (arith, x_bit))

pub bit_xor_step : (a b : ℕ) → bit_xor a b ≡ bit_xor (a / 2) (b / 2) * 2 + (a % 2 + b % 2) % 2
bit_xor_step a b = omega (
  arith,
  digits_halved (λ b. b) differ (λ b. omega arith) a b,
  bit_xor-bitwise a b,
  bit_xor-bitwise (a / 2) (b / 2),
  differ_sum (a % 2) (b % 2) (omega arith) (omega arith),
)

pub bit_xor_half : (a b : ℕ) → bit_xor a b / 2 ≡ bit_xor (a / 2) (b / 2)
bit_xor_half a b = omega (arith, bit_xor_step a b)

pub bit_xor_odd : (a b : ℕ) → bit_xor a b % 2 ≡ (a % 2 + b % 2) % 2
bit_xor_odd a b = omega (arith, bit_xor_step a b)

xor_fuel_comm : (n a b : ℕ) → a ≤ n → b ≤ n → bit_xor a b ≡ bit_xor b a
xor_fuel_comm zero zero zero p q = refl
xor_fuel_comm zero (suc a) b p q = absurd (omega arith)
xor_fuel_comm zero zero (suc b) p q = absurd (omega arith)
xor_fuel_comm (suc n) a b p q = omega (
  arith,
  p,
  q,
  bit_xor_step a b,
  bit_xor_step b a,
  xor_fuel_comm n (a / 2) (b / 2) (omega (arith, p)) (omega (arith, q)),
)

pub bit_xor_comm : (a b : ℕ) → bit_xor a b ≡ bit_xor b a
bit_xor_comm a b = xor_fuel_comm (a + b) a b (omega arith) (omega arith)

xor_fuel_assoc : (n a b c : ℕ) → a + b + c ≤ n → bit_xor (bit_xor a b) c ≡ bit_xor a (bit_xor b c)
xor_fuel_assoc zero zero zero zero p = refl
xor_fuel_assoc zero (suc a) b c p = absurd (omega arith)
xor_fuel_assoc zero zero (suc b) c p = absurd (omega arith)
xor_fuel_assoc zero zero zero (suc c) p = absurd (omega arith)
xor_fuel_assoc (suc n) a b c p = elim (Bool-cases (a + b + c == 0)) [
  | inl none_left ↦ all_zero none_left
  | inr some_left ↦
      bit_xor_step (bit_xor a b) c
      ∙ ap₂ (λ h d. h * 2 + d)
          (ap (λ x. bit_xor x (c / 2)) (bit_xor_half a b)
            ∙ xor_fuel_assoc n (a / 2) (b / 2) (c / 2) (ground (arith, p, some_left))
            ∙ sym (ap (bit_xor (a / 2)) (bit_xor_half b c)))
          (omega (arith, bit_xor_odd a b, bit_xor_odd b c))
      ∙ sym (bit_xor_step a (bit_xor b c))
]
  where
    all_zero : (a + b + c == 0) ≡ true → bit_xor (bit_xor a b) c ≡ bit_xor a (bit_xor b c)
    all_zero e =
        ap (λ x. bit_xor (bit_xor x b) c) a_zero
        ∙ ap (λ x. bit_xor x c) (zero-bit_xor b)
        ∙ sym (zero-bit_xor (bit_xor b c))
        ∙ sym (ap (λ x. bit_xor x (bit_xor b c)) a_zero)
      where
        a_zero : a ≡ 0
        a_zero = ground (arith, e)

pub bit_xor_assoc : (a b c : ℕ) → bit_xor (bit_xor a b) c ≡ bit_xor a (bit_xor b c)
bit_xor_assoc a b c = xor_fuel_assoc (a + b + c) a b c (omega arith)

xor_fuel_self : (n a : ℕ) → a ≤ n → bit_xor a a ≡ 0
xor_fuel_self zero zero p = refl
xor_fuel_self zero (suc a) p = absurd (omega arith)
xor_fuel_self (suc n) a p =
    omega (arith, p, bit_xor_step a a, xor_fuel_self n (a / 2) (omega (arith, p)))

pub bit_xor_self : (a : ℕ) → bit_xor a a ≡ 0
bit_xor_self a = xor_fuel_self a a (omega arith)

pub bit_xor_small : (w a b : ℕ) → a < 2 ^ w → b < 2 ^ w → bit_xor a b < 2 ^ w
bit_xor_small zero a b p q = ap₂_bound a b (omega (arith, p)) (omega (arith, q))
  where
    ap₂_bound : (a b : ℕ) → a ≡ 0 → b ≡ 0 → bit_xor a b < 1
    ap₂_bound a b e f = rw (e, f) omega (arith, zero-bit_xor 0)
bit_xor_small (suc w) a b p q = omega (
  arith,
  p,
  q,
  bit_xor_step a b,
  bit_xor_small w (a / 2) (b / 2) (omega (arith, p)) (omega (arith, q)),
)

zero-bit_or : (b : ℕ) → bit_or 0 b ≡ b
zero-bit_or b = bit_or-bitwise 0 b

bit_or_step : (a b : ℕ) → bit_or a b ≡ bit_or (a / 2) (b / 2) * 2 + max (a % 2) (b % 2)
bit_or_step a b =
    bit_or-bitwise a b
    ∙ digits_halved (λ b. b) max (λ b. omega arith) a b
    ∙ ap (λ high. high * 2 + max (a % 2) (b % 2)) (sym (bit_or-bitwise (a / 2) (b / 2)))

or_fuel_comm : (n a b : ℕ) → a ≤ n → b ≤ n → bit_or a b ≡ bit_or b a
or_fuel_comm zero zero zero p q = refl
or_fuel_comm zero (suc a) b p q = absurd (omega arith)
or_fuel_comm zero zero (suc b) p q = absurd (omega arith)
or_fuel_comm (suc n) a b p q = omega (
  arith,
  bit_or_step a b,
  bit_or_step b a,
  or_fuel_comm n (a / 2) (b / 2) (omega (arith, p)) (omega (arith, q)),
)

pub bit_or_comm : (a b : ℕ) → bit_or a b ≡ bit_or b a
bit_or_comm a b = or_fuel_comm (a + b) a b (omega arith) (omega arith)

pub bit_or_small : (w a b : ℕ) → a < 2 ^ w → b < 2 ^ w → bit_or a b < 2 ^ w
bit_or_small zero a b p q = both_none a b (omega (arith, p)) (omega (arith, q))
  where
    both_none : (a b : ℕ) → a ≡ 0 → b ≡ 0 → bit_or a b < 1
    both_none a b e f = rw (e, f) omega (arith, zero-bit_or 0)
bit_or_small (suc w) a b p q = omega (
  arith,
  p,
  q,
  bit_or_step a b,
  bit_or_small w (a / 2) (b / 2) (omega (arith, p)) (omega (arith, q)),
)

twice_product : (a p : ℕ) → a * (p * 2) ≡ a * p * 2
twice_product a p = grind arith

double_power : (w a : ℕ) → a * 2 ^ suc w ≡ a * 2 ^ w * 2
double_power w a = ap (λ p. a * p) power ∙ twice_product a (2 ^ w)
  where
    power : 2 ^ suc w ≡ 2 ^ w * 2
    power = omega arith

-- A number above the digits of another: nothing overlaps.
pub bit_or_above : (w a b : ℕ) → b < 2 ^ w → bit_or (a * 2 ^ w) b ≡ a * 2 ^ w + b
bit_or_above zero a b q = none_below b (omega (arith, q))
  where
    or_fuel_zero : (n a : ℕ) → a ≤ n → bit_or a 0 ≡ a
    or_fuel_zero zero zero p = zero-bit_or 0
    or_fuel_zero zero (suc a) p = absurd (omega arith)
    or_fuel_zero (suc n) a p =
        omega (arith, p, bit_or_step a 0, or_fuel_zero n (a / 2) (omega (arith, p)))

    none_below : (b : ℕ) → b ≡ 0 → bit_or (a * 1) b ≡ a * 1 + b
    none_below b e = rw (e) omega (arith, or_fuel_zero (a * 1) (a * 1) (omega arith))
bit_or_above (suc w) a b q = omega (
  arith,
  q,
  bit_or_step (a * 2 ^ suc w) b,
  bit_or_above w a (b / 2) (omega (arith, q)),
  twice,
  ap (λ x. bit_or x (b / 2)) half,
)
  where
    twice : a * 2 ^ suc w ≡ a * 2 ^ w * 2
    twice = double_power w a

    half : a * 2 ^ suc w / 2 ≡ a * 2 ^ w
    half = omega (arith, twice)

-- So it is for the exclusive or.
pub bit_xor_above : (w a b : ℕ) → b < 2 ^ w → bit_xor (a * 2 ^ w) b ≡ a * 2 ^ w + b
bit_xor_above zero a b q = none_below b (omega (arith, q))
  where
    none_below : (b : ℕ) → b ≡ 0 → bit_xor (a * 1) b ≡ a * 1 + b
    none_below b e = rw (e) omega (arith, bit_xor_comm (a * 1) 0, zero-bit_xor (a * 1))
bit_xor_above (suc w) a b q = omega (
  arith,
  q,
  bit_xor_step (a * 2 ^ suc w) b,
  bit_xor_above w a (b / 2) (omega (arith, q)),
  twice,
  ap (λ x. bit_xor x (b / 2)) half,
)
  where
    twice : a * 2 ^ suc w ≡ a * 2 ^ w * 2
    twice = double_power w a

    half : a * 2 ^ suc w / 2 ≡ a * 2 ^ w
    half = omega (arith, twice)

-- Eight digits of the second cannot reach behind the eighth of the first.
pub bit_xor_behind : (a b : ℕ) → b < 256 → bit_xor a b / 256 ≡ a / 256
bit_xor_behind a b small =
    behind (b / 2 / 2 / 2 / 2 / 2 / 2 / 2 / 2) (omega (arith, small)) ∙ shifted
  where
    behind : (c : ℕ) → c ≡ 0 → bit_xor a b / 256 ≡ a / 2 / 2 / 2 / 2 / 2 / 2 / 2 / 2
    behind c e = omega (
      arith,
      small,
      bit_xor_half a b,
      bit_xor_half (a / 2) (b / 2),
      bit_xor_half (a / 2 / 2) (b / 2 / 2),
      bit_xor_half (a / 2 / 2 / 2) (b / 2 / 2 / 2),
      bit_xor_half (a / 2 / 2 / 2 / 2) (b / 2 / 2 / 2 / 2),
      bit_xor_half (a / 2 / 2 / 2 / 2 / 2) (b / 2 / 2 / 2 / 2 / 2),
      bit_xor_half (a / 2 / 2 / 2 / 2 / 2 / 2) (b / 2 / 2 / 2 / 2 / 2 / 2),
      bit_xor_half (a / 2 / 2 / 2 / 2 / 2 / 2 / 2) (b / 2 / 2 / 2 / 2 / 2 / 2 / 2),
      ap (bit_xor (a / 2 / 2 / 2 / 2 / 2 / 2 / 2 / 2)) none_left,
      bit_xor_comm (a / 2 / 2 / 2 / 2 / 2 / 2 / 2 / 2) 0,
      zero-bit_xor (a / 2 / 2 / 2 / 2 / 2 / 2 / 2 / 2),
    )
      where
        none_left : b / 2 / 2 / 2 / 2 / 2 / 2 / 2 / 2 ≡ 0
        none_left = omega (arith, small)

    shifted : a / 2 / 2 / 2 / 2 / 2 / 2 / 2 / 2 ≡ a / 256
    shifted = omega arith

zero-bit_and : (b : ℕ) → bit_and 0 b ≡ 0
zero-bit_and b = bit_and-bitwise 0 b

bit_and_step : (a b : ℕ) → bit_and a b ≡ bit_and (a / 2) (b / 2) * 2 + min (a % 2) (b % 2)
bit_and_step a b =
    bit_and-bitwise a b
    ∙ digits_halved (λ b. 0) min (λ b. omega arith) a b
    ∙ ap (λ high. high * 2 + min (a % 2) (b % 2)) (sym (bit_and-bitwise (a / 2) (b / 2)))

pub bit_and-one : (a : ℕ) → bit_and a 1 ≡ a % 2
bit_and-one a = omega (arith, bit_and_step a 1, and_zero_fuel (a / 2) (a / 2) (omega arith))
  where
    and_zero_fuel : (n a : ℕ) → a ≤ n → bit_and a 0 ≡ 0
    and_zero_fuel zero zero p = refl
    and_zero_fuel zero (suc a) p = absurd (omega arith)
    and_zero_fuel (suc n) a p =
        omega (arith, p, bit_and_step a 0, and_zero_fuel n (a / 2) (omega (arith, p)))

-- A mask of ones keeps the remainder, one digit at a time.
bit_and_two_ones : (a : ℕ) → bit_and a 3 ≡ a % 4
bit_and_two_ones a = omega (arith, bit_and_step a 3, bit_and-one (a / 2))

bit_and_three_ones : (a : ℕ) → bit_and a 7 ≡ a % 8
bit_and_three_ones a = omega (arith, bit_and_step a 7, bit_and_two_ones (a / 2))

bit_and_four_ones : (a : ℕ) → bit_and a 15 ≡ a % 16
bit_and_four_ones a = omega (arith, bit_and_step a 15, bit_and_three_ones (a / 2))

bit_and_five_ones : (a : ℕ) → bit_and a 31 ≡ a % 32
bit_and_five_ones a = omega (arith, bit_and_step a 31, bit_and_four_ones (a / 2))

bit_and_six_ones : (a : ℕ) → bit_and a 63 ≡ a % 64
bit_and_six_ones a = omega (arith, bit_and_step a 63, bit_and_five_ones (a / 2))

bit_and_seven_ones : (a : ℕ) → bit_and a 127 ≡ a % 128
bit_and_seven_ones a = omega (arith, bit_and_step a 127, bit_and_six_ones (a / 2))

pub bit_and-byte : (a : ℕ) → bit_and a 0xFF ≡ a % 256
bit_and-byte a = omega (arith, bit_and_step a 255, bit_and_seven_ones (a / 2))
