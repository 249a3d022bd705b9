-- ===== src/Prelude/Utf8.antt =====
-- Which byte strings are UTF-8: the test of the language's `from_utf8`.
use Prim.Native.Nat.{ℕ, ◌<◌}
use bethkit.Prelude.Checks.{ltb, leb, if◌then◌else◌}
use bethkit.Prelude.Lists.{All}
use mathlib.Core.Path.{◌≡◌, refl}
use mathlib.Core.Bool.{Bool, true, false, ◌&&◌}
use mathlib.Core.Option.{Option, none, some}
use mathlib.Core.List.{List, [], ◌∷◌}
use native.Mathlib.Omega.{arith}

abbrev tail : ℕ × ℕ
tail = (0x80, 0xbf)

-- The ranges of the bytes that must follow a first byte: overlong forms, surrogates and numbers
-- above 0x10ffff have none.
unfoldable pub following : ℕ → Option (List (ℕ × ℕ))
following b =
    if ltb b 0x80
    then some []
    else if ltb b 0xc2
    then none
    else if ltb b 0xe0
    then some (tail ∷ [])
    else if leb b 0xe0
    then some ((0xa0, 0xbf) ∷ tail ∷ [])
    else if ltb b 0xed
    then some (tail ∷ tail ∷ [])
    else if leb b 0xed
    then some ((0x80, 0x9f) ∷ tail ∷ [])
    else if ltb b 0xf0
    then some (tail ∷ tail ∷ [])
    else if leb b 0xf0
    then some ((0x90, 0xbf) ∷ tail ∷ tail ∷ [])
    else if ltb b 0xf4
    then some (tail ∷ tail ∷ tail ∷ [])
    else if leb b 0xf4
    then some ((0x80, 0x8f) ∷ tail ∷ tail ∷ [])
    else none

-- The test within a character whose other bytes lie in the ranges.
unfoldable pub is_utf8_within : List (ℕ × ℕ) → List ℕ → Bool
unfolding following
is_utf8_within [] [] = true
is_utf8_within (r ∷ rs) [] = false
is_utf8_within [] (b ∷ bs) = elim (following b) [ none ↦ false | some rs ↦ is_utf8_within rs bs ]
is_utf8_within ((low, high) ∷ rs) (b ∷ bs) = (leb low b && leb b high) && is_utf8_within rs bs

unfoldable pub is_utf8 : List ℕ → Bool
unfolding is_utf8_within
is_utf8 bytes = is_utf8_within [] bytes

-- Plain ASCII is UTF-8.
pub is_utf8-ascii : (bytes : List ℕ) → All (λ b. b < 0x80) bytes → is_utf8 bytes ≡ true
unfolding is_utf8
is_utf8-ascii [] ascii = refl
is_utf8-ascii (b ∷ bs) ascii = ground (arith, ascii.0, is_utf8-ascii bs ascii.1)
