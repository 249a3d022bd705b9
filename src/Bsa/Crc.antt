-- ===== src/Bsa/Crc.antt =====
-- hash.rs: the CRC by its table against the CRC bit by bit.
use bethkit.Prelude.{
  ℕ, zero, suc, ◌+◌, ◌*◌, ◌/◌, ◌%◌, ◌^◌, ◌<◌, ◌≡◌, refl, sym, ap, ap₂, ◌∙◌, arith, ltb, ◌==◌,
  if◌then◌else◌,
}
use bethkit.Prelude.{List, [], ◌∷◌, Bool-cases, inl, inr, false}
use bethkit.Prelude.Bits.{
  bit_xor_half, bit_xor_odd, bit_xor_comm, bit_xor_assoc, bit_xor_self, bit_xor_above,
  bit_xor_behind, zero-bit_xor, bit_and-one, bit_and-byte,
}
use Prim.Native.Nat.{bit_and, bit_xor}
use bethkit.Bsa.Hash.{normalised, table_bit, table_bits, crc32_table, fo4_loop, hash_fo4}

-- One round of the division by the reflected polynomial.
abbrev pub crc_bit : ℕ → ℕ
crc_bit c = if c % 2 == 0 then c / 2 else bit_xor 0xEDB88320 (c / 2)

unfoldable pub crc_bits : ℕ → ℕ → ℕ
crc_bits zero c = c
crc_bits (suc n) c = crc_bits n (crc_bit c)

-- The remainder of the ASCII bytes of a string, each taken in and divided bit by bit.
unfoldable pub remainder : List ℕ → ℕ → ℕ
remainder [] r = r
remainder (b ∷ bs) r =
    if ltb 127 b then remainder bs r else remainder bs (crc_bits 8 (bit_xor r (normalised b)))

table_bits-crc_bits : (n c : ℕ) → table_bits n c ≡ crc_bits n c
unfolding table_bits crc_bits
table_bits-crc_bits zero c = refl
table_bits-crc_bits (suc n) c =
    table_bits-crc_bits n (table_bit c)
    ∙ ap (λ d. crc_bits n (if d == 0 then c / 2 else bit_xor 0xEDB88320 (c / 2))) (bit_and-one c)

swap_inner :
    (a b c d : ℕ) → bit_xor (bit_xor a b) (bit_xor c d) ≡ bit_xor (bit_xor a c) (bit_xor b d)
swap_inner a b c d =
    bit_xor_assoc a b (bit_xor c d)
    ∙ ap (bit_xor a)
        (sym (bit_xor_assoc b c d) ∙ ap (λ x. bit_xor x d) (bit_xor_comm b c) ∙ bit_xor_assoc c b d)
    ∙ sym (bit_xor_assoc a c (bit_xor b d))

-- The round by the lowest bit and the others.
round : ℕ → ℕ → ℕ
round zero h = h
round (suc _) h = bit_xor 0xEDB88320 h

crc_bit-round : (c d : ℕ) → c % 2 ≡ d → crc_bit c ≡ round d (c / 2)
unfolding round
crc_bit-round c zero e = ground (arith, e)
crc_bit-round c (suc d) e = ground (arith, e)

round-xor :
    (p q g h : ℕ)
    → p < 2
    → q < 2
    → round ((p + q) % 2) (bit_xor g h) ≡ bit_xor (round p g) (round q h)
unfolding round
round-xor zero zero g h p_bit q_bit = refl
round-xor zero (suc zero) g h p_bit q_bit =
    sym (bit_xor_assoc 0xEDB88320 g h)
    ∙ ap (λ x. bit_xor x h) (bit_xor_comm 0xEDB88320 g)
    ∙ bit_xor_assoc g 0xEDB88320 h
round-xor (suc zero) zero g h p_bit q_bit = sym (bit_xor_assoc 0xEDB88320 g h)
round-xor (suc zero) (suc zero) g h p_bit q_bit =
    sym (zero-bit_xor (bit_xor g h))
    ∙ ap (λ x. bit_xor x (bit_xor g h)) (sym (bit_xor_self 0xEDB88320))
    ∙ swap_inner 0xEDB88320 0xEDB88320 g h
round-xor (suc (suc p)) q g h p_bit q_bit = absurd (omega (arith, p_bit))
round-xor zero (suc (suc q)) g h p_bit q_bit = absurd (omega (arith, q_bit))
round-xor (suc zero) (suc (suc q)) g h p_bit q_bit = absurd (omega (arith, q_bit))

crc_bit-xor : (a b : ℕ) → crc_bit (bit_xor a b) ≡ bit_xor (crc_bit a) (crc_bit b)
crc_bit-xor a b =
    crc_bit-round (bit_xor a b) ((a % 2 + b % 2) % 2) (bit_xor_odd a b)
    ∙ ap (round ((a % 2 + b % 2) % 2)) (bit_xor_half a b)
    ∙ round-xor (a % 2) (b % 2) (a / 2) (b / 2) (omega arith) (omega arith)
    ∙ sym (ap₂ bit_xor (crc_bit-round a (a % 2) refl) (crc_bit-round b (b % 2) refl))

crc_bits-xor : (n a b : ℕ) → crc_bits n (bit_xor a b) ≡ bit_xor (crc_bits n a) (crc_bits n b)
unfolding crc_bits
crc_bits-xor zero a b = refl
crc_bits-xor (suc n) a b =
    ap (crc_bits n) (crc_bit-xor a b) ∙ crc_bits-xor n (crc_bit a) (crc_bit b)

crc_bit_twice : (h : ℕ) → crc_bit (h * 2) ≡ h
crc_bit_twice h = ground arith

-- Eight rounds shift a byte of zeros out.
crc_bits_byte : (h : ℕ) → crc_bits 8 (h * 256) ≡ h
unfolding crc_bits
crc_bits_byte h =
    ap (λ x. crc_bit (crc_bit (crc_bit (crc_bit (crc_bit (crc_bit (crc_bit x))))))) (halve 128)
    ∙ ap (λ x. crc_bit (crc_bit (crc_bit (crc_bit (crc_bit (crc_bit x)))))) (halve 64)
    ∙ ap (λ x. crc_bit (crc_bit (crc_bit (crc_bit (crc_bit x))))) (halve 32)
    ∙ ap (λ x. crc_bit (crc_bit (crc_bit (crc_bit x)))) (halve 16)
    ∙ ap (λ x. crc_bit (crc_bit (crc_bit x))) (halve 8)
    ∙ ap (λ x. crc_bit (crc_bit x)) (halve 4)
    ∙ ap crc_bit (halve 2)
    ∙ crc_bit_last
  where
    halve : (k : ℕ) → crc_bit (h * (k * 2)) ≡ h * k
    halve k = ap crc_bit again ∙ crc_bit_twice (h * k)
      where
        again : h * (k * 2) ≡ h * k * 2
        again = grind arith

    crc_bit_last : crc_bit (h * 2) ≡ h
    crc_bit_last = crc_bit_twice h

-- The entry of the low byte and the others shifted down.
table_step :
    (r c : ℕ)
    → c < 256
    → bit_xor (r / 256) (crc_bits 8 (bit_xor r c % 256)) ≡ crc_bits 8 (bit_xor r c)
table_step r c small =
    ap (λ x. bit_xor x (crc_bits 8 (bit_xor r c % 256))) (sym (crc_bits_byte (r / 256)))
    ∙ sym (crc_bits-xor 8 (r / 256 * 256) (bit_xor r c % 256))
    ∙ ap (crc_bits 8) whole
  where
    whole : bit_xor (r / 256 * 256) (bit_xor r c % 256) ≡ bit_xor r c
    whole = omega (
      arith,
      bit_xor_above 8 (r / 256) (bit_xor r c % 256) (omega arith),
      bit_xor_behind r c small,
    )

normalised_small : (b : ℕ) → ltb 127 b ≡ false → normalised b < 256
normalised_small b ascii = ground (arith, ascii)

fo4_loop-remainder : (s : List ℕ) (r : ℕ) → fo4_loop s r ≡ remainder s r
unfolding fo4_loop remainder
fo4_loop-remainder [] r = refl
fo4_loop-remainder (b ∷ bs) r = elim (Bool-cases (ltb 127 b)) [
  | inl other ↦ rw (other) (fo4_loop-remainder bs r)
  | inr ascii ↦ rw (ascii) (
      fo4_loop-remainder bs
        (bit_xor (r / 2 ^ 8) (crc32_table (bit_and (bit_xor r (normalised b)) 0xFF)))
      ∙ ap (remainder bs) (entry ascii))
]
  where
    entry :
        ltb 127 b ≡ false
        → bit_xor (r / 2 ^ 8) (crc32_table (bit_and (bit_xor r (normalised b)) 0xFF))
          ≡ crc_bits 8 (bit_xor r (normalised b))
    entry ascii =
        ap (bit_xor (r / 256)) (
          table_bits-crc_bits 8 (bit_and (bit_xor r (normalised b)) 0xFF)
          ∙ ap (crc_bits 8) (bit_and-byte (bit_xor r (normalised b))))
        ∙ table_step r (normalised b) (normalised_small b ascii)

-- The hash by the table is the remainder that the division bit by bit leaves: each byte that is
-- ASCII, with `/` read as `\` and no capitals, is taken into the low byte and divided by the
-- reflected polynomial in eight rounds, from 0 and with no inversion of the result.
pub hash_fo4-remainder : (s : List ℕ) → hash_fo4 s ≡ remainder s 0
hash_fo4-remainder s = fo4_loop-remainder s 0
