-- ===== src/Bsa/Sdbm.antt =====
-- hash.rs: what the two halves of the TES4 hash hold.
use bethkit.Prelude.{
  ℕ, ◌+◌, ◌-◌, ◌*◌, ◌/◌, ◌%◌, ◌^◌, ◌<◌, ◌≡◌, refl, ap, ◌∙◌, arith, ltb, ◌==◌, if◌then◌else◌,
}
use bethkit.Prelude.{sym, inl, inr, Bool-cases, ◌&&◌, List, [], ◌∷◌, length, All, true, false}
use bethkit.Prelude.Bits.{bit_or_small, bit_or_comm, bit_or_above}
use bethkit.Io.Bytes.{IsByte}
use mathlib.Core.List.{map}
use Prim.Native.Nat.{bit_or}
use bethkit.Bsa.Hash.{
  to_ascii_lowercase, wrapping_add, wrapping_sub, wrapping_shl, key_byte, ext_key, ext_bits, sdbm,
  interior, packed, hash_tes4_file,
}

-- A string of bytes as the digits of a number to the base 65599, the first the highest, behind `h`.
unfoldable pub horner : List ℕ → ℕ → ℕ
horner [] h = h
horner (b ∷ bs) h = horner bs (b + 65599 * h)

horner_alike :
    (bs : List ℕ) (a b : ℕ) → a % 2 ^ 32 ≡ b % 2 ^ 32 → horner bs a % 2 ^ 32 ≡ horner bs b % 2 ^ 32
unfolding horner
horner_alike [] a b e = e
horner_alike (c ∷ cs) a b e = horner_alike cs (c + 65599 * a) (c + 65599 * b) (omega (arith, e))

sdbm_round :
    (b h : ℕ)
    → h < 2 ^ 32
    → wrapping_sub (wrapping_add (wrapping_add b (wrapping_shl h 6)) (wrapping_shl h 16)) h
      ≡ (b + 65599 * h) % 2 ^ 32
sdbm_round b h small = omega (arith, small)

sdbm-horner : (bs : List ℕ) (h : ℕ) → h < 2 ^ 32 → sdbm bs h ≡ horner bs h % 2 ^ 32
unfolding sdbm horner
sdbm-horner [] h small = omega (arith, small)
sdbm-horner (b ∷ bs) h small =
    sdbm-horner bs _ (omega arith)
    ∙ horner_alike bs _ (b + 65599 * h) (omega (arith, sdbm_round b h small))

pub lower_small : (b : ℕ) → b < 256 → to_ascii_lowercase b < 256
lower_small b small = ground (arith, small)

ext_bits_small : (key : ℕ) → ext_bits key < 2 ^ 32
ext_bits_small key = ground arith

-- The bits that the source's comments give the known extensions, by the first four bytes.
unfoldable pub flags : List ℕ → ℕ
flags (a ∷ b ∷ c ∷ d ∷ rest) =
    if (a == 46) && ((b == 107) && ((c == 102) && (d == 0)))
    then 0x80
    else if (a == 46) && ((b == 110) && ((c == 105) && (d == 102)))
    then 0x8000
    else if (a == 46) && ((b == 100) && ((c == 100) && (d == 115)))
    then 0x8080
    else if (a == 46) && ((b == 119) && ((c == 97) && (d == 118)))
    then 0x80000000
    else 0
flags (a ∷ b ∷ c ∷ []) = if (a == 46) && ((b == 107) && (c == 102)) then 0x80 else 0
flags _ = 0

-- A key is that of four bytes exactly where the bytes are the same.
key_same :
    (a b c d k l m n : ℕ)
    → a < 256
    → b < 256
    → c < 256
    → d < 256
    → k < 256
    → l < 256
    → m < 256
    → n < 256
    → (a + b * 2 ^ 8 + c * 2 ^ 16 + d * 2 ^ 24 == k + l * 2 ^ 8 + m * 2 ^ 16 + n * 2 ^ 24)
      ≡ ((a == k) && ((b == l) && ((c == m) && (d == n))))
key_same a b c d k l m n pa pb pc pd pk pl pm pn = ground arith

ext_bits-flags : (e : List ℕ) → All IsByte e → ext_bits (ext_key e) ≡ flags e
unfolding key_byte flags
ext_bits-flags [] bytes = refl
ext_bits-flags (a ∷ []) bytes = ground (arith, bytes)
ext_bits-flags (a ∷ b ∷ []) bytes = ground (arith, bytes)
ext_bits-flags (a ∷ b ∷ c ∷ []) bytes = ground (arith, bytes)
ext_bits-flags (a ∷ b ∷ c ∷ d ∷ rest) (pa, (pb, (pc, (pd, more)))) =
    rw
      (
        key_same a b c d 0x2E 0x6B 0x66 0 pa pb pc pd (omega arith) (omega arith) (omega arith)
            (omega arith),
        key_same a b c d 0x2E 0x6E 0x69 0x66 pa pb pc pd (omega arith) (omega arith) (omega arith)
            (omega arith),
        key_same a b c d 0x2E 0x64 0x64 0x73 pa pb pc pd (omega arith) (omega arith) (omega arith)
            (omega arith),
        key_same a b c d 0x2E 0x77 0x61 0x76 pa pb pc pd (omega arith) (omega arith) (omega arith)
            (omega arith),
      )
      refl

-- The low word from the first byte, the last and the one before it, the length and the flags.
abbrev pub fields : ℕ → ℕ → ℕ → ℕ → ℕ → ℕ
fields first pre last len flag_bits =
    bit_or (bit_or (last + pre * 2 ^ 8 + len * 2 ^ 16) (first * 2 ^ 24)) flag_bits

fields_small :
    (first pre last len flag_bits : ℕ)
    → first < 256
    → pre < 256
    → last < 256
    → len < 2 ^ 16
    → flag_bits < 2 ^ 32
    → fields first pre last len flag_bits < 2 ^ 32
fields_small first pre last len flag_bits first_byte pre_byte last_byte short small =
    bit_or_small 32 _ _ (bit_or_small 32 _ _ (omega arith) (omega arith)) small

-- The three lowest fields do not overlap.
joined_fields :
    (first pre last len flag_bits : ℕ)
    → pre < 256
    → last < 256
    → bit_or (bit_or (bit_or (bit_or last (pre * 2 ^ 8)) (len * 2 ^ 16)) (first * 2 ^ 24)) flag_bits
      ≡ fields first pre last len flag_bits
joined_fields first pre last len flag_bits pre_byte last_byte =
    ap (λ low. bit_or (bit_or low (first * 2 ^ 24)) flag_bits)
      (bit_or_comm (bit_or last (pre * 2 ^ 8)) (len * 2 ^ 16)
        ∙ bit_or_above 16 len (bit_or last (pre * 2 ^ 8)) (omega (arith, two_low))
        ∙ omega (arith, two_low))
  where
    two_low : bit_or last (pre * 2 ^ 8) ≡ pre * 2 ^ 8 + last
    two_low = bit_or_comm last (pre * 2 ^ 8) ∙ bit_or_above 8 pre last last_byte

-- What is read of a name in lower case.
pub record Reads (s : List ℕ) (first pre last len : ℕ) (between : List ℕ) : Type 0 where
  pub first_is : key_byte 0 s ≡ first
  pub pre_is : (if ltb 2 (length s) then key_byte (length s - 2) s else 0) ≡ pre
  pub last_is : key_byte (length s - 1) s ≡ last
  pub len_is : length s ≡ len
  pub between_is : interior s ≡ between

or_none : (a : ℕ) → a < 2 ^ 8 → a ≡ bit_or a 0
or_none a small = omega (arith, bit_or_comm a 0, bit_or_above 8 0 a small)

packed-fields :
    (s e between : List ℕ) (first pre last len : ℕ)
    → pre < 256
    → last < 256
    → Reads s first pre last len between
    → packed s e ≡ fields first pre last len (ext_bits (ext_key e))
packed-fields s e between first pre last len pre_byte last_byte r =
    elim (Bool-cases (ltb 2 (length s))) [
      | inl long ↦
          rw (long, r.last_is, before long, r.len_is, r.first_is)
            (joined_fields first pre last len (ext_bits (ext_key e)) pre_byte last_byte)
      | inr brief ↦
          rw (brief, r.last_is, r.len_is, r.first_is)
            (ap
                (λ low.
                  bit_or (bit_or (bit_or low (len * 2 ^ 16)) (first * 2 ^ 24))
                    (ext_bits (ext_key e)))
                (or_none last last_byte)
              ∙ ap
                  (λ p.
                    bit_or
                      (bit_or (bit_or (bit_or last (p * 2 ^ 8)) (len * 2 ^ 16)) (first * 2 ^ 24))
                      (ext_bits (ext_key e)))
                  (none_before brief)
              ∙ joined_fields first pre last len (ext_bits (ext_key e)) pre_byte last_byte)
    ]
  where
    before : ltb 2 (length s) ≡ true → key_byte (length s - 2) s ≡ pre
    before long = sym (rw (long) refl) ∙ r.pre_is

    none_before : ltb 2 (length s) ≡ false → 0 ≡ pre
    none_before brief = sym (rw (brief) refl) ∙ r.pre_is

-- The words of a hash.
abbrev pub Words : ℕ → ℕ → List ℕ → List ℕ → Type 0
Words hash low between e =
    (hash % 2 ^ 32 ≡ low) × (hash / 2 ^ 32 ≡ (horner between 0 + horner e 0) % 2 ^ 32)

-- The high word is added where the low one has no bits.
pub hash-Words :
    (name ext between : List ℕ) (first pre last len : ℕ)
    → All IsByte (map to_ascii_lowercase ext)
    → first < 256
    → pre < 256
    → last < 256
    → 0 < len
    → len < 2 ^ 16
    → Reads (map to_ascii_lowercase name) first pre last len between
    → Words
        (hash_tes4_file name ext)
        (fields first pre last len (flags (map to_ascii_lowercase ext)))
        between
        (map to_ascii_lowercase ext)
unfolding hash_tes4_file
hash-Words name ext between first pre last len ext_bytes first_byte pre_byte last_byte some_byte
      short r =
    (omega (arith, whole, low, small, high), omega (arith, whole, low, small, high))
  where
    s : List ℕ
    s = map to_ascii_lowercase name

    e : List ℕ
    e = map to_ascii_lowercase ext

    low : packed s e ≡ fields first pre last len (flags e)
    low =
        packed-fields s e between first pre last len pre_byte last_byte r
        ∙ ap (fields first pre last len) (ext_bits-flags e ext_bytes)

    small : fields first pre last len (flags e) < 2 ^ 32
    small =
        fields_small first pre last len (flags e) first_byte pre_byte last_byte short
          (omega (arith, ext_bits-flags e ext_bytes, ext_bits_small (ext_key e)))

    high : wrapping_add (sdbm (interior s) 0) (sdbm e 0) ≡ (horner between 0 + horner e 0) % 2 ^ 32
    high = omega (
      arith,
      sdbm-horner (interior s) 0 (omega arith),
      sdbm-horner e 0 (omega arith),
      ap (λ bs. horner bs 0) r.between_is,
    )

    nonempty : (length s == 0) ≡ false
    nonempty = ground (arith, some_byte, r.len_is)

    whole :
        hash_tes4_file name ext
        ≡ (packed s e + wrapping_add (sdbm (interior s) 0) (sdbm e 0) * 2 ^ 32) % 2 ^ 64
    whole = rw (nonempty) refl
