-- ===== src/Bsa/Words.antt =====
-- hash.rs: the two words of the TES4 hash of a name, by the bytes of the name.
use bethkit.Prelude.{
  ℕ, zero, suc, ◌+◌, ◌-◌, ◌^◌, ◌<◌, ◌≡◌, refl, sym, ap, subst, arith, List, [], ◌∷◌, ◌++◌, length,
  length-append, take-append, All, true, ltb,
}
use bethkit.Io.Bytes.{IsByte}
use mathlib.Core.List.{map}
use bethkit.Bsa.Hash.{to_ascii_lowercase, key_byte, hash_tes4_file}
use bethkit.Bsa.Sdbm.{Reads, Words, fields, flags, lower_small, hash-Words}

map-snoc_two :
    (f : ℕ → ℕ) (ms : List ℕ) (p l : ℕ) → map f (ms ++ p ∷ l ∷ []) ≡ map f ms ++ f p ∷ f l ∷ []
map-snoc_two f [] p l = refl
map-snoc_two f (m ∷ ms) p l = ap (λ xs. f m ∷ xs) (map-snoc_two f ms p l)

length-map : (f : ℕ → ℕ) (ms : List ℕ) → length (map f ms) ≡ length ms
length-map f [] = refl
length-map f (m ∷ ms) = ap suc (length-map f ms)

length-snoc_two : (ms : List ℕ) (p l : ℕ) → length (ms ++ p ∷ l ∷ []) ≡ length ms + 2
length-snoc_two ms p l = length-append ms (p ∷ l ∷ [])

key_byte-behind :
    (ms rest : List ℕ) (i n : ℕ) → i ≡ length ms + n → key_byte i (ms ++ rest) ≡ key_byte n rest
unfolding key_byte
key_byte-behind [] rest i n e = ap (λ j. key_byte j rest) (omega (arith, e))
key_byte-behind (m ∷ ms) rest zero n e = absurd (omega (arith, e))
key_byte-behind (m ∷ ms) rest (suc i) n e = key_byte-behind ms rest i n (omega (arith, e))

Reads-three :
    (first pre last : ℕ) (ms : List ℕ)
    → Reads (first ∷ (ms ++ pre ∷ last ∷ [])) first pre last (length ms + 3) ms
unfolding key_byte
Reads-three first pre last ms = record {
  first_is = refl;
  pre_is = rw (long) (
      key_byte-behind (first ∷ ms) (pre ∷ last ∷ []) (suc (length (ms ++ pre ∷ last ∷ [])) - 2) 0
        (omega (arith, length-snoc_two ms pre last)));
  last_is =
      key_byte-behind (first ∷ ms) (pre ∷ last ∷ []) (suc (length (ms ++ pre ∷ last ∷ [])) - 1) 1
        (omega (arith, length-snoc_two ms pre last));
  len_is = omega (arith, length-snoc_two ms pre last);
  between_is = rw (long) (
      take-append (suc (length (ms ++ pre ∷ last ∷ [])) - 2 - 1) ms (pre ∷ last ∷ [])
        (omega (arith, length-snoc_two ms pre last)));
}
  where
    long : ltb 2 (suc (length (ms ++ pre ∷ last ∷ []))) ≡ true
    long = ground (arith, length-snoc_two ms pre last)

Reads-two : (first last : ℕ) → Reads (first ∷ last ∷ []) first 0 last 2 []
unfolding key_byte
Reads-two first last = record {
  first_is = refl;
  pre_is = refl;
  last_is = refl;
  len_is = refl;
  between_is = refl;
}

Reads-one : (only : ℕ) → Reads (only ∷ []) only 0 only 1 []
unfolding key_byte
Reads-one only = record {
  first_is = refl;
  pre_is = refl;
  last_is = refl;
  len_is = refl;
  between_is = refl;
}

All-map_lower : (bs : List ℕ) → All IsByte bs → All IsByte (map to_ascii_lowercase bs)
All-map_lower [] bytes = tt
All-map_lower (b ∷ bs) bytes = (lower_small b bytes.0, All-map_lower bs bytes.1)

module _ (ext : List ℕ) (ext_bytes : All IsByte ext) where
  -- The hash of a name of fewer than 2^16 bytes and an extension, all in lower case. The low word has
  -- the last byte, above it the last but one if there are three, the length, the first byte in the top
  -- byte, and the flag bits of `.kf`, `.nif`, `.dds` and `.wav`; only the length, from 2^8 on, and
  -- these bits can meet other fields. The high word is the sum, modulo 2^32, of the bytes between the
  -- first and the last two, and of the extension, each read as digits to the base 65599. Names of one
  -- and of two bytes have nothing between, and the empty name hashes to 0.
  pub hash_tes4_file-Words :
      (first pre last : ℕ) (mid : List ℕ)
      → first < 256
      → pre < 256
      → last < 256
      → length mid + 3 < 2 ^ 16
      → Words
          (hash_tes4_file (first ∷ (mid ++ pre ∷ last ∷ [])) ext)
          (fields
            (to_ascii_lowercase first)
            (to_ascii_lowercase pre)
            (to_ascii_lowercase last)
            (length mid + 3)
            (flags (map to_ascii_lowercase ext)))
          (map to_ascii_lowercase mid)
          (map to_ascii_lowercase ext)
        × Words
            (hash_tes4_file (first ∷ last ∷ []) ext)
            (fields
              (to_ascii_lowercase first)
              0
              (to_ascii_lowercase last)
              2
              (flags (map to_ascii_lowercase ext)))
            []
            (map to_ascii_lowercase ext)
        × Words
            (hash_tes4_file (last ∷ []) ext)
            (fields
              (to_ascii_lowercase last)
              0
              (to_ascii_lowercase last)
              1
              (flags (map to_ascii_lowercase ext)))
            []
            (map to_ascii_lowercase ext)
        × (hash_tes4_file [] ext ≡ 0)
  unfolding hash_tes4_file
  hash_tes4_file-Words first pre last mid first_byte pre_byte last_byte short = (
    hash-Words (first ∷ (mid ++ pre ∷ last ∷ [])) ext (map to_ascii_lowercase mid)
        (to_ascii_lowercase first) (to_ascii_lowercase pre) (to_ascii_lowercase last)
        (length mid + 3) bytes (lower_small first first_byte) (lower_small pre pre_byte)
        (lower_small last last_byte) (omega arith) short long_name,
    hash-Words (first ∷ last ∷ []) ext [] (to_ascii_lowercase first) 0 (to_ascii_lowercase last) 2
        bytes (lower_small first first_byte) (omega arith) (lower_small last last_byte)
        (omega arith) (omega arith) (Reads-two _ _),
    hash-Words (last ∷ []) ext [] (to_ascii_lowercase last) 0 (to_ascii_lowercase last) 1 bytes
        (lower_small last last_byte) (omega arith) (lower_small last last_byte) (omega arith)
        (omega arith) (Reads-one _),
    refl,
  )
    where
      bytes : All IsByte (map to_ascii_lowercase ext)
      bytes = All-map_lower ext ext_bytes

      long_name :
          Reads
            (map to_ascii_lowercase (first ∷ (mid ++ pre ∷ last ∷ [])))
            (to_ascii_lowercase first)
            (to_ascii_lowercase pre)
            (to_ascii_lowercase last)
            (length mid + 3)
            (map to_ascii_lowercase mid)
      long_name =
          subst
            (λ n.
              Reads (map to_ascii_lowercase (first ∷ (mid ++ pre ∷ last ∷ [])))
                (to_ascii_lowercase first) (to_ascii_lowercase pre) (to_ascii_lowercase last)
                (n + 3) (map to_ascii_lowercase mid))
            (length-map to_ascii_lowercase mid)
            (subst
              (λ s.
                Reads (to_ascii_lowercase first ∷ s) (to_ascii_lowercase first)
                  (to_ascii_lowercase pre) (to_ascii_lowercase last)
                  (length (map to_ascii_lowercase mid) + 3) (map to_ascii_lowercase mid))
              (sym (map-snoc_two to_ascii_lowercase mid pre last))
              (Reads-three (to_ascii_lowercase first) (to_ascii_lowercase pre)
                (to_ascii_lowercase last) (map to_ascii_lowercase mid)))
