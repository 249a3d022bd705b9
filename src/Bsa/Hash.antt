-- ===== src/Bsa/Hash.antt =====
-- hash.rs: the hashes that index the files of an archive. A string is the list of its UTF-8 bytes.
-- The one sum that is not written as wrapping wraps here, as it does in a release build.
use bethkit.Prelude.{ℕ, zero, suc, ◌+◌, ◌-◌, ◌*◌, ◌/◌, ◌%◌, ◌^◌, ltb, leb, ◌==◌, if◌then◌else◌}
use bethkit.Prelude.{List, [], ◌∷◌, length, Option, none, some, ◌&&◌, take, drop}
use mathlib.Core.List.{map}
use Prim.Native.Nat.{bit_and, bit_or, bit_xor}

-- u32 arithmetic.
abbrev pub wrapping_add : ℕ → ℕ → ℕ
wrapping_add a b = (a + b) % 2 ^ 32

abbrev pub wrapping_sub : ℕ → ℕ → ℕ
wrapping_sub a b = (a + 2 ^ 32 - b) % 2 ^ 32

abbrev pub wrapping_shl : ℕ → ℕ → ℕ
wrapping_shl a n = a * 2 ^ (n % 32) % 2 ^ 32

abbrev pub rotate_right : ℕ → ℕ → ℕ
rotate_right a n = a / 2 ^ n + a * 2 ^ (32 - n) % 2 ^ 32

abbrev pub to_ascii_lowercase : ℕ → ℕ
to_ascii_lowercase b = if leb 65 b && leb b 90 then b + 32 else b

unfoldable pub tes3_first : List ℕ → ℕ → ℕ → ℕ
tes3_first [] sum off = sum
tes3_first (b ∷ bs) sum off =
    tes3_first bs (bit_xor sum (wrapping_shl b (bit_and off 0x1F))) (wrapping_add off 8)

unfoldable pub tes3_second : List ℕ → ℕ → ℕ → ℕ
tes3_second [] sum off = sum
tes3_second (b ∷ bs) sum off =
    tes3_second bs
      (rotate_right (bit_xor sum (wrapping_shl b (bit_and off 0x1F)))
        (bit_and (wrapping_shl b (bit_and off 0x1F)) 0x1F))
      (wrapping_add off 8)

unfoldable pub hash_tes3 : List ℕ → ℕ
hash_tes3 filename =
    let s = map to_ascii_lowercase filename in
    bit_or (tes3_first (take (length s / 2) s) 0 0 * 2 ^ 32)
      (tes3_second (drop (length s / 2) s) 0 0)

-- A byte of the four that the key takes, 0 behind the end.
unfoldable pub key_byte : ℕ → List ℕ → ℕ
key_byte i [] = 0
key_byte zero (b ∷ bs) = b
key_byte (suc i) (b ∷ bs) = key_byte i bs

abbrev pub ext_key : List ℕ → ℕ
ext_key e = key_byte 0 e + key_byte 1 e * 2 ^ 8 + key_byte 2 e * 2 ^ 16 + key_byte 3 e * 2 ^ 24

abbrev pub ext_bits : ℕ → ℕ
ext_bits key =
    if key == 0x00666B2E
    then 0x80
    else if key == 0x66696E2E
    then 0x8000
    else if key == 0x7364642E
    then 0x8080
    else if key == 0x7661772E
    then 0x80000000
    else 0

unfoldable pub sdbm : List ℕ → ℕ → ℕ
sdbm [] hash = hash
sdbm (b ∷ bs) hash =
    sdbm bs (
      wrapping_sub (wrapping_add (wrapping_add b (wrapping_shl hash 6)) (wrapping_shl hash 16))
        hash)

-- The bytes between the first and the last two.
abbrev pub interior : List ℕ → List ℕ
interior s = if ltb 2 (length s) then take (length s - 2 - 1) (drop 1 s) else []

-- What `result` holds before the hash of the characters is added.
abbrev pub packed : List ℕ → List ℕ → ℕ
packed s e =
    bit_or
      (bit_or
        (bit_or
          (if ltb 2 (length s)
            then bit_or (key_byte (length s - 1) s) (key_byte (length s - 2) s * 2 ^ 8)
            else key_byte (length s - 1) s)
          (length s * 2 ^ 16))
        (key_byte 0 s * 2 ^ 24))
      (ext_bits (ext_key e))

unfoldable pub hash_tes4_file : List ℕ → List ℕ → ℕ
hash_tes4_file name ext =
    let s = map to_ascii_lowercase name in
    let e = map to_ascii_lowercase ext in
    if length s == 0
    then 0
    else (packed s e + wrapping_add (sdbm (interior s) 0) (sdbm e 0) * 2 ^ 32) % 2 ^ 64

abbrev pub hash_tes4_dir : List ℕ → ℕ
hash_tes4_dir dir_path = hash_tes4_file dir_path []

-- `rfind`.
unfoldable pub rfind : ℕ → List ℕ → Option ℕ
rfind c [] = none
rfind c (b ∷ bs) = rfind_behind c b (rfind c bs)
  where
    rfind_behind : ℕ → ℕ → Option ℕ → Option ℕ
    rfind_behind c b (some pos) = some (suc pos)
    rfind_behind c b none = if b == c then some 0 else none

abbrev pub split_at : List ℕ → Option ℕ → List ℕ × List ℕ
split_at filename (some pos) = (take pos filename, drop pos filename)
split_at filename none = (filename, [])

abbrev pub split_name_ext : List ℕ → List ℕ × List ℕ
split_name_ext filename = split_at filename (rfind 46 filename)

-- One of the eight rounds behind an entry of the table.
abbrev pub table_bit : ℕ → ℕ
table_bit c = if bit_and c 1 == 0 then c / 2 else bit_xor 0xEDB88320 (c / 2)

unfoldable pub table_bits : ℕ → ℕ → ℕ
table_bits zero c = c
table_bits (suc n) c = table_bits n (table_bit c)

-- The entry of the table at an index.
abbrev pub crc32_table : ℕ → ℕ
crc32_table i = table_bits 8 i

abbrev pub normalised : ℕ → ℕ
normalised b = if b == 47 then 92 else to_ascii_lowercase b

unfoldable pub fo4_loop : List ℕ → ℕ → ℕ
fo4_loop [] result = result
fo4_loop (b ∷ bs) result =
    if ltb 127 b
    then fo4_loop bs result
    else fo4_loop bs
        (bit_xor (result / 2 ^ 8) (crc32_table (bit_and (bit_xor result (normalised b)) 0xFF)))

abbrev pub hash_fo4 : List ℕ → ℕ
hash_fo4 s = fo4_loop s 0
