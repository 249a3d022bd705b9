-- ===== src/Bsa/Runs.antt =====
-- The hashes at concrete names.
use bethkit.Prelude.{ℕ, ◌≡◌, refl, arith, List, [], ◌∷◌, ◌++◌}
use bethkit.Bsa.Hash.{
  tes3_second, tes3_first, table_bits, sdbm, rfind, key_byte, hash_tes3, hash_tes4_file,
  split_name_ext, hash_fo4, crc32_table,
}
use bethkit.Bsa.Crc.{remainder, hash_fo4-remainder}
use bethkit.Bsa.Split.{Splits, split_name_ext-Splits}
use bethkit.Bsa.Sdbm.{Words, fields, flags}
use bethkit.Bsa.Words.{hash_tes4_file-Words}

-- "cuirass" and ".nif".
abbrev cuirass : List ℕ
cuirass = 99 ∷ 117 ∷ 105 ∷ 114 ∷ 97 ∷ 115 ∷ 115 ∷ []

abbrev nif : List ℕ
nif = 46 ∷ 110 ∷ 105 ∷ 102 ∷ []

tes4_hash_known_value : hash_tes4_file cuirass nif ≡ 0x0a9125a06307f373
unfolding hash_tes4_file key_byte sdbm
tes4_hash_known_value = refl

tes4_hash_three_char_stem : hash_tes4_file (97 ∷ 98 ∷ 99 ∷ []) nif ≡ 0x92cd45fd6103e263
unfolding hash_tes4_file key_byte sdbm
tes4_hash_three_char_stem = refl

crc32_table_index_one : crc32_table 1 ≡ 0x77073096
unfolding table_bits
crc32_table_index_one = refl

hash_fo4-remainder_example : hash_fo4 (47 ∷ 200 ∷ 65 ∷ []) ≡ remainder (47 ∷ 200 ∷ 65 ∷ []) 0
hash_fo4-remainder_example = hash_fo4-remainder (47 ∷ 200 ∷ 65 ∷ [])

hash_tes4_file-Words_example :
    Words
      (hash_tes4_file (67 ∷ (117 ∷ 105 ∷ [] ++ 114 ∷ 97 ∷ [])) nif)
      (fields 99 114 97 5 0x8000)
      (117 ∷ 105 ∷ [])
      nif
    × Words (hash_tes4_file (67 ∷ 97 ∷ []) nif) (fields 99 0 97 2 0x8000) [] nif
    × Words (hash_tes4_file (97 ∷ []) nif) (fields 97 0 97 1 0x8000) [] nif
    × (hash_tes4_file [] nif ≡ 0)
unfolding flags
hash_tes4_file-Words_example =
    hash_tes4_file-Words nif (omega arith) 67 114 97 (117 ∷ 105 ∷ []) (omega arith) (omega arith)
      (omega arith) (omega arith)

splits_run : split_name_ext (97 ∷ 46 ∷ 98 ∷ 46 ∷ 99 ∷ []) ≡ (97 ∷ 46 ∷ 98 ∷ [], 46 ∷ 99 ∷ [])
unfolding rfind
splits_run = refl

tes3_run : hash_tes3 (97 ∷ 66 ∷ 99 ∷ []) ≡ 0x6180006318
unfolding hash_tes3 tes3_first tes3_second
tes3_run = refl

split_name_ext-Splits_example :
    Splits (97 ∷ 46 ∷ 98 ∷ 46 ∷ 99 ∷ []) (split_name_ext (97 ∷ 46 ∷ 98 ∷ 46 ∷ 99 ∷ []))
split_name_ext-Splits_example = split_name_ext-Splits (97 ∷ 46 ∷ 98 ∷ 46 ∷ 99 ∷ [])
