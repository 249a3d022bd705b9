-- ===== src/Core/Strings/Runs.antt =====
-- String tables at concrete inputs.
use bethkit.Prelude.{ℕ, ◌≤◌, ◌≡◌, ◌≢◌, ◌⊎◌, refl, arith, [], ◌∷◌, some, none, ◌==◌, if◌then◌else◌}
use bethkit.Prelude.Action.{done, fail}
use bethkit.Prelude.Result.{ok}
use bethkit.Prelude.SortedMap
use bethkit.Io.Bytes.{to_le_bytes}
use bethkit.Core.Error.{CoreError}
use bethkit.Core.Strings.Table.{StringFileKind, StringTable, owned, get, try_insert_new, u32_max}
use bethkit.Core.Strings.Alloc.{IsTable, try_insert_new_cases}
use bethkit.Core.Strings.Directory.{parse_directory, directory_fields, directory_loop, read_field}
use bethkit.Core.Strings.Payload.{from_bytes, parse, entries_loop, read_payload}
use bethkit.Core.Strings.Write.{write_to, write_loop, encode_payload}
use bethkit.Core.Strings.RoundTrip.Wire.{blob_of}
use bethkit.Core.Strings.RoundTrip.Whole.{Fits, SameTable, from_bytes-write_to, parse-write_to}

abbrev two : StringTable
two = record {
  kind = StringFileKind.strings;
  entries = (1, owned (72 ∷ 105 ∷ [])) ∷ (42, owned []) ∷ [];
  next_id = 43;
}

two-IsTable : IsTable two
two-IsTable = omega arith

abbrev three : StringTable
three = record two {
  entries = (1, owned (72 ∷ 105 ∷ [])) ∷ (42, owned []) ∷ (43, owned (9 ∷ [])) ∷ [];
  next_id = 44;
}

try_insert_new_run : try_insert_new (9 ∷ []) two ≡ done 43 three
unfolding try_insert_new SortedMap.insert
try_insert_new_run = refl

two_wire :
    write_to two
    ≡ 2 ∷ 0 ∷ 0 ∷ 0 ∷ 4 ∷ 0 ∷ 0 ∷ 0 ∷ 1 ∷ 0 ∷ 0 ∷ 0 ∷ 0 ∷ 0 ∷ 0 ∷ 0 ∷ 42 ∷ 0 ∷ 0 ∷ 0 ∷ 3 ∷ 0 ∷ 0 ∷ 0
      ∷ 72 ∷ 105 ∷ 0 ∷ 0 ∷ []
unfolding write_to write_loop encode_payload to_le_bytes
two_wire = refl

from_bytes_run :
    from_bytes
      (2 ∷ 0 ∷ 0 ∷ 0 ∷ 4 ∷ 0 ∷ 0 ∷ 0 ∷ 1 ∷ 0 ∷ 0 ∷ 0 ∷ 0 ∷ 0 ∷ 0 ∷ 0 ∷ 42 ∷ 0 ∷ 0 ∷ 0 ∷ 3 ∷ 0 ∷ 0
        ∷ 0 ∷ 72 ∷ 105 ∷ 0 ∷ 0 ∷ [])
      StringFileKind.strings
    ≡ ok two
unfolding from_bytes parse_directory directory_fields directory_loop read_field entries_loop
    read_payload SortedMap.insert
from_bytes_run = refl

try_insert_new_cases_example :
    ((id : ℕ) × (u : StringTable) × (try_insert_new (9 ∷ []) two ≡ done id u)
      × (1 ≤ id)
      × (id ≤ u32_max)
      × (get two id ≡ none)
      × IsTable u
      × ((j : ℕ) → get u j ≡ (if id == j then some (9 ∷ []) else get two j)))
    ⊎ ((e : CoreError) × (try_insert_new (9 ∷ []) two ≡ fail e two)
        × ((k : ℕ) → 1 ≤ k → k ≤ u32_max → get two k ≢ none))
try_insert_new_cases_example = try_insert_new_cases two (9 ∷ []) two-IsTable

two-Fits : Fits two
unfolding blob_of encode_payload
two-Fits = record {
  sorted = omega arith;
  storable = ((omega arith, (omega arith, (omega arith, tt))), ((omega arith, tt), tt));
  few = omega arith;
  small = omega arith;
}

from_bytes-write_to_example :
    (u : StringTable) × (from_bytes (write_to two) StringFileKind.strings ≡ ok u) × SameTable u two
from_bytes-write_to_example = from_bytes-write_to two two-Fits

parse-write_to_example :
    (u : StringTable) × (parse (write_to two) StringFileKind.strings ≡ ok u) × SameTable u two
parse-write_to_example = parse-write_to two two-Fits
