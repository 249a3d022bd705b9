-- ===== src/Core/Strings/Table.antt =====
-- strings.rs: `StringFileKind`, `EntryBytes`, and the operations of `StringTable` in memory.
use bethkit.Prelude.{ℕ, ◌+◌, ◌-◌, ◌^◌, min, max, Bool, true, false}
use bethkit.Prelude.{List, [], ◌∷◌, Option, none, some, ltb, if◌then◌else◌}
use bethkit.Prelude.Action.{Action, done, fail}
use bethkit.Prelude.SortedMap.{SortedMap, contains_key}
use bethkit.Prelude.SortedMap
use bethkit.Io.Cursor.{slice}
use bethkit.Core.Error.{CoreError, invalid_string_table, text}
use mathlib.Core.Option

pub data StringFileKind : Type 0 where
  strings dl_strings il_strings : StringFileKind

unfoldable pub is_length_prefixed : StringFileKind → Bool
is_length_prefixed StringFileKind.strings = false
is_length_prefixed _ = true

pub data EntryBytes : Type 0 where
  borrowed : List ℕ → ℕ → ℕ → EntryBytes
  owned : List ℕ → EntryBytes

abbrev pub as_slice : EntryBytes → List ℕ
as_slice (borrowed source start end) = slice start end source
as_slice (owned v) = v

pub record StringTable : Type 0 where
  pub kind : StringFileKind
  pub entries : SortedMap EntryBytes
  pub next_id : ℕ

abbrev pub new : StringFileKind → StringTable
new kind = record { kind = kind; entries = []; next_id = 1 }

abbrev pub u32_max : ℕ
u32_max = 2 ^ 32 - 1

-- `id.saturating_add(1)`
abbrev pub saturating_succ : ℕ → ℕ
saturating_succ id = min (id + 1) u32_max

-- `if id.saturating_add(1) > next_id { next_id = id.saturating_add(1) }`
abbrev pub bump : ℕ → ℕ → ℕ
bump id next_id = if ltb next_id (saturating_succ id) then saturating_succ id else next_id

unfoldable pub get : StringTable → ℕ → Option (List ℕ)
get t id = Option.map as_slice (SortedMap.lookup id t.entries)

unfoldable pub insert : ℕ → List ℕ → StringTable → StringTable
insert id payload t = record t {
  entries = SortedMap.insert id (owned payload) t.entries;
  next_id = bump id t.next_id;
}

-- The search for the lowest unused identifier, over the keys in ascending order. `none` is the
-- overflow of `id.checked_add(1)`.
unfoldable pub lowest_unused : ℕ → SortedMap EntryBytes → Option ℕ
lowest_unused id [] = some id
lowest_unused id ((existing, b) ∷ rest) =
    let skip = lowest_unused id rest in
    let advance = lowest_unused (id + 1) rest in
    if ltb existing id
    then skip
    else if ltb id existing
    then some id
    else if ltb id u32_max
    then advance
    else none

insert_at : Option ℕ → List ℕ → Action CoreError StringTable ℕ
unfolding insert
insert_at none payload t = fail (invalid_string_table (text "string identifier space exhausted")) t
insert_at (some id) payload t = done id (insert id payload t)

unfoldable pub try_insert_new : List ℕ → Action CoreError StringTable ℕ
unfolding insert_at lowest_unused contains_key
try_insert_new payload t =
    let first = max t.next_id 1 in
    insert_at (if contains_key first t.entries then lowest_unused 1 t.entries else some first)
      payload t

unfoldable pub remove : ℕ → StringTable → Option (List ℕ) × StringTable
unfolding get
remove id t = (get t id, record t { entries = SortedMap.remove id t.entries })
