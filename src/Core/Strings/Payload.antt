-- ===== src/Core/Strings/Payload.antt =====
-- strings.rs: `read_payload`, `from_bytes` and `parse`. A slice of the file is the range that it
-- covers.
use bethkit.Prelude.{ℕ, ◌+◌, ◌-◌, ◌*◌, List, [], ◌∷◌, none, some, length, drop}
use bethkit.Prelude.{String, ltb, leb, ◌==◌, if◌then◌else◌}
use bethkit.Prelude.Result.{Result, ok, err, ◌>>=◌}
use bethkit.Prelude.SortedMap.{SortedMap}
use bethkit.Prelude.SortedMap
use bethkit.Io.Bytes.{from_le_bytes}
use bethkit.Io.Cursor.{slice, checked_add}
use bethkit.Core.Error.{CoreError, invalid_string_table, text}
use bethkit.Core.Strings.Table.{StringFileKind, is_length_prefixed, EntryBytes, borrowed, owned}
use bethkit.Core.Strings.Table.{StringTable, bump}
use bethkit.Core.Strings.Directory.{parse_directory}

abbrev pub invalid : {A : Type 0} → String → Result CoreError A
invalid message = err (invalid_string_table (text message))

-- The scan for the NUL, over the bytes from `end` on.
unfoldable pub scan_nul : List ℕ → ℕ → ℕ
scan_nul [] end = end
scan_nul (b ∷ bs) end = let next = scan_nul bs (end + 1) in if b == 0 then end else next

-- The end of a length-prefixed payload.
prefixed_range : List ℕ → ℕ → ℕ → Result CoreError (ℕ × ℕ)
unfolding checked_add
prefixed_range bytes start size =
    if size == 0 then ok (start + 4, start + 4) else elim (checked_add (start + 4) size) [
      | none ↦ invalid "length overflow"
      | some end ↦
          if ltb (length bytes) end then invalid "payload exceeds file" else ok (start + 4, end - 1)
    ]

unfoldable pub read_payload : List ℕ → ℕ → StringFileKind → Result CoreError (ℕ × ℕ)
unfolding scan_nul prefixed_range is_length_prefixed
read_payload bytes start kind =
    if leb (length bytes) start
    then invalid "payload offset out of range"
    else if is_length_prefixed kind
    then (if ltb (length bytes) (start + 4)
        then invalid "truncated length prefix"
        else prefixed_range bytes start (from_le_bytes (slice start (start + 4) bytes)))
    else (let end = scan_nul (drop start bytes) start in
        if leb (length bytes) end then invalid "zstring missing NUL" else ok (start, end))

-- The loop over the directory. `make` turns a payload's range into the entry: `from_bytes` copies
-- it, and `parse` keeps it.
unfoldable pub entries_loop :
    (ℕ × ℕ → EntryBytes)
    → List ℕ
    → StringFileKind
    → ℕ
    → List (ℕ × ℕ)
    → SortedMap EntryBytes
    → ℕ
    → Result CoreError (SortedMap EntryBytes × ℕ)
entries_loop make bytes kind blob_start [] entries next_id = ok (entries, next_id)
entries_loop make bytes kind blob_start ((id, offset) ∷ directory) entries next_id =
    elim (checked_add blob_start offset) [
      | none ↦ invalid "offset overflow"
      | some entry_start ↦ do
        range ← read_payload bytes entry_start kind
        entries_loop make bytes kind blob_start directory (SortedMap.insert id (make range) entries)
            (bump id next_id)
    ]

abbrev pub copied : List ℕ → ℕ × ℕ → EntryBytes
copied bytes range = owned (slice range.0 range.1 bytes)

abbrev pub kept : List ℕ → ℕ × ℕ → EntryBytes
kept source range = borrowed source range.0 range.1

table_of : StringFileKind → SortedMap EntryBytes × ℕ → StringTable
table_of kind (entries, next_id) = record { kind = kind; entries = entries; next_id = next_id }

unfoldable pub from_bytes : List ℕ → StringFileKind → Result CoreError StringTable
unfolding table_of
from_bytes bytes kind = do
  directory ← parse_directory bytes
  r ← entries_loop (copied bytes) bytes kind (8 + length directory * 8) directory [] 1
  ok (table_of kind r)

unfoldable pub parse : List ℕ → StringFileKind → Result CoreError StringTable
unfolding table_of
parse source kind = do
  directory ← parse_directory source
  r ← entries_loop (kept source) source kind (8 + length directory * 8) directory [] 1
  ok (table_of kind r)
