-- ===== src/Core/Strings/Write.antt =====
-- strings.rs: `write_to`. `as u32` keeps the low 32 bits.
use bethkit.Prelude.{ℕ, ◌+◌, ◌%◌, ◌^◌, List, [], ◌∷◌, ◌++◌, length, if◌then◌else◌}
use bethkit.Prelude.SortedMap.{SortedMap}
use bethkit.Io.Bytes.{to_le_bytes}
use bethkit.Core.Strings.Table.{
  StringFileKind, is_length_prefixed, EntryBytes, as_slice, StringTable,
}

-- What the loop appends to the blob for one payload.
unfoldable pub encode_payload : StringFileKind → List ℕ → List ℕ
unfolding is_length_prefixed
encode_payload kind payload =
    (if is_length_prefixed kind then to_le_bytes 4 ((length payload % 2 ^ 32 + 1) % 2 ^ 32) else [])
    ++ (payload ++ 0 ∷ [])

-- The loop over the entries, with the directory and the blob written so far.
unfoldable pub write_loop :
    StringFileKind → SortedMap EntryBytes → List ℕ → List ℕ → List ℕ × List ℕ
write_loop kind [] directory blob = (directory, blob)
write_loop kind ((id, bytes) ∷ entries) directory blob =
    write_loop kind entries
      (directory ++ (to_le_bytes 4 id ++ to_le_bytes 4 (length blob % 2 ^ 32)))
      (blob ++ encode_payload kind (as_slice bytes))

unfoldable pub write_to : StringTable → List ℕ
write_to t =
    let (directory, blob) = write_loop t.kind t.entries [] [] in
    to_le_bytes 4 (length t.entries % 2 ^ 32)
    ++ (to_le_bytes 4 (length blob % 2 ^ 32) ++ (directory ++ blob))
