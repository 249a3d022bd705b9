-- ===== src/Core/Strings/Directory.antt =====
-- strings.rs: `parse_directory`.
use bethkit.Prelude.{ℕ, zero, suc, ◌+◌, ◌-◌, ◌*◌, ◌^◌, min, List, [], ◌∷◌, length, ltb}
use bethkit.Prelude.{if◌then◌else◌}
use bethkit.Prelude.Action.{Action, Outcome, done, fail, convert, pure, ◌>>=◌}
use bethkit.Prelude.Result.{Result, ok, err}
use bethkit.Io.Cursor.{SliceCursor, read_u32}
use bethkit.Io.Cursor
use bethkit.Core.Error.{CoreError, io, invalid_string_table, text}

-- `cursor.read_u32().map_err(map_io)?`
unfoldable pub read_field : Action CoreError SliceCursor ℕ
unfolding read_u32
read_field = convert io read_u32

-- `for _ in 0..count`, which pushes one pair a round.
unfoldable pub directory_loop : ℕ → Action CoreError SliceCursor (List (ℕ × ℕ))
directory_loop zero = pure []
directory_loop (suc n) = do
  id ← read_field
  offset ← read_field
  directory ← directory_loop n
  pure ((id, offset) ∷ directory)

-- The reads of the header, the test on the count, and the loop.
unfoldable pub directory_fields : ℕ → Action CoreError SliceCursor (List (ℕ × ℕ))
directory_fields size = do
  count ← read_field
  _ ← read_field
  if ltb size (8 + min (count * 8) (2 ^ 64 - 1))
      then fail (invalid_string_table (text "directory exceeds file size"))
      else directory_loop count

abbrev pub result_of : {A : Type 0} → Outcome CoreError SliceCursor A → Result CoreError A
result_of (done a c) = ok a
result_of (fail e c) = err e

unfoldable pub parse_directory : List ℕ → Result CoreError (List (ℕ × ℕ))
parse_directory bytes =
    if ltb (length bytes) 8
    then err (invalid_string_table (text "file shorter than 8-byte header"))
    else result_of (directory_fields (length bytes) (Cursor.new bytes))
