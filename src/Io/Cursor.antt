-- ===== src/Io/Cursor.antt =====
-- crates/bethkit-io/src/cursor.rs and error.rs: the bounds-checked little-endian cursor. A slice is
-- a list of bytes, a `&mut self` method an action on the cursor, a `usize` a number below 2 ^ 64,
-- and an `f32` its bit pattern. `&data[a..b]` is `slice a b data`.
pub mod Bounds
pub mod Slices
pub mod Stream
mod Runs
use bethkit.Prelude.{ℕ, ◌+◌, ◌-◌, ◌^◌, Bool, Option, none, some, List, length, take, drop}
use bethkit.Prelude.{get_elem?, get_or, ltb, leb, if◌then◌else◌, String}
use bethkit.Prelude.Result.{Result, ok, err}
use bethkit.Prelude.Int.{ℤ, signed}
use bethkit.Prelude.Action.{Action, done, fail, pure, ◌>>=◌}
use bethkit.Io.Bytes.{from_le_bytes}

pub data IoError : Type 0 where
  io : String → IoError
  unexpected_eof : ℕ → IoError
  decompress : String → IoError
  offset_overflow : ℕ → ℕ → IoError

pub record SliceCursor : Type 0 where
  pub bytes : List ℕ
  pub pos : ℕ

abbrev pub Reads : Type 0 → Type 0
Reads A = Action IoError SliceCursor A

unfoldable pub checked_add : ℕ → ℕ → Option ℕ
checked_add a b = if ltb (a + b) (2 ^ 64) then some (a + b) else none

abbrev pub slice : ℕ → ℕ → List ℕ → List ℕ
slice a b xs = take (b - a) (drop a xs)

abbrev pub new : List ℕ → SliceCursor
new bytes = record { bytes = bytes; pos = 0 }

unfoldable pub from_offset : List ℕ → ℕ → Result IoError SliceCursor
from_offset bytes offset =
    if ltb (length bytes) offset
    then err (unexpected_eof offset)
    else ok (record { bytes = bytes; pos = offset })

unfoldable pub remaining : SliceCursor → ℕ
remaining c = length c.bytes - c.pos

unfoldable pub is_empty : SliceCursor → Bool
is_empty c = leb (length c.bytes) c.pos

-- `N` is the constant parameter, an array the list of its elements.
unfoldable pub read_array : ℕ → Reads (List ℕ)
unfolding checked_add
read_array n c = elim (checked_add c.pos n) [
  | none ↦ fail (offset_overflow c.pos n) c
  | some end ↦
      if ltb (length c.bytes) end
      then fail (unexpected_eof c.pos) c
      else done (slice c.pos end c.bytes) (record c { pos = end })
]

unfoldable pub read_slice : ℕ → Reads (List ℕ)
unfolding checked_add
read_slice len c = elim (checked_add c.pos len) [
  | none ↦ fail (offset_overflow c.pos len) c
  | some end ↦
      if ltb (length c.bytes) end
      then fail (unexpected_eof c.pos) c
      else done (slice c.pos end c.bytes) (record c { pos = end })
]

unfoldable pub read_u8 : Reads ℕ
unfolding read_array
read_u8 = do b ← read_array 1; pure (get_or b 0 0)

unfoldable pub read_u16 : Reads ℕ
unfolding read_array from_le_bytes
read_u16 = do b ← read_array 2; pure (from_le_bytes b)

unfoldable pub read_u32 : Reads ℕ
unfolding read_array from_le_bytes
read_u32 = do b ← read_array 4; pure (from_le_bytes b)

unfoldable pub read_i32 : Reads ℤ
unfolding read_array from_le_bytes signed
read_i32 = do b ← read_array 4; pure (signed 31 (from_le_bytes b))

unfoldable pub read_u64 : Reads ℕ
unfolding read_array from_le_bytes
read_u64 = do b ← read_array 8; pure (from_le_bytes b)

unfoldable pub read_f32 : Reads ℕ
unfolding read_array from_le_bytes
read_f32 = do b ← read_array 4; pure (from_le_bytes b)

unfoldable pub peek_bytes : SliceCursor → ℕ → Option (List ℕ)
unfolding checked_add
peek_bytes c n = elim (checked_add c.pos n) [
  | none ↦ none
  | some end ↦ if ltb (length c.bytes) end then none else some (slice c.pos end c.bytes)
]

unfoldable pub peek_u8 : SliceCursor → Option ℕ
peek_u8 c = get_elem? c.bytes c.pos

unfoldable pub skip : ℕ → Reads (Unit {0})
unfolding checked_add
skip n c = elim (checked_add c.pos n) [
  | none ↦ fail (offset_overflow c.pos n) c
  | some end ↦
      if ltb (length c.bytes) end
      then fail (unexpected_eof c.pos) c
      else done tt (record c { pos = end })
]

unfoldable pub sub_cursor : ℕ → Reads SliceCursor
unfolding read_slice
sub_cursor len = do s ← read_slice len; pure (new s)
