-- ===== src/Io/Cursor/Bounds.antt =====
-- No method of the cursor leaves the slice: the position stays within it, and a failure moves
-- nothing.
use bethkit.Prelude.{ℕ, ◌+◌, ◌^◌, ◌≤◌, ◌<◌, ◌≡◌, refl, ◌⊎◌, arith, List, [], ◌∷◌, length}
use bethkit.Prelude.Action.{Outcome, done, fail, final}
use bethkit.Io.Cursor
use bethkit.Io.Cursor.{IoError, unexpected_eof, offset_overflow, SliceCursor, Reads}
use bethkit.Io.Cursor.{read_u8, read_u16, read_u32, read_i32, read_u64, read_f32}
use bethkit.Io.Cursor.{read_array, read_slice, sub_cursor}

-- A slice has at most `isize::MAX` bytes.
pub record IsValid (c : SliceCursor) : Type 0 where
  pub within : c.pos ≤ length c.bytes
  pub small : length c.bytes < 2 ^ 63

-- The methods that move the cursor.
pub data Method : Type 0 where
  u8 u16 u32 i32 u64 f32 : Method
  array slice skip sub : ℕ → Method

unfoldable pub width : Method → ℕ
width u8 = 1
width u16 = 2
width u64 = 8
width (array n) = n
width (slice n) = n
width (skip n) = n
width (sub n) = n
width _ = 4

abbrev pub forget :
    {A : Type 0} → Outcome IoError SliceCursor A → Outcome IoError SliceCursor (Unit {0})
forget (done a c) = done tt c
forget (fail e c) = fail e c

-- A call of the method, its result forgotten.
unfoldable pub run : Method → Reads (Unit {0})
unfolding read_u8 read_u16 read_u32 read_i32 read_u64 read_f32 read_array read_slice Cursor.skip
    sub_cursor
run u8 c = forget (read_u8 c)
run u16 c = forget (read_u16 c)
run u32 c = forget (read_u32 c)
run i32 c = forget (read_i32 c)
run u64 c = forget (read_u64 c)
run f32 c = forget (read_f32 c)
run (array n) c = forget (read_array n c)
run (slice n) c = forget (read_slice n c)
run (skip n) c = Cursor.skip n c
run (sub n) c = forget (sub_cursor n c)

abbrev pub advance : ℕ → SliceCursor → SliceCursor
advance n c = record c { pos = c.pos + n }

-- A method either moves the cursor by its width, which the rest of the slice holds, or fails
-- because the rest is shorter, and leaves the cursor where it was.
pub run_moves :
    (m : Method) (c : SliceCursor)
    → IsValid c
    → ((run m c ≡ done tt (advance (width m) c)) × (c.pos + width m ≤ length c.bytes))
      ⊎ ((length c.bytes < c.pos + width m)
          × ((run m c ≡ fail (unexpected_eof c.pos) c)
              ⊎ (run m c ≡ fail (offset_overflow c.pos (width m)) c)))
unfolding run width
run_moves u8 c v = ground arith
run_moves _ c v = ground arith

-- Any sequence of calls, whether or not one of them fails.
unfoldable pub run_all : List Method → SliceCursor → SliceCursor
run_all [] c = c
run_all (m ∷ ms) c = run_all ms (final (run m c))

-- After any calls the slice is the same and the position is within it, at or behind where it was.
pub run_all-IsValid :
    (ms : List Method) (c : SliceCursor)
    → IsValid c
    → IsValid (run_all ms c) × ((run_all ms c).bytes ≡ c.bytes) × (c.pos ≤ (run_all ms c).pos)
unfolding run_all
run_all-IsValid [] c v = (v, refl, omega arith)
run_all-IsValid (m ∷ ms) c v = ground (arith, run_moves m c v, run_all-IsValid ms (final (run m c)))
