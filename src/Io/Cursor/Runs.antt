-- ===== src/Io/Cursor/Runs.antt =====
-- The cursor at concrete inputs.
use bethkit.Prelude.{◌+◌, ◌-◌, ◌^◌, ◌≤◌, ◌<◌, ◌≡◌, refl, ◌⊎◌, arith, List, [], ◌∷◌, some, none}
use bethkit.Prelude.Action.{done, fail}
use bethkit.Io.Bytes.{to_le_bytes}
use bethkit.Io.Cursor.{
  SliceCursor, peek_bytes, read_u16, read_u32, read_slice, unexpected_eof, offset_overflow,
}
use bethkit.Io.Cursor
use bethkit.Io.Cursor.Bounds.{
  IsValid, Method, run, run_all, width, advance, run_moves, run_all-IsValid,
}
use bethkit.Io.Cursor.Stream.{Parses, read_u32-Parses, read_slice-Parses, peek_bytes-read_slice}

abbrev eight : SliceCursor
eight = Cursor.new (1 ∷ 2 ∷ 3 ∷ 4 ∷ 5 ∷ 6 ∷ 7 ∷ 8 ∷ [])

eight-IsValid : IsValid eight
eight-IsValid = omega arith

read_u16_run : read_u16 eight ≡ done 0x0201 (advance 2 eight)
unfolding read_u16
read_u16_run = refl

read_past_end : read_slice 9 eight ≡ fail (unexpected_eof 0) eight
unfolding read_slice
read_past_end = refl

read_overflow :
    read_slice (2 ^ 64 - 1) (advance 1 eight)
    ≡ fail (offset_overflow 1 (2 ^ 64 - 1)) (advance 1 eight)
unfolding read_slice
read_overflow = refl

run_moves_example :
    ((run Method.u32 eight ≡ done tt (advance (width Method.u32) eight))
      × (0 + width Method.u32 ≤ 8))
    ⊎ ((8 < 0 + width Method.u32)
        × ((run Method.u32 eight ≡ fail (unexpected_eof 0) eight)
            ⊎ (run Method.u32 eight ≡ fail (offset_overflow 0 (width Method.u32)) eight)))
run_moves_example = run_moves Method.u32 eight eight-IsValid

abbrev calls : List Method
calls = Method.u8 ∷ Method.u64 ∷ Method.skip 3 ∷ []

run_all-IsValid_example :
    IsValid (run_all calls eight)
    × ((run_all calls eight).bytes ≡ eight.bytes)
    × (0 ≤ (run_all calls eight).pos)
run_all-IsValid_example = run_all-IsValid calls eight eight-IsValid

read_u32-Parses_example : Parses read_u32 (to_le_bytes 4 0x0403_0201) 0x0403_0201
read_u32-Parses_example = read_u32-Parses 0x0403_0201 (omega arith)

read_slice-Parses_example : Parses (read_slice 2) (7 ∷ 8 ∷ []) (7 ∷ 8 ∷ [])
read_slice-Parses_example = read_slice-Parses 2 (7 ∷ 8 ∷ []) refl

peek_bytes-read_slice_example :
    peek_bytes eight 3 ≡ elim (read_slice 3 eight) [ done s c' ↦ some s | fail e c' ↦ none ]
peek_bytes-read_slice_example = peek_bytes-read_slice eight 3
