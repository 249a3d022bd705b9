-- ===== src/Core/Record/Subrecords.antt =====
-- record.rs: `parse_subrecords`, with the XXXX size override, and `Record::subrecords`.
use bethkit.Prelude.{ℕ, zero, suc, List, [], ◌∷◌, Option, none, some, length, if◌then◌else◌, ◌==◌}
use bethkit.Prelude.Action.{Action, Outcome, done, fail, convert, pure, throw, ◌>>=◌, ◌>>◌}
use bethkit.Prelude.Result.{Result, ok, err}
use bethkit.Prelude.Fault.{Fault, error, out_of_fuel}
use bethkit.Prelude.Keys.{bytes_eq}
use bethkit.Io.Cursor.{
  IoError, SliceCursor, Reads, read_array, read_u16, read_u32, read_slice, sub_cursor,
}
use bethkit.Io.Cursor.{is_empty}
use bethkit.Io.Cursor
use bethkit.Core.Signature
use bethkit.Core.Signature.{Signature}
use bethkit.Core.Error.{CoreError, io, invalid_encoding, format}
use bethkit.Core.Record.Data.{SubRecord, borrowed, RecordData, raw, compressed, Record}

abbrev pub Parser : Type 0 → Type 0
Parser A = Action (Fault CoreError) SliceCursor A

-- `?` on a read of the cursor.
abbrev pub reading : {A : Type 0} → Reads A → Parser A
reading m = convert (λ e. error (io e)) m

-- A read of a cursor of its own.
abbrev pub within : SliceCursor → Reads ℕ → Reads ℕ
within inner m c = elim (m inner) [ done a _ ↦ done a c | fail e _ ↦ fail e c ]

unfoldable pub read_real_size : Reads ℕ
read_real_size = do xxxx_cursor ← sub_cursor 4; within xxxx_cursor read_u32

-- The signature and the 16-bit size.
unfoldable pub read_subrecord_header : Parser (Signature × ℕ)
read_subrecord_header = do
  sig ← reading (read_array 4)
  raw_size ← reading read_u16
  pure (sig, raw_size)

abbrev pub data_size_of : Option ℕ → ℕ → ℕ
data_size_of none raw_size = raw_size
data_size_of (some real) raw_size = real

-- The payload of one subrecord, as the range that the cursor crosses.
unfoldable pub read_body : List ℕ → Signature → ℕ → Parser SubRecord
read_body buffer sig size = do
  start ← (λ c. done c.pos c)
  reading (read_slice size)
  end ← (λ c. done c.pos c)
  pure (record { signature = sig; body = borrowed buffer start end })

-- One round of the loop. `again` is the rest of the loop, from the pending size on.
unfoldable pub subrecord_step :
    (Option ℕ → Parser (List SubRecord)) → List ℕ → Option ℕ → Parser (List SubRecord)
subrecord_step again buffer pending = do
  (sig, raw_size) ← read_subrecord_header
  if bytes_eq sig Signature.xxxx
      then (if raw_size == 4
          then (do real_size ← reading read_real_size; again (some real_size))
          else throw (
              error (
                invalid_encoding
                  (format "XXXX subrecord has unexpected size {}, expected 4" (raw_size ∷ [])))))
      else (do
        subrecord ← read_body buffer sig (data_size_of pending raw_size)
        subrecords ← again none
        pure (subrecord ∷ subrecords))

-- The `while` loop: each round takes six bytes at least.
unfoldable pub subrecords_loop : ℕ → List ℕ → Option ℕ → Parser (List SubRecord)
subrecords_loop zero buffer pending c = fail out_of_fuel c
subrecords_loop (suc fuel) buffer pending c =
    if is_empty c
    then done [] c
    else subrecord_step (λ p. subrecords_loop fuel buffer p) buffer pending c

abbrev pub result_of :
    {A : Type 0} → Outcome (Fault CoreError) SliceCursor A → Result (Fault CoreError) A
result_of (done a c) = ok a
result_of (fail e c) = err e

-- One round for each byte, and one for the test at the end.
unfoldable pub parse_subrecords : List ℕ → Result (Fault CoreError) (List SubRecord)
parse_subrecords buffer =
    result_of (subrecords_loop (suc (length buffer)) buffer none (Cursor.new buffer))

-- `decompress_zlib` is third-party code.
module _ (decompress_zlib : List ℕ → ℕ → Result IoError (List ℕ)) where
  unfoldable pub parse_decompressed :
      Result IoError (List ℕ) → Result (Fault CoreError) (List SubRecord)
  parse_decompressed (ok bytes) = parse_subrecords bytes
  parse_decompressed (err e) = err (error (io e))

  unfoldable pub parse_block : RecordData → Result (Fault CoreError) (List SubRecord)
  unfolding parse_decompressed
  parse_block (raw bytes) = parse_subrecords bytes
  parse_block (compressed bytes size) = parse_decompressed (decompress_zlib bytes size)

  unfoldable pub subrecords : Record → Result (Fault CoreError) (List SubRecord)
  unfolding parse_block
  subrecords r = elim r.parsed [ none ↦ parse_block r.block | some cached ↦ ok cached ]
