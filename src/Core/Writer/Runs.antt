-- ===== src/Core/Writer/Runs.antt =====
-- Records and subrecords at concrete inputs.
use bethkit.Prelude.{ℕ, ◌^◌, ◌<◌, ◌≡◌, ◌≢◌, ◌⊎◌, refl, arith, List, [], ◌∷◌, ◌++◌, length, All}
use bethkit.Prelude.Action.{done}
use bethkit.Prelude.Result.{Result, ok, err}
use bethkit.Prelude.Fault.{error}
use bethkit.Io.Cursor.{
  sub_cursor, read_u32, read_u16, read_slice, read_array, is_empty, IoError, unexpected_eof,
}
use bethkit.Core.Error.{CoreError, io}
use bethkit.Core.Signature
use bethkit.Core.Record.Data.{SubRecord, borrowed, Record}
use bethkit.Core.Record.Header.{parse_header}
use bethkit.Core.Record.Subrecords.{
  parse_subrecords, subrecords, subrecords_loop, subrecord_step, read_subrecord_header,
  read_real_size, read_body,
}
use bethkit.Core.Writer.Data.{
  WritableSubRecord, WritableRecord, write_subrecords, write_record, subrecord_bytes, from_writable,
}
use bethkit.Core.Writer.RoundTrip.Text.{IsWritable}
use bethkit.Core.Writer.RoundTrip.Block.{content, write_subrecords-parse_subrecords}
use bethkit.Core.Writer.RoundTrip.Wire.{IsStorable}
use bethkit.Core.Writer.RoundTrip.Whole.{write_record-parse_header}
use bethkit.Io.Bytes.{to_le_bytes}
use bethkit.Prelude.Keys.{bytes_eq}
use bethkit.Core.Record.Ranges.{InOrder, parse_subrecords-InOrder}
use mathlib.Core.List.{map}

abbrev two : List WritableSubRecord
two =
    record { signature = Signature.edid; bytes = 73 ∷ 0 ∷ [] }
    ∷ record { signature = Signature.data_sig; bytes = 9 ∷ [] }
    ∷ []

-- EDID of two bytes and DATA of one.
abbrev two_wire : List ℕ
two_wire = 69 ∷ 68 ∷ 73 ∷ 68 ∷ 2 ∷ 0 ∷ 73 ∷ 0 ∷ 68 ∷ 65 ∷ 84 ∷ 65 ∷ 1 ∷ 0 ∷ 9 ∷ []

write_subrecords_run : write_subrecords two [] ≡ two_wire
unfolding write_subrecords subrecord_bytes to_le_bytes
write_subrecords_run = refl

parse_subrecords_run :
    parse_subrecords two_wire
    ≡ ok (
        record { signature = Signature.edid; body = borrowed two_wire 6 8 }
        ∷ record { signature = Signature.data_sig; body = borrowed two_wire 14 15 }
        ∷ [])
unfolding parse_subrecords subrecords_loop subrecord_step read_subrecord_header read_body is_empty
    read_array read_u16 bytes_eq read_slice
parse_subrecords_run = refl

-- The override counts, and not the size of the header behind it.
parse_override_run :
    parse_subrecords
      (88 ∷ 88 ∷ 88 ∷ 88 ∷ 4 ∷ 0 ∷ 1 ∷ 0 ∷ 0 ∷ 0 ∷ 68 ∷ 65 ∷ 84 ∷ 65 ∷ 0 ∷ 0 ∷ 9 ∷ [])
    ≡ ok (
        record {
          signature = Signature.data_sig;
          body =
              borrowed
                (88 ∷ 88 ∷ 88 ∷ 88 ∷ 4 ∷ 0 ∷ 1 ∷ 0 ∷ 0 ∷ 0 ∷ 68 ∷ 65 ∷ 84 ∷ 65 ∷ 0 ∷ 0 ∷ 9 ∷ [])
                16
                17;
        }
        ∷ [])
unfolding parse_subrecords subrecords_loop subrecord_step read_subrecord_header read_real_size
    read_body is_empty read_array read_u16 bytes_eq sub_cursor read_u32
parse_override_run = refl

parse_short_run :
    parse_subrecords (69 ∷ 68 ∷ 73 ∷ 68 ∷ 2 ∷ 0 ∷ 73 ∷ []) ≡ err (error (io (unexpected_eof 6)))
unfolding parse_subrecords subrecords_loop subrecord_step read_subrecord_header read_body is_empty
    read_array read_u16 bytes_eq read_slice
parse_short_run = refl

edid_plain : Signature.edid ≢ Signature.xxxx
edid_plain = ground arith

data_plain : Signature.data_sig ≢ Signature.xxxx
data_plain = ground arith

two-IsWritable : All IsWritable two
two-IsWritable = (
  record { signed = omega arith; plain = edid_plain; small = omega arith },
  (record { signed = omega arith; plain = data_plain; small = omega arith }, tt),
)

two_small : length (write_subrecords two []) < 2 ^ 63
unfolding write_subrecords subrecord_bytes to_le_bytes
two_small = omega arith

write_subrecords-parse_subrecords_example :
    (found : List SubRecord) × (parse_subrecords (write_subrecords two []) ≡ ok found)
    × (map content found ≡ two)
write_subrecords-parse_subrecords_example =
    write_subrecords-parse_subrecords two two-IsWritable two_small

abbrev glob : WritableRecord
glob = record {
  signature = 71 ∷ 76 ∷ 79 ∷ 66 ∷ [];
  flags = 0;
  form_id = 2048;
  form_version = 44;
  subrecords = two;
}

abbrev no_zlib : List ℕ → ℕ → Result IoError (List ℕ)
no_zlib bytes size = err (unexpected_eof 0)

glob-IsStorable : IsStorable glob
unfolding write_subrecords subrecord_bytes to_le_bytes
glob-IsStorable = record {
  signed = omega arith;
  plain = ground arith;
  stored = refl;
  flags_small = omega arith;
  form_id_small = omega arith;
  form_version_small = omega arith;
  writable = two-IsWritable;
  small = omega arith;
}

glob_small : length (write_record glob (1 ∷ []) ++ (2 ∷ [])) < 2 ^ 63
unfolding write_record write_subrecords subrecord_bytes to_le_bytes
glob_small = omega arith

write_record-parse_header_example :
    (found : Record) × (found_subrecords kept_subrecords : List SubRecord) × (parse_header
        (record { bytes = write_record glob (1 ∷ []) ++ (2 ∷ []); pos = 1 })
      ≡ done found (record {
        bytes = write_record glob (1 ∷ []) ++ (2 ∷ []);
        pos = length (write_record glob (1 ∷ []));
      }))
    × (found.header ≡ (from_writable glob).header)
    × (subrecords no_zlib found ≡ ok found_subrecords)
    × (map content found_subrecords ≡ two)
    × (subrecords no_zlib (from_writable glob) ≡ ok kept_subrecords)
    × (map content kept_subrecords ≡ two)
write_record-parse_header_example =
    write_record-parse_header no_zlib glob (1 ∷ []) (2 ∷ []) glob-IsStorable glob_small

parse_subrecords-InOrder_example :
    ((found : List SubRecord) × (parse_subrecords two_wire ≡ ok found) × InOrder two_wire 0 found)
    ⊎ ((e : CoreError) × (parse_subrecords two_wire ≡ err (error e)))
parse_subrecords-InOrder_example = parse_subrecords-InOrder two_wire
