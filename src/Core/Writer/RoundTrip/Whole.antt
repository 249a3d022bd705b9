-- ===== src/Core/Writer/RoundTrip/Whole.antt =====
-- A whole record: `write_record` and `from_writable` against `parse_header` and `subrecords`.
use bethkit.Prelude.{ℕ, ◌+◌, ◌-◌, ◌^◌, ◌<◌, ◌≡◌, refl, sym, ap, ◌∙◌, arith}
use bethkit.Prelude.{
  List, [], ◌∷◌, ◌++◌, length, length-append, append_assoc, All, min, drop, drop-append,
}
use bethkit.Prelude.{ltb, if◌then◌else◌}
use bethkit.Prelude.Action.{done}
use bethkit.Prelude.Result.{Result, ok}
use bethkit.Io.Cursor.{IoError, SliceCursor}
use bethkit.Io.Cursor.Stream.{Before}
use bethkit.Core.Record.Data.{SubRecord, Record, owned}
use bethkit.Core.Record.Header.{parse_header}
use bethkit.Core.Record.Subrecords.{parse_subrecords, subrecords}
use bethkit.Core.Writer.Data.{
  WritableSubRecord, subrecord_bytes, WritableRecord, write_record, from_writable, writable_size,
}
use bethkit.Core.Writer.RoundTrip.Text.{
  IsWritable, block_bytes, write_subrecords_lem, length-subrecord_bytes,
}
use bethkit.Core.Writer.RoundTrip.Block.{content, write_subrecords-parse_subrecords}
use mathlib.Core.List.{map}
use bethkit.Core.Writer.RoundTrip.Wire.{
  IsStorable, header_of, wire_of, block, parsed_record, record-Parses, write_record_lem,
}

-- The size that `from_writable` adds up is the size of the block that is written.
writable_size_lem :
    (srs : List WritableSubRecord) (size : ℕ)
    → All IsWritable srs
    → size + length (block_bytes srs) < 2 ^ 32
    → writable_size srs size ≡ size + length (block_bytes srs)
unfolding writable_size block_bytes
writable_size_lem [] size writable small = omega arith
writable_size_lem (sr ∷ srs) size writable small = rw (this) (
    writable_size_lem srs (size + length (subrecord_bytes sr)) writable.1 (omega (arith, both))
    ∙ omega (arith, both))
  where
    both :
        length (subrecord_bytes sr ++ block_bytes srs)
        ≡ length (subrecord_bytes sr) + length (block_bytes srs)
    both = length-append (subrecord_bytes sr) (block_bytes srs)

    this :
        min
          (size
            + min
                ((if ltb (2 ^ 16 - 1) (length sr.bytes) then 16 else 6) + length sr.bytes)
                (2 ^ 32 - 1))
          (2 ^ 32 - 1)
        ≡ size + length (subrecord_bytes sr)
    this = ground (arith, both, length-subrecord_bytes sr writable.0)

write_record-append :
    (r : WritableRecord) (buf : List ℕ) → write_record r buf ≡ buf ++ write_record r []
unfolding write_record
write_record-append r buf = refl

-- The cursor in front of a record that is written behind `buf`.
abbrev before_record : WritableRecord → List ℕ → List ℕ → SliceCursor
before_record r buf rest = record { bytes = write_record r buf ++ rest; pos = length buf }

parse_header-written :
    (r : WritableRecord) (buf rest : List ℕ) (storable : IsStorable r)
    → length (write_record r buf ++ rest) < 2 ^ 63
    → parse_header (before_record r buf rest)
      ≡ done
          (parsed_record r storable)
          (record { bytes = write_record r buf ++ rest; pos = length (write_record r buf) })
parse_header-written r buf rest storable small =
    record-Parses r storable (before_record r buf rest) rest before
    ∙ ap
        (λ n.
          done (parsed_record r storable) (record { bytes = write_record r buf ++ rest; pos = n }))
        (sym end)
  where
    wire : List ℕ
    wire = wire_of r (length (block r storable)) ++ block r storable

    written : write_record r buf ≡ buf ++ wire
    written = write_record-append r buf ∙ ap (λ x. buf ++ x) (write_record_lem r storable)

    end : length (write_record r buf) ≡ length buf + length wire
    end = rw (written) (length-append buf wire)

    seen : drop (length buf) (write_record r buf ++ rest) ≡ wire ++ rest
    seen =
        rw (written, append_assoc buf wire rest) (drop-append (length buf) buf (wire ++ rest) refl)

    before : Before (before_record r buf rest) wire rest
    before = record {
      valid = record {
        within = omega (arith, end, length-append (write_record r buf) rest);
        small = small;
      };
      seen = seen;
    }

-- `from_writable` keeps the payloads in memory.
abbrev kept_of : List WritableSubRecord → List SubRecord
kept_of srs = map (λ sr. record { signature = sr.signature; body = owned sr.bytes }) srs

content-kept_of : (srs : List WritableSubRecord) → map content (kept_of srs) ≡ srs
content-kept_of [] = refl
content-kept_of (sr ∷ srs) = ap (λ more. sr ∷ more) (content-kept_of srs)

module _ (decompress_zlib : List ℕ → ℕ → Result IoError (List ℕ)) (r : WritableRecord) where
  -- A record that is written behind any bytes and in front of any others is parsed from there: the
  -- cursor ends right behind it, the header has the fields that `from_writable` gives the record in
  -- memory, and the subrecords of both hold what was written. The record is no group, not flagged as
  -- compressed, its fields have their widths, no subrecord is signed `XXXX`, and its block is
  -- smaller than `2 ^ 32` bytes.
  pub write_record-parse_header :
      (buf rest : List ℕ)
      → IsStorable r
      → length (write_record r buf ++ rest) < 2 ^ 63
      → (found : Record) × (found_subrecords kept_subrecords : List SubRecord) × (parse_header
            (record { bytes = write_record r buf ++ rest; pos = length buf })
          ≡ done found
              (record { bytes = write_record r buf ++ rest; pos = length (write_record r buf) }))
        × (found.header ≡ (from_writable r).header)
        × (subrecords decompress_zlib found ≡ ok found_subrecords)
        × (map content found_subrecords ≡ r.subrecords)
        × (subrecords decompress_zlib (from_writable r) ≡ ok kept_subrecords)
        × (map content kept_subrecords ≡ r.subrecords)
  unfolding subrecords from_writable
  write_record-parse_header buf rest storable small = (
    parsed_record r storable,
    again.0,
    kept_of r.subrecords,
    parse_header-written r buf rest storable small,
    ap (header_of r) (rw (write_subrecords_lem r.subrecords []) (sym sized)),
    again.1,
    again.2,
    refl,
    content-kept_of r.subrecords,
  )
    where
      written : block r storable ≡ block_bytes r.subrecords
      written = write_subrecords_lem r.subrecords []

      sized : writable_size r.subrecords 0 ≡ length (block_bytes r.subrecords)
      sized = omega (
        arith,
        writable_size_lem r.subrecords 0 storable.writable
            (omega (arith, storable.small, ap length written)),
      )

      again :
          (found : List SubRecord) × (parse_subrecords (block r storable) ≡ ok found)
          × (map content found ≡ r.subrecords)
      again =
          write_subrecords-parse_subrecords r.subrecords storable.writable
            (omega (arith, storable.small))
