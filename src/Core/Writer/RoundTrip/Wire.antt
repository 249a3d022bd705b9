-- ===== src/Core/Writer/RoundTrip/Wire.antt =====
-- The bytes of a record, and `parse_header` on them.
use Prim.Native.Nat.{bit_and}
use bethkit.Prelude.{ℕ, ◌%◌, ◌^◌, ◌<◌, ◌≡◌, ◌≢◌, refl, arith}
use bethkit.Prelude.{List, [], ◌++◌, length, append_assoc, All}
use bethkit.Prelude.{none, false, ◌==◌}
use bethkit.Prelude.Keys.{bytes_ne}
use bethkit.Io.Bytes.{to_le_bytes}
use bethkit.Io.Cursor.{read_array, read_u16, read_u32, read_slice}
use bethkit.Io.Cursor.Stream.{Parses, Parses-bind, Parses-map, read_array-Parses}
use bethkit.Io.Cursor.Stream.{read_u16-Parses, read_u32-Parses, read_slice-Parses}
use bethkit.Core.Signature
use bethkit.Core.Signature.{Signature, IsSignature}
use bethkit.Core.Types.{flag_compressed}
use bethkit.Core.Record.Data.{Record, RecordHeader, raw}
use bethkit.Core.Record.Header.{parse_record_header, block_of, parse_header}
use bethkit.Core.Record.Subrecords.{reading}
use bethkit.Core.Writer.Data.{WritableRecord, write_subrecords, write_record}
use bethkit.Core.Writer.RoundTrip.Rounds.{reading-Parses}
use bethkit.Core.Writer.RoundTrip.Text.{IsWritable}

-- A record as the format has it: no group, uncompressed, its fields of their widths, and its data
-- block of a 32-bit size.
pub record IsStorable (r : WritableRecord) : Type 0 where
  pub signed : IsSignature r.signature
  pub plain : r.signature ≢ Signature.grup
  pub stored : (bit_and r.flags flag_compressed == flag_compressed) ≡ false
  pub flags_small : r.flags < 2 ^ 32
  pub form_id_small : r.form_id < 2 ^ 32
  pub form_version_small : r.form_version < 2 ^ 16
  pub writable : All IsWritable r.subrecords
  pub small : length (write_subrecords r.subrecords []) < 2 ^ 32

abbrev pub header_of : WritableRecord → ℕ → RecordHeader
header_of r size = record {
  signature = r.signature;
  data_size = size;
  flags = r.flags;
  form_id = r.form_id;
  version_control = 0;
  form_version = r.form_version;
  unknown = 0;
}

-- The 24 bytes of a header.
pub wire_of : WritableRecord → ℕ → List ℕ
wire_of r size =
    r.signature
    ++ (to_le_bytes 4 size
        ++ (to_le_bytes 4 r.flags
            ++ (to_le_bytes 4 r.form_id
                ++ (to_le_bytes 4 0 ++ (to_le_bytes 2 r.form_version ++ to_le_bytes 2 0)))))

u32-Parses : (v : ℕ) → v < 2 ^ 32 → Parses (reading read_u32) (to_le_bytes 4 v) v
u32-Parses v small = reading-Parses read_u32 (to_le_bytes 4 v) v (read_u32-Parses v small)

u16-Parses : (v : ℕ) → v < 2 ^ 16 → Parses (reading read_u16) (to_le_bytes 2 v) v
u16-Parses v small = reading-Parses read_u16 (to_le_bytes 2 v) v (read_u16-Parses v small)

module _ (r : WritableRecord) (storable : IsStorable r) where
  parse_record_header-Parses :
      (size : ℕ) → size < 2 ^ 32 → Parses parse_record_header (wire_of r size) (header_of r size)
  unfolding parse_record_header wire_of
  parse_record_header-Parses size small =
      Parses-bind (reading (read_array 4)) _ r.signature _ r.signature _
        (reading-Parses (read_array 4) r.signature r.signature
          (read_array-Parses 4 r.signature storable.signed.four))
        (Parses-bind (reading read_u32) _ (to_le_bytes 4 size) _ size _ (u32-Parses size small) (
          Parses-bind (reading read_u32) _ (to_le_bytes 4 r.flags) _ r.flags _
            (u32-Parses r.flags storable.flags_small)
            (Parses-bind (reading read_u32) _ (to_le_bytes 4 r.form_id) _ r.form_id _
              (u32-Parses r.form_id storable.form_id_small)
              (Parses-bind (reading read_u32) _ (to_le_bytes 4 0) _ 0 _ (u32-Parses 0 (omega arith))
                (Parses-bind (reading read_u16) _ (to_le_bytes 2 r.form_version) _ r.form_version _
                  (u16-Parses r.form_version storable.form_version_small)
                  (Parses-map (reading read_u16) _ (to_le_bytes 2 0) 0
                    (u16-Parses 0 (omega arith))))))))

  abbrev pub block : List ℕ
  block = write_subrecords r.subrecords []

  abbrev pub parsed_record : Record
  parsed_record = record {
    header = header_of r (length block);
    source_range = none;
    block = raw block;
    parsed = none;
  }

  -- The header, and then the block that it announces.
  pub record-Parses : Parses parse_header (wire_of r (length block) ++ block) parsed_record
  unfolding parse_header block_of
  record-Parses =
      Parses-bind parse_record_header _ (wire_of r (length block)) block
        (header_of r (length block)) _ (parse_record_header-Parses (length block) storable.small)
        (λ c rest before. ground (
          arith,
          bytes_ne r.signature Signature.grup storable.plain,
          storable.stored,
          reading-Parses (read_slice (length block)) block block
              (read_slice-Parses (length block) block refl) c rest before,
        ))

  pub write_record_lem : write_record r [] ≡ wire_of r (length block) ++ block
  unfolding write_record wire_of
  write_record_lem = rw (same) (simp (append_assoc))
    where
      same : length block % 2 ^ 32 ≡ length block
      same = ground (arith, storable.small)
