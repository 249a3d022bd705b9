-- ===== src/Core/Record/Header.antt =====
-- record.rs: `RecordHeader::parse`, `Record::parse_header`, `Record::from_writable`.
use Prim.Native.Nat.{bit_and}
use bethkit.Prelude.{ℕ, List, none, length, drop}
use bethkit.Prelude.{ltb, ◌==◌, if◌then◌else◌}
use bethkit.Prelude.Action.{pure, throw, ◌>>=◌}
use bethkit.Prelude.Fault.{error}
use bethkit.Prelude.Keys.{bytes_eq}
use bethkit.Io.Bytes.{from_le_bytes}
use bethkit.Io.Cursor.{slice, read_array, read_u16, read_u32, read_slice}
use bethkit.Core.Signature
use bethkit.Core.Types.{flag_compressed}
use bethkit.Core.Error.{invalid_signature, unexpected_eof}
use bethkit.Core.Record.Data.{RecordHeader, Record, RecordData, raw, compressed}
use bethkit.Core.Record.Subrecords.{Parser, reading}

unfoldable pub parse_record_header : Parser RecordHeader
parse_record_header = do
  sig_bytes ← reading (read_array 4)
  data_size ← reading read_u32
  flags_raw ← reading read_u32
  form_id_raw ← reading read_u32
  version_control ← reading read_u32
  form_version ← reading read_u16
  unknown ← reading read_u16
  pure (record {
    signature = sig_bytes;
    data_size = data_size;
    flags = flags_raw;
    form_id = form_id_raw;
    version_control = version_control;
    form_version = form_version;
    unknown = unknown;
  })

-- The data block, split off its decompressed size if the record is compressed.
unfoldable pub block_of : RecordHeader → List ℕ → Parser RecordData
block_of header raw_data =
    if bit_and header.flags flag_compressed == flag_compressed
    then (if ltb (length raw_data) 4
        then throw (error (unexpected_eof "compressed record decompressed_size field"))
        else pure (compressed (drop 4 raw_data) (from_le_bytes (slice 0 4 raw_data))))
    else pure (raw raw_data)

unfoldable pub parse_header : Parser Record
parse_header = do
  header ← parse_record_header
  if bytes_eq header.signature Signature.grup
      then throw (error (invalid_signature "non-GRUP" header.signature))
      else (do
        raw_data ← reading (read_slice header.data_size)
        block ← block_of header raw_data
        pure (record { header = header; source_range = none; block = block; parsed = none }))
