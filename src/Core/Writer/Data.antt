-- ===== src/Core/Writer/Data.antt =====
-- writer.rs: the writable records and their `write_to`; record.rs: `Record::from_writable`.
use bethkit.Prelude.{
  ℕ, ◌+◌, ◌-◌, ◌%◌, ◌^◌, List, [], ◌∷◌, ◌++◌, none, some, length, min, ltb, if◌then◌else◌,
}
use bethkit.Io.Bytes.{to_le_bytes}
use bethkit.Core.Signature
use bethkit.Core.Signature.{Signature}
use bethkit.Core.Types.{FormId, RecordFlags}
use bethkit.Core.Record.Data.{owned, raw, Record}
use mathlib.Core.List.{map}

pub record WritableSubRecord : Type 0 where
  pub signature : Signature
  pub bytes : List ℕ

-- `WritableSubRecord::write_to`: what it appends, and the append.
unfoldable pub subrecord_bytes : WritableSubRecord → List ℕ
subrecord_bytes sr =
    (if ltb (2 ^ 16 - 1) (length sr.bytes)
      then Signature.xxxx
        ++ (to_le_bytes 2 4
            ++ (to_le_bytes 4 (length sr.bytes % 2 ^ 32) ++ (sr.signature ++ to_le_bytes 2 0)))
      else sr.signature ++ to_le_bytes 2 (length sr.bytes % 2 ^ 16))
    ++ sr.bytes

unfoldable pub write_subrecord : WritableSubRecord → List ℕ → List ℕ
unfolding subrecord_bytes
write_subrecord sr buf = buf ++ subrecord_bytes sr

pub record WritableRecord : Type 0 where
  pub signature : Signature
  pub flags : RecordFlags
  pub form_id : FormId
  pub form_version : ℕ
  pub subrecords : List WritableSubRecord

-- The loop that fills `data_buf`.
unfoldable pub write_subrecords : List WritableSubRecord → List ℕ → List ℕ
unfolding write_subrecord
write_subrecords [] data_buf = data_buf
write_subrecords (sr ∷ srs) data_buf = write_subrecords srs (write_subrecord sr data_buf)

unfoldable pub write_record : WritableRecord → List ℕ → List ℕ
write_record r buf =
    let data_buf = write_subrecords r.subrecords [] in
    buf
    ++ (r.signature
        ++ (to_le_bytes 4 (length data_buf % 2 ^ 32)
            ++ (to_le_bytes 4 r.flags
                ++ (to_le_bytes 4 r.form_id
                    ++ (to_le_bytes 4 0
                        ++ (to_le_bytes 2 r.form_version ++ (to_le_bytes 2 0 ++ data_buf)))))))

-- The size that `from_writable` computes: a saturating sum of the sizes with their headers.
unfoldable pub writable_size : List WritableSubRecord → ℕ → ℕ
writable_size [] size = size
writable_size (sr ∷ srs) size = writable_size srs (
    min
      (size
        + min ((if ltb (2 ^ 16 - 1) (length sr.bytes) then 16 else 6) + length sr.bytes)
            (2 ^ 32 - 1))
      (2 ^ 32 - 1))

unfoldable pub from_writable : WritableRecord → Record
unfolding writable_size
from_writable r = record {
  header = record {
    signature = r.signature;
    data_size = writable_size r.subrecords 0;
    flags = r.flags;
    form_id = r.form_id;
    version_control = 0;
    form_version = r.form_version;
    unknown = 0;
  };
  source_range = none;
  block = raw [];
  parsed =
      some (map (λ sr. record { signature = sr.signature; body = owned sr.bytes }) r.subrecords);
}
