-- ===== src/Core/Record/Data.antt =====
-- record.rs: the data of records and subrecords, and the typed views of a payload.
use bethkit.Prelude.{String, ℕ, List, [], ◌∷◌, Option, length, get_or, ◌==◌, if◌then◌else◌}
use bethkit.Prelude.Int.{ℤ, signed}
use bethkit.Prelude.Result.{Result, ok, err, ◌>>=◌}
use bethkit.Io.Bytes.{from_le_bytes}
use bethkit.Io.Cursor.{slice}
use bethkit.Core.Signature.{Signature}
use bethkit.Core.Types.{FormId, RecordFlags}
use bethkit.Core.Error.{CoreError, invalid_encoding, signature_format}

pub data SubRecordData : Type 0 where
  borrowed : List ℕ → ℕ → ℕ → SubRecordData
  owned : List ℕ → SubRecordData

abbrev pub payload : SubRecordData → List ℕ
payload (borrowed buffer start end) = slice start end buffer
payload (owned bytes) = bytes

pub record SubRecord : Type 0 where
  pub signature : Signature
  pub body : SubRecordData

abbrev pub as_bytes : SubRecord → List ℕ
as_bytes sr = payload sr.body

-- `try_into` an array of `n` bytes.
as_array : ℕ → String → SubRecord → Result CoreError (List ℕ)
as_array n template sr =
    if length (as_bytes sr) == n
    then ok (as_bytes sr)
    else err (invalid_encoding (signature_format template sr.signature (length (as_bytes sr) ∷ [])))

unfoldable pub as_u8 : SubRecord → Result CoreError ℕ
unfolding as_array
as_u8 sr = do b ← as_array 1 "expected 1 byte for {} subrecord, got {}" sr; ok (get_or b 0 0)

unfoldable pub as_u16 : SubRecord → Result CoreError ℕ
unfolding as_array
as_u16 sr = do b ← as_array 2 "expected 2 bytes for {} subrecord, got {}" sr; ok (from_le_bytes b)

unfoldable pub as_u32 : SubRecord → Result CoreError ℕ
unfolding as_array
as_u32 sr = do b ← as_array 4 "expected 4 bytes for {} subrecord, got {}" sr; ok (from_le_bytes b)

unfoldable pub as_f32 : SubRecord → Result CoreError ℕ
unfolding as_array
as_f32 sr = do b ← as_array 4 "expected 4 bytes for {} subrecord, got {}" sr; ok (from_le_bytes b)

unfoldable pub as_i8 : SubRecord → Result CoreError ℤ
unfolding as_u8
as_i8 sr = do b ← as_u8 sr; ok (signed 7 b)

unfoldable pub as_i16 : SubRecord → Result CoreError ℤ
unfolding as_array
as_i16 sr = do
  b ← as_array 2 "expected 2 bytes for {} subrecord, got {}" sr
  ok (signed 15 (from_le_bytes b))

unfoldable pub as_i32 : SubRecord → Result CoreError ℤ
unfolding as_array
as_i32 sr = do
  b ← as_array 4 "expected 4 bytes for {} subrecord, got {}" sr
  ok (signed 31 (from_le_bytes b))

unfoldable pub as_form_id : SubRecord → Result CoreError FormId
unfolding as_u32
as_form_id sr = as_u32 sr

pub record RecordHeader : Type 0 where
  pub signature : Signature
  pub data_size : ℕ
  pub flags : RecordFlags
  pub form_id : FormId
  pub version_control : ℕ
  pub form_version : ℕ
  pub unknown : ℕ

-- How the data block is stored.
pub data RecordData : Type 0 where
  raw : List ℕ → RecordData
  compressed : List ℕ → ℕ → RecordData

-- `parsed` is the list that `from_writable` puts into the cache.
pub record Record : Type 0 where
  pub header : RecordHeader
  pub source_range : Option (ℕ × ℕ)
  pub block : RecordData
  pub parsed : Option (List SubRecord)
