-- ===== src/Core/Writer/RoundTrip/Text.antt =====
-- The bytes of a block of subrecords.
use bethkit.Prelude.{ℕ, ◌+◌, ◌-◌, ◌%◌, ◌^◌, ◌<◌, ◌≡◌, ◌≢◌, refl, sym, ◌∙◌, arith}
use bethkit.Prelude.{List, [], ◌∷◌, ◌++◌, length, length-append, append_assoc, append-nil}
use bethkit.Prelude.{if◌then◌else◌, true, false, ltb, Bool-cases, inl, inr}
use bethkit.Io.Bytes.{to_le_bytes, length-to_le_bytes}
use bethkit.Core.Signature
use bethkit.Core.Signature.{Signature, IsSignature}
use bethkit.Core.Writer.Data.{WritableSubRecord, subrecord_bytes, write_subrecord, write_subrecords}

-- What a subrecord of the format holds: the override's own signature is not for payloads, and a
-- size has 32 bits.
pub record IsWritable (sr : WritableSubRecord) : Type 0 where
  pub signed : IsSignature sr.signature
  pub plain : sr.signature ≢ Signature.xxxx
  pub small : length sr.bytes < 2 ^ 32

unfoldable pub block_bytes : List WritableSubRecord → List ℕ
block_bytes [] = []
block_bytes (sr ∷ srs) = subrecord_bytes sr ++ block_bytes srs

pub write_subrecords_lem :
    (srs : List WritableSubRecord) (data_buf : List ℕ)
    → write_subrecords srs data_buf ≡ data_buf ++ block_bytes srs
unfolding write_subrecords write_subrecord block_bytes
write_subrecords_lem [] data_buf = sym (append-nil data_buf)
write_subrecords_lem (sr ∷ srs) data_buf =
    write_subrecords_lem srs (data_buf ++ subrecord_bytes sr)
    ∙ append_assoc data_buf (subrecord_bytes sr) (block_bytes srs)

pub short_bytes :
    (sr : WritableSubRecord)
    → ltb (2 ^ 16 - 1) (length sr.bytes) ≡ false
    → subrecord_bytes sr ≡ (sr.signature ++ to_le_bytes 2 (length sr.bytes)) ++ sr.bytes
unfolding subrecord_bytes
short_bytes sr short = rw (short, same) refl
  where
    same : length sr.bytes % 2 ^ 16 ≡ length sr.bytes
    same = ground arith

pub long_bytes :
    (sr : WritableSubRecord)
    → ltb (2 ^ 16 - 1) (length sr.bytes) ≡ true
    → length sr.bytes < 2 ^ 32
    → subrecord_bytes sr
      ≡ (Signature.xxxx ++ to_le_bytes 2 4)
        ++ (to_le_bytes 4 (length sr.bytes) ++ ((sr.signature ++ to_le_bytes 2 0) ++ sr.bytes))
unfolding subrecord_bytes
long_bytes sr long small = rw (long, same) (simp (append_assoc))
  where
    same : length sr.bytes % 2 ^ 32 ≡ length sr.bytes
    same = ground arith

-- A subrecord's signature and a 16-bit size.
abbrev pub header_bytes : Signature → ℕ → List ℕ
header_bytes sig size = sig ++ to_le_bytes 2 size

pub length-header_bytes :
    (sig : Signature) (size : ℕ) → length sig ≡ 4 → length (header_bytes sig size) ≡ 6
length-header_bytes sig size four =
    omega (arith, length-append sig (to_le_bytes 2 size), length-to_le_bytes 2 size)

pub length-subrecord_bytes :
    (sr : WritableSubRecord)
    → IsWritable sr
    → length (subrecord_bytes sr)
      ≡ (if ltb (2 ^ 16 - 1) (length sr.bytes) then 16 else 6) + length sr.bytes
length-subrecord_bytes sr writable = elim (Bool-cases (ltb (2 ^ 16 - 1) (length sr.bytes))) [
  | inl long ↦
      rw (long_bytes sr long writable.small, long)
        (omega (
          arith,
          length-append (header_bytes Signature.xxxx 4)
              (to_le_bytes 4 (length sr.bytes) ++ (header_bytes sr.signature 0 ++ sr.bytes)),
          length-append (to_le_bytes 4 (length sr.bytes)) (header_bytes sr.signature 0 ++ sr.bytes),
          length-append (header_bytes sr.signature 0) sr.bytes,
          length-to_le_bytes 4 (length sr.bytes),
          length-header_bytes Signature.xxxx 4 refl,
          length-header_bytes sr.signature 0 writable.signed.four,
        ))
  | inr short ↦
      rw (short_bytes sr short, short)
        (omega (
          arith,
          length-append (header_bytes sr.signature (length sr.bytes)) sr.bytes,
          length-header_bytes sr.signature (length sr.bytes) writable.signed.four,
        ))
]
