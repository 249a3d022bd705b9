-- ===== src/Core/Writer/RoundTrip/Rounds.antt =====
-- One round of the subrecord loop on what `subrecord_bytes` wrote.
use bethkit.Prelude.{ℕ, ◌+◌, ◌^◌, ◌<◌, ◌≡◌, ◌≢◌, refl, sym, ap, ◌∙◌, arith}
use bethkit.Prelude.{List, [], ◌++◌, length, length-append, append-nil}
use bethkit.Prelude.{Option, none, some}
use bethkit.Prelude.Action.{Action, done, ◌>>=◌}
use bethkit.Prelude.Fault.{error}
use bethkit.Prelude.Keys.{bytes_eq_refl, bytes_ne}
use bethkit.Io.Bytes.{to_le_bytes, length-to_le_bytes}
use bethkit.Io.Cursor.{SliceCursor, read_array, read_u16, read_u32, read_slice, sub_cursor}
use bethkit.Io.Cursor
use bethkit.Io.Cursor.Bounds.{advance}
use bethkit.Io.Cursor.Stream.{
  Before, Before-advance, Parses, Parses-bind, Parses-map, Parses-convert,
}
use bethkit.Io.Cursor.Stream.{
  read_array-Parses, read_u16-Parses, read_u32-Parses, read_slice-Parses, sub_cursor-Parses,
}
use bethkit.Core.Signature
use bethkit.Core.Signature.{Signature, IsSignature}
use bethkit.Core.Error.{io}
use bethkit.Core.Record.Taken.{extended}
use bethkit.Core.Record.Data.{SubRecord, borrowed}
use bethkit.Core.Record.Subrecords.{Parser, reading, read_real_size, read_subrecord_header}
use bethkit.Core.Record.Subrecords.{data_size_of, read_body, subrecord_step, within}

pub reading-Parses :
    {A : Type 0} (m : Action Cursor.IoError SliceCursor A) (xs : List ℕ) (a : A)
    → Parses m xs a
    → Parses (reading m) xs a
reading-Parses m xs a p = Parses-convert (λ e. error (io e)) m xs a p

read_subrecord_header-Parses :
    (sig : Signature) (size : ℕ)
    → length sig ≡ 4
    → size < 2 ^ 16
    → Parses read_subrecord_header (sig ++ to_le_bytes 2 size) (sig, size)
unfolding read_subrecord_header
read_subrecord_header-Parses sig size four small =
    Parses-bind (reading (read_array 4)) _ sig (to_le_bytes 2 size) sig _
      (reading-Parses (read_array 4) sig sig (read_array-Parses 4 sig four))
      (Parses-map (reading read_u16) _ (to_le_bytes 2 size) size
        (reading-Parses read_u16 (to_le_bytes 2 size) size (read_u16-Parses size small)))

-- The cursor of the override's own four bytes.
read_real_size-Parses : (size : ℕ) → size < 2 ^ 32 → Parses read_real_size (to_le_bytes 4 size) size
unfolding read_real_size
read_real_size-Parses size small c rest before =
    rw (sub_cursor-Parses 4 wire (length-to_le_bytes 4 size) c rest before, ◌>>=◌)
      (rw (read_u32-Parses size small (Cursor.new wire) [] inner, within))
  where
    wire : List ℕ
    wire = to_le_bytes 4 size

    inner : Before (Cursor.new wire) wire []
    inner = record {
      valid = omega (arith, length-to_le_bytes 4 size);
      seen = sym (append-nil wire);
    }

read_body_lem :
    (buffer : List ℕ) (sig : Signature) (bytes rest : List ℕ) (n : ℕ) (c : SliceCursor)
    → Before c bytes rest
    → length bytes ≡ n
    → read_body buffer sig n c
      ≡ done (record { signature = sig; body = borrowed buffer c.pos (c.pos + n) }) (advance n c)
unfolding read_body
read_body_lem buffer sig bytes rest n c before size =
    ground (arith, size, read_slice-Parses n bytes size c rest before)

-- A header that is no override, and the payload that the pending or the header's own size gives.
pub subrecord_round :
    (again : Option ℕ → Parser (List SubRecord)) (pending : Option ℕ) (sig : Signature) (size : ℕ)
    (bytes rest : List ℕ) (c : SliceCursor)
    → Before c (sig ++ to_le_bytes 2 size) (bytes ++ rest)
    → IsSignature sig
    → sig ≢ Signature.xxxx
    → size < 2 ^ 16
    → data_size_of pending size ≡ length bytes
    → subrecord_step again c.bytes pending c
      ≡ extended
          (record {
            signature = sig;
            body = borrowed c.bytes (c.pos + 6) (c.pos + 6 + length bytes);
          })
          (again none (advance (6 + length bytes) c))
unfolding subrecord_step
subrecord_round again pending sig size bytes rest c before is_sig plain small sized =
    ground (arith, head, bytes_ne sig Signature.xxxx plain, body)
  where
    six : length (sig ++ to_le_bytes 2 size) ≡ 6
    six =
        omega
          (arith, length-append sig (to_le_bytes 2 size), is_sig.four, length-to_le_bytes 2 size)

    head : read_subrecord_header c ≡ done (sig, size) (advance 6 c)
    head =
        read_subrecord_header-Parses sig size is_sig.four small c (bytes ++ rest) before
        ∙ ap (λ n. done (sig, size) (advance n c)) six

    behind : Before (advance 6 c) bytes rest
    behind = rw six at (Before-advance c (sig ++ to_le_bytes 2 size) bytes rest before)

    body :
        read_body c.bytes sig (data_size_of pending size) (advance 6 c)
        ≡ done
            (record {
              signature = sig;
              body = borrowed c.bytes (c.pos + 6) (c.pos + 6 + length bytes);
            })
            (advance (length bytes) (advance 6 c))
    body = rw sized (read_body_lem c.bytes sig bytes rest (length bytes) (advance 6 c) behind refl)

-- An override: the rest of the loop goes on with the size that it carries.
pub override_round :
    (again : Option ℕ → Parser (List SubRecord)) (pending : Option ℕ) (real : ℕ) (rest : List ℕ)
    (c : SliceCursor)
    → Before c (Signature.xxxx ++ to_le_bytes 2 4) (to_le_bytes 4 real ++ rest)
    → real < 2 ^ 32
    → subrecord_step again c.bytes pending c ≡ again (some real) (advance 10 c)
unfolding subrecord_step
override_round again pending real rest c before small =
    ground (arith, head, bytes_eq_refl Signature.xxxx, real_size)
  where
    six : length (Signature.xxxx ++ to_le_bytes 2 4) ≡ 6
    six = omega (arith, length-to_le_bytes 2 4)

    head : read_subrecord_header c ≡ done (Signature.xxxx, 4) (advance 6 c)
    head =
        read_subrecord_header-Parses Signature.xxxx 4 refl (omega arith) c
          (to_le_bytes 4 real ++ rest) before
        ∙ ap (λ n. done (Signature.xxxx, 4) (advance n c)) six

    behind : Before (advance 6 c) (to_le_bytes 4 real) rest
    behind =
        rw six at
          (Before-advance c (Signature.xxxx ++ to_le_bytes 2 4) (to_le_bytes 4 real) rest before)

    real_size : reading read_real_size (advance 6 c) ≡ done real (advance 4 (advance 6 c))
    real_size =
        reading-Parses read_real_size (to_le_bytes 4 real) real (read_real_size-Parses real small)
          (advance 6 c) rest behind
        ∙ ap (λ n. done real (advance n (advance 6 c))) (length-to_le_bytes 4 real)
