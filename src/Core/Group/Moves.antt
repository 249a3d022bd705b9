-- ===== src/Core/Group/Moves.antt =====
-- How far the parsers of a group's header and of a record move the cursor.
use bethkit.Prelude.{ℕ, ◌+◌, ◌≤◌, ◌≡◌, refl, ap, ◌∙◌, inl, inr, arith}
use bethkit.Prelude.{List, length, Bool-cases}
use bethkit.Prelude.Result.{Result, ok, err}
use bethkit.Prelude.Fine.{Fine, Fine-bind}
use bethkit.Prelude.Keys.{bytes_eq}
use bethkit.Io.Cursor.{SliceCursor, read_array, read_u16, read_u32, read_i32, read_slice}
use bethkit.Io.Cursor.Bounds.{advance}
use bethkit.Io.Cursor.Stream.{advance-advance}
use bethkit.Core.Signature
use bethkit.Core.Error.{CoreError, invalid_signature}
use bethkit.Core.Record.Data.{RecordHeader}
use bethkit.Core.Record.Header.{parse_record_header, block_of, parse_header}
use bethkit.Core.Record.Subrecords.{Parser, reading}
use bethkit.Core.Record.Taken.{
  Taken, taken, refused, Taken-bind, Taken-map, read_array-Taken, read_u16-Taken, read_u32-Taken,
  read_i32-Taken, read_slice-Taken,
}
use bethkit.Core.Group.Data.{from_raw}
use bethkit.Core.Group.Parse.{returning, parse_fields, parse_group_header}

-- The cursor has moved by `n` bytes of the slice.
abbrev pub Moved : SliceCursor → ℕ → SliceCursor → Type 0
Moved c n c' = (c' ≡ advance n c) × (c.pos + n ≤ length c.bytes)

Taken-Fine :
    {A : Type 0} (n : ℕ) (m : Parser A) (c : SliceCursor)
    → Taken n m c
    → Fine (λ a c'. Moved c n c') (m c)
unfolding Fine
Taken-Fine n m c (taken a eq fits) = rw (eq) (refl, fits)
Taken-Fine n m c (refused e c' eq) = rw (eq) tt

returning-Taken :
    {A : Type 0} (r : Result CoreError A) (c : SliceCursor)
    → c.pos ≤ length c.bytes
    → Taken 0 (returning r) c
returning-Taken (ok a) c valid = taken a (ground arith) (omega arith)
returning-Taken (err e) c valid = refused e c refl

parse_fields-Taken : (c : SliceCursor) → Taken 20 parse_fields c
unfolding parse_fields
parse_fields-Taken c = Taken-bind 4 16 (reading read_u32) _ c (read_u32-Taken c) (λ group_size _.
    Taken-bind 4 12 (reading (read_array 4)) _ (advance 4 c) (read_array-Taken 4 _) (λ label_raw _.
      Taken-bind 4 8 (reading read_i32) _ (advance 4 (advance 4 c)) (read_i32-Taken _)
        (λ group_type_raw _.
          Taken-bind 4 4 (reading read_u32) _ (advance 4 (advance 4 (advance 4 c)))
            (read_u32-Taken _)
            (λ version_control _.
              Taken-bind 4 0 (reading read_u32) _ (advance 4 (advance 4 (advance 4 (advance 4 c))))
                (read_u32-Taken _)
                (λ unknown fits. Taken-map 0 (returning (from_raw group_type_raw)) _ _ (
                  returning-Taken (from_raw group_type_raw)
                    (advance 4 (advance 4 (advance 4 (advance 4 (advance 4 c))))) fits))))))

parse_group_header-Taken : (c : SliceCursor) → Taken 24 parse_group_header c
unfolding parse_group_header
parse_group_header-Taken c =
    Taken-bind 4 20 (reading (read_array 4)) _ c (read_array-Taken 4 c) (λ sig _.
      elim (Bool-cases (bytes_eq sig Signature.grup)) [
        | inl same ↦ rw (same) (parse_fields-Taken (advance 4 c))
        | inr other ↦ refused (invalid_signature "GRUP" sig) (advance 4 c) (rw (other) refl)
      ])

parse_record_header-Taken : (c : SliceCursor) → Taken 24 parse_record_header c
unfolding parse_record_header
parse_record_header-Taken c =
    Taken-bind 4 20 (reading (read_array 4)) _ c (read_array-Taken 4 c) (λ sig _.
      Taken-bind 4 16 (reading read_u32) _ (at 4) (read_u32-Taken (at 4)) (λ data_size _.
        Taken-bind 4 12 (reading read_u32) _ (advance 4 (at 4)) (read_u32-Taken _) (λ flags_raw _.
          Taken-bind 4 8 (reading read_u32) _ (advance 4 (advance 4 (at 4))) (read_u32-Taken _)
            (λ form_id_raw _.
              Taken-bind 4 4 (reading read_u32) _ (advance 4 (advance 4 (advance 4 (at 4))))
                (read_u32-Taken _)
                (λ version_control _.
                  Taken-bind 2 2 (reading read_u16) _
                    (advance 4 (advance 4 (advance 4 (advance 4 (at 4))))) (read_u16-Taken _)
                    (λ form_version _.
                      Taken-map 2 (reading read_u16) _
                        (advance 2 (advance 4 (advance 4 (advance 4 (advance 4 (at 4))))))
                        (read_u16-Taken _)))))))
  where
    at : ℕ → SliceCursor
    at n = advance n c

block_of-Fine :
    (header : RecordHeader) (raw_data : List ℕ) (c : SliceCursor)
    → Fine (λ block c'. c' ≡ c) (block_of header raw_data c)
unfolding block_of Fine
block_of-Fine header raw_data c = ground arith

Moved-trans :
    (c d e e' : SliceCursor) (m n : ℕ) → Moved c m d → Moved d n e → e' ≡ e → Moved c (m + n) e'
Moved-trans c d e e' m n first next same = (
  same ∙ next.0 ∙ ap (advance n) first.0 ∙ advance-advance m n (m + n) c refl,
  ground (arith, first, next),
)

-- A record takes the 24 bytes of its header and the block that the header announces.
pub parse_header-Fine :
    (c : SliceCursor) → Fine (λ r c'. Moved c (24 + r.header.data_size) c') (parse_header c)
unfolding parse_header Fine
parse_header-Fine c =
    Fine-bind (λ header c'. Moved c 24 c') _ parse_record_header _ c
      (Taken-Fine 24 parse_record_header c (parse_record_header-Taken c))
      (λ header c' moved. elim (Bool-cases (bytes_eq header.signature Signature.grup)) [
        | inl same ↦ rw (same) tt
        | inr other ↦ rw (other) (
            Fine-bind (λ raw_data d. Moved c' header.data_size d) _
              (reading (read_slice header.data_size)) _ c'
              (Taken-Fine header.data_size (reading (read_slice header.data_size)) c'
                (read_slice-Taken header.data_size c'))
              (λ raw_data d moved_on.
                Fine-bind (λ block e. e ≡ d) _ (block_of header raw_data) _ d
                  (block_of-Fine header raw_data d)
                  (λ block e same. Moved-trans c c' d e 24 header.data_size moved moved_on same)))
      ])

pub parse_group_header-Fine :
    (c : SliceCursor) → Fine (λ header c'. Moved c 24 c') (parse_group_header c)
parse_group_header-Fine c = Taken-Fine 24 parse_group_header c (parse_group_header-Taken c)
