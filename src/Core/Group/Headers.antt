-- ===== src/Core/Group/Headers.antt =====
-- The fields of a parsed group header, at the bytes that they were read from.
use bethkit.Prelude.{ℕ, ◌+◌, ◌≡◌, arith}
use bethkit.Prelude.{List}
use bethkit.Prelude.Int.{signed}
use bethkit.Prelude.Action.{done}
use bethkit.Prelude.Result.{ok}
use bethkit.Prelude.Fine.{Fine, Fine-also}
use bethkit.Prelude.Keys.{eq_of_bytes_eq}
use bethkit.Io.Bytes.{from_le_bytes}
use bethkit.Io.Cursor.{SliceCursor, slice, read_array, read_u32, read_i32}
use bethkit.Io.Cursor.Bounds.{advance}
use bethkit.Core.Signature
use bethkit.Core.Group.Data.{GroupHeader, from_raw, label_from_raw}
use bethkit.Core.Group.Moves.{Moved, parse_group_header-Fine}
use bethkit.Core.Group.Parse.{parse_fields, parse_group_header}

-- The 24 bytes of a header, from `start` on, hold its fields.
abbrev pub HeaderAt : List ℕ → ℕ → GroupHeader → Type 0
HeaderAt source start header =
    (slice start (start + 4) source ≡ Signature.grup)
    × (header.group_size ≡ from_le_bytes (slice (start + 4) (start + 8) source))
    × (header.label ≡ label_from_raw (slice (start + 8) (start + 12) source) header.group_type)
    × (from_raw (signed 31 (from_le_bytes (slice (start + 12) (start + 16) source)))
        ≡ ok header.group_type)
    × (header.version_control ≡ from_le_bytes (slice (start + 16) (start + 20) source))
    × (header.unknown ≡ from_le_bytes (slice (start + 20) (start + 24) source))

parse_fields_at :
    (c c' : SliceCursor) (header : GroupHeader)
    → parse_fields c ≡ done header c'
    → (header.group_size ≡ from_le_bytes (slice c.pos (c.pos + 4) c.bytes))
      × (header.label
          ≡ label_from_raw (slice (c.pos + 4) (c.pos + 4 + 4) c.bytes) header.group_type)
      × (from_raw (signed 31 (from_le_bytes (slice (c.pos + 4 + 4) (c.pos + 4 + 4 + 4) c.bytes)))
          ≡ ok header.group_type)
      × (header.version_control
          ≡ from_le_bytes (slice (c.pos + 4 + 4 + 4) (c.pos + 4 + 4 + 4 + 4) c.bytes))
      × (header.unknown
          ≡ from_le_bytes (slice (c.pos + 4 + 4 + 4 + 4) (c.pos + 4 + 4 + 4 + 4 + 4) c.bytes))
unfolding parse_fields read_u32 read_array read_i32
parse_fields_at c c' header e = ground (arith, e)

pub parse_group_header_at :
    (c c' : SliceCursor) (header : GroupHeader)
    → parse_group_header c ≡ done header c'
    → HeaderAt c.bytes c.pos header
unfolding parse_group_header read_array
parse_group_header_at c c' header e = ground (
  arith,
  e,
  parse_fields_at (advance 4 c) c' header,
  eq_of_bytes_eq (slice c.pos (c.pos + 4) c.bytes) Signature.grup,
)

pub parse_group_header-HeaderAt :
    (c : SliceCursor)
    → Fine (λ header c'. Moved c 24 c' × HeaderAt c.bytes c.pos header) (parse_group_header c)
parse_group_header-HeaderAt c =
    Fine-also (λ header c'. Moved c 24 c') (λ header c'. HeaderAt c.bytes c.pos header)
      (parse_group_header c) (parse_group_header-Fine c)
      (λ header c' e. parse_group_header_at c c' header e)
