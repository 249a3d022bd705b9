-- ===== src/Core/Group/Runs.antt =====
-- A group with one record at a concrete input.
use bethkit.Prelude.{ℕ, ◌+◌, ◌≤◌, ◌≡◌, ◌≢◌, ◌⊎◌, refl, arith, List, [], ◌∷◌, length, none, some}
use bethkit.Prelude.Int.{pos, signed}
use bethkit.Prelude.Action.{done, fail}
use bethkit.Prelude.Fault.{error}
use bethkit.Io.Cursor
use bethkit.Io.Cursor.{SliceCursor}
use bethkit.Core.Error.{CoreError, invalid_group_type}
use bethkit.Core.Record.Data.{Record, raw}
use bethkit.Core.Group.Data.{
  topic_children, GroupType, to_raw, from_raw, label_from_raw, Group, group, record_child,
  group_child, nil, cons, normal, signature, header_of, children,
}
use bethkit.Core.Group.Parse.{
  parse, parse_with, parse_group_header, parse_fields, parse_children, parse_child, after_loop,
}
use bethkit.Core.Record.Header.{parse_header, parse_record_header, block_of}
use bethkit.Io.Bytes.{from_le_bytes}
use bethkit.Prelude.Keys.{bytes_eq}
use bethkit.Core.Group.Types.{from_raw_exact}
use bethkit.Prelude.Result.{ok, err}
use bethkit.Core.Group.Headers.{HeaderAt}
use bethkit.Core.Group.Tiles.{Tiles, parse-Tiles}
use bethkit.Core.Group.Iterate.{collect, iter_new}
use bethkit.Core.Group.Walk.{collect-flatten, flatten_group, turns, turns_group}

-- GRUP of 50 bytes, labelled GLOB, with one record of two bytes.
abbrev bytes : List ℕ
bytes =
    71 ∷ 82 ∷ 85 ∷ 80 ∷ 50 ∷ 0 ∷ 0 ∷ 0 ∷ 71 ∷ 76 ∷ 79 ∷ 66 ∷ 0 ∷ 0 ∷ 0 ∷ 0 ∷ 0 ∷ 0 ∷ 0 ∷ 0 ∷ 0 ∷ 0
    ∷ 0 ∷ 0 ∷ 71 ∷ 76 ∷ 79 ∷ 66 ∷ 2 ∷ 0 ∷ 0 ∷ 0 ∷ 0 ∷ 0 ∷ 0 ∷ 0 ∷ 0 ∷ 8 ∷ 0 ∷ 0 ∷ 0 ∷ 0 ∷ 0 ∷ 0 ∷ 44
    ∷ 0 ∷ 0 ∷ 0 ∷ 7 ∷ 9 ∷ []

abbrev glob : Record
glob = record {
  header = record {
    signature = 71 ∷ 76 ∷ 79 ∷ 66 ∷ [];
    data_size = 2;
    flags = 0;
    form_id = 2048;
    version_control = 0;
    form_version = 44;
    unknown = 0;
  };
  source_range = some (24, 50);
  block = raw (7 ∷ 9 ∷ []);
  parsed = none;
}

abbrev globs : Group
globs =
    group
      (record {
        group_size = 50;
        label = signature (71 ∷ 76 ∷ 79 ∷ 66 ∷ []);
        group_type = normal;
        version_control = 0;
        unknown = 0;
      })
      none (cons (record_child glob) nil)

parse_run : parse (Cursor.new bytes) ≡ done globs (record { bytes = bytes; pos = 50 })
unfolding parse parse_with parse_group_header parse_fields parse_children parse_child after_loop
    from_raw label_from_raw Cursor.checked_add Cursor.read_array Cursor.read_u32 Cursor.read_i32
    Cursor.read_u16 Cursor.read_slice Cursor.peek_bytes from_le_bytes signed bytes_eq parse_header
    parse_record_header block_of
parse_run = refl

parse-Tiles_example :
    ((g : Group) × (parse (Cursor.new bytes)
        ≡ done g (record { bytes = bytes; pos = 0 + (header_of g).group_size }))
      × (0 + (header_of g).group_size ≤ length bytes)
      × HeaderAt bytes 0 (header_of g)
      × Tiles bytes (0 + 24) (0 + (header_of g).group_size) (children g))
    ⊎ ((e : CoreError) × (c' : SliceCursor) × (parse (Cursor.new bytes) ≡ fail (error e) c'))
parse-Tiles_example = parse-Tiles (Cursor.new bytes) (omega arith)

-- The group within another, behind a record.
abbrev nested : Group
nested = group (header_of globs) none (cons (record_child glob) (cons (group_child globs) nil))

nested_turns : turns_group nested + 1 ≤ 8
unfolding turns
nested_turns = omega arith

collect-flatten_example : collect 9 (iter_new nested) ≡ some (flatten_group nested)
collect-flatten_example = collect-flatten nested 9 (omega (arith, nested_turns))

from_raw_exact_example :
    (from_raw (to_raw topic_children) ≡ ok topic_children)
    × (((t : GroupType) × (from_raw (pos 10) ≡ ok t) × (to_raw t ≡ pos 10))
        ⊎ ((from_raw (pos 10) ≡ err (invalid_group_type (pos 10)))
            × ((t : GroupType) → to_raw t ≢ pos 10)))
from_raw_exact_example = from_raw_exact topic_children (pos 10)
