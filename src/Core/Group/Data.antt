-- ===== src/Core/Group/Data.antt =====
-- group.rs: the type, the label, the header and the tree of a group.
use bethkit.Prelude.{ℕ, List, Option, drop, take, ◌==◌, if◌then◌else◌}
use bethkit.Prelude.Int.{ℤ, pos, negsuc, signed}
use bethkit.Prelude.Result.{Result, ok, err}
use bethkit.Io.Bytes.{from_le_bytes}
use bethkit.Core.Signature.{Signature}
use bethkit.Core.Types.{FormId}
use bethkit.Core.Error.{CoreError, invalid_group_type}
use bethkit.Core.Record.Data.{Record}

pub data GroupType : Type 0 where
  normal world_children interior_cell_block interior_cell_sub_block : GroupType
  exterior_cell_block exterior_cell_sub_block cell_children topic_children : GroupType
  cell_persistent_children cell_temporary_children cell_visible_distant_children : GroupType

unfoldable pub to_raw : GroupType → ℤ
to_raw normal = pos 0
to_raw world_children = pos 1
to_raw interior_cell_block = pos 2
to_raw interior_cell_sub_block = pos 3
to_raw exterior_cell_block = pos 4
to_raw exterior_cell_sub_block = pos 5
to_raw cell_children = pos 6
to_raw topic_children = pos 7
to_raw cell_persistent_children = pos 8
to_raw cell_temporary_children = pos 9
to_raw cell_visible_distant_children = pos 10

unfoldable pub from_raw : ℤ → Result CoreError GroupType
from_raw (negsuc n) = err (invalid_group_type (negsuc n))
from_raw (pos n) =
    if n == 0
    then ok normal
    else if n == 1
    then ok world_children
    else if n == 2
    then ok interior_cell_block
    else if n == 3
    then ok interior_cell_sub_block
    else if n == 4
    then ok exterior_cell_block
    else if n == 5
    then ok exterior_cell_sub_block
    else if n == 6
    then ok cell_children
    else if n == 7
    then ok topic_children
    else if n == 8
    then ok cell_persistent_children
    else if n == 9
    then ok cell_temporary_children
    else if n == 10
    then ok cell_visible_distant_children
    else err (invalid_group_type (pos n))

pub data GroupLabel : Type 0 where
  signature : Signature → GroupLabel
  form_id : FormId → GroupLabel
  grid_cell : ℤ → ℤ → GroupLabel
  block_number : ℤ → GroupLabel

-- The file has y in the first two bytes and x in the last two.
unfoldable pub label_from_raw : List ℕ → GroupType → GroupLabel
label_from_raw raw normal = signature raw
label_from_raw raw exterior_cell_block =
    grid_cell (signed 15 (from_le_bytes (drop 2 raw))) (signed 15 (from_le_bytes (take 2 raw)))
label_from_raw raw exterior_cell_sub_block =
    grid_cell (signed 15 (from_le_bytes (drop 2 raw))) (signed 15 (from_le_bytes (take 2 raw)))
label_from_raw raw interior_cell_block = block_number (signed 31 (from_le_bytes raw))
label_from_raw raw interior_cell_sub_block = block_number (signed 31 (from_le_bytes raw))
label_from_raw raw _ = form_id (from_le_bytes raw)

pub record GroupHeader : Type 0 where
  pub group_size : ℕ
  pub label : GroupLabel
  pub group_type : GroupType
  pub version_control : ℕ
  pub unknown : ℕ

-- `group` has the fields of the struct, and `GroupChildren` is its vector.
mutual
  pub data Group : Type 0 where
    group : GroupHeader → Option (ℕ × ℕ) → GroupChildren → Group

  pub data GroupChild : Type 0 where
    record_child : Record → GroupChild
    group_child : Group → GroupChild

  pub data GroupChildren : Type 0 where
    nil : GroupChildren
    cons : GroupChild → GroupChildren → GroupChildren

abbrev pub header_of : Group → GroupHeader
header_of (group header source_range children) = header

abbrev pub source_range_of : Group → Option (ℕ × ℕ)
source_range_of (group header source_range children) = source_range

unfoldable pub children : Group → GroupChildren
children (group header source_range kids) = kids
