-- ===== src/Core/Writer/Groups.antt =====
-- writer.rs: the writable groups, their records in order, and their serialisation.
use bethkit.Prelude.{ℕ, ◌+◌, ◌%◌, ◌^◌, List, [], ◌∷◌, ◌++◌, length}
use bethkit.Prelude.Int.{ℤ, pattern_of}
use bethkit.Io.Bytes.{to_le_bytes}
use bethkit.Core.Signature
use bethkit.Core.Writer.Data.{WritableRecord, write_record}

-- `group` has the label, the type and the children of the struct.
mutual
  pub data WritableGroup : Type 0 where
    group : List ℕ → ℤ → WritableChildren → WritableGroup

  pub data WritableGroupChild : Type 0 where
    record_child : WritableRecord → WritableGroupChild
    group_child : WritableGroup → WritableGroupChild

  pub data WritableChildren : Type 0 where
    nil : WritableChildren
    cons : WritableGroupChild → WritableChildren → WritableChildren

-- All records of a group, depth first.
unfoldable mutual
  pub iter_writable_records : WritableGroup → List WritableRecord
  iter_writable_records (group label group_type kids) = iter_children kids

  pub iter_child : WritableGroupChild → List WritableRecord
  iter_child (record_child r) = r ∷ []
  iter_child (group_child g) = iter_writable_records g

  pub iter_children : WritableChildren → List WritableRecord
  iter_children nil = []
  iter_children (cons child rest) = iter_child child ++ iter_children rest

-- `flat_map` over the groups.
unfoldable pub all_records : List WritableGroup → List WritableRecord
unfolding iter_writable_records
all_records [] = []
all_records (g ∷ gs) = iter_writable_records g ++ all_records gs

-- `WritableGroup::write_to`. The size is added on 32 bits.
unfoldable mutual
  pub write_group : WritableGroup → List ℕ → List ℕ
  write_group (group label group_type kids) buf =
      let children_buf = write_children kids [] in
      buf
      ++ (Signature.grup
          ++ (to_le_bytes 4 ((24 + length children_buf % 2 ^ 32) % 2 ^ 32)
              ++ (label
                  ++ (to_le_bytes 4 (pattern_of 31 group_type)
                      ++ (to_le_bytes 4 0 ++ (to_le_bytes 4 0 ++ children_buf))))))

  pub write_child : WritableGroupChild → List ℕ → List ℕ
  write_child (record_child r) buf = write_record r buf
  write_child (group_child g) buf = write_group g buf

  pub write_children : WritableChildren → List ℕ → List ℕ
  write_children nil buf = buf
  write_children (cons child rest) buf = write_children rest (write_child child buf)
