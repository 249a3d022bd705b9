-- ===== src/Core/Patcher/Write.antt =====
-- patcher.rs: `write_group_header`, `write_record` and `write_group`. The writer is the bytes
-- written so far, and they stay when an error comes back.
use bethkit.Prelude.{ℕ, ◌+◌, ◌%◌, ◌^◌, List, [], ◌∷◌, ◌++◌, Option, none, some, Bool, true}
use bethkit.Prelude.{length, ◌==◌, if◌then◌else◌}
use bethkit.Prelude.Int.{pattern_of}
use bethkit.Prelude.Action.{Action, Outcome, done, fail, pure, throw, ◌>>=◌, ◌>>◌}
use bethkit.Prelude.Dict.{Dict, lookup}
use bethkit.Prelude.Keys.{nat_key}
use bethkit.Io.Bytes.{to_le_bytes}
use bethkit.Core.Signature
use bethkit.Core.Types.{FormId}
use bethkit.Core.Error.{CoreError, invalid_group_record_order, unexpected_eof, format}
use bethkit.Core.Record.Data.{Record}
use bethkit.Core.Record.Text
use bethkit.Core.Record.Text.{range_bytes}
use bethkit.Core.Group.Data.{
  GroupLabel, signature, form_id, grid_cell, block_number, GroupHeader, Group, group, GroupChild,
  record_child, group_child, GroupChildren, nil, cons, to_raw,
}
use bethkit.Core.Patcher.Data.{RecordPatch, patch_bytes, range_key}
use bethkit.Core.Patcher.Marks.{Touched, touches}

abbrev pub Writing : Type 0
Writing = Action CoreError (List ℕ) (Unit {0})

-- `write_all` of a vector.
abbrev pub write_all : {E : Type 0} → List ℕ → Action E (List ℕ) (Unit {0})
write_all bytes out = done tt (out ++ bytes)

unfoldable pub label_bytes : GroupLabel → List ℕ
label_bytes (signature sig) = sig
label_bytes (form_id id) = to_le_bytes 4 id
label_bytes (grid_cell x y) = to_le_bytes 2 (pattern_of 15 y) ++ to_le_bytes 2 (pattern_of 15 x)
label_bytes (block_number n) = to_le_bytes 4 (pattern_of 31 n)

unfoldable pub write_group_header : GroupHeader → ℕ → Writing
unfolding label_bytes to_raw
write_group_header header new_group_size = do
  write_all Signature.grup
  write_all (to_le_bytes 4 new_group_size)
  write_all (label_bytes header.label)
  write_all (to_le_bytes 4 (pattern_of 31 (to_raw header.group_type)))
  write_all (to_le_bytes 4 header.version_control)
  write_all (to_le_bytes 4 header.unknown)

-- `ok_or` and `?`
abbrev pub some_or : {A : Type 0} → Option A → CoreError → Action CoreError (List ℕ) A
some_or none e = throw e
some_or (some a) e = pure a

-- `records().find(..)`: the first direct child that is a record with the id.
unfoldable pub find_child : FormId → GroupChildren → Option Record
find_child id nil = none
find_child id (cons (group_child g) rest) = find_child id rest
find_child id (cons (record_child r) rest) =
    let later = find_child id rest in if r.header.form_id == id then some r else later

-- `and_then(|range| self.group_orders.get(range))`
abbrev pub order_of : Dict (ℕ × ℕ) (List FormId) → Option (ℕ × ℕ) → Option (List FormId)
order_of orders none = none
order_of orders (some range) = lookup range orders

abbrev pub needs_walk : Touched → Option (ℕ × ℕ) → Bool
needs_walk touched none = true
needs_walk touched (some range) = touches range touched

-- `ok(())` with what was written in place of the buffer that the children were written to.
abbrev pub into_group :
    GroupHeader
    → List ℕ
    → Outcome CoreError (List ℕ) (Unit {0})
    → Outcome CoreError (List ℕ) (Unit {0})
into_group header out (fail e children_buf) = fail e out
into_group header out (done _ children_buf) =
    (do write_group_header header ((24 + length children_buf) % 2 ^ 32); write_all children_buf) out

module _ (patches : Dict FormId RecordPatch) (source : List ℕ) where
  unfoldable pub write_record : Record → Writing
  write_record r = elim (lookup r.header.form_id patches) [
    | some patch ↦ write_all (patch_bytes patch)
    | none ↦ (do
      bytes ← some_or (Text.source_bytes r source) (unexpected_eof "record source range")
      write_all bytes)
  ]

  -- The records of a group in the order that was registered.
  unfoldable pub write_ordered : GroupChildren → List FormId → Writing
  unfolding write_record find_child
  write_ordered kids [] = pure tt
  write_ordered kids (id ∷ ids) = do
    r ← some_or (find_child id kids) (
        invalid_group_record_order
          (format "registered FormID {} is no longer in the group" (id ∷ [])))
    write_record r
    write_ordered kids ids

  module _ (orders : Dict (ℕ × ℕ) (List FormId)) (touched : Touched) where
    unfoldable mutual
      pub write_group : Group → Writing
      write_group (group header source_range kids) out =
          let walked = write_children kids (order_of orders source_range) [] in
          if needs_walk touched source_range
          then into_group header out walked
          else (do
            bytes ← some_or (range_bytes source_range source) (unexpected_eof "group source range")
            write_all bytes)
              out

      pub write_child : GroupChild → Writing
      write_child (record_child r) = write_record r
      write_child (group_child g) = write_group g

      -- The body of a group: in the registered order, or child by child.
      pub write_children : GroupChildren → Option (List FormId) → Writing
      write_children nil (some order) out = write_ordered nil order out
      write_children nil none out = done tt out
      write_children (cons child rest) (some order) out = write_ordered (cons child rest) order out
      write_children (cons child rest) none out =
          (do write_child child; write_children rest none) out

    -- The loop over the top-level groups.
    unfoldable pub write_groups : List Group → Writing
    unfolding write_group
    write_groups [] = pure tt
    write_groups (g ∷ gs) = do write_group g; write_groups gs
