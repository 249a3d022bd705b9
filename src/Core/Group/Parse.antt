-- ===== src/Core/Group/Parse.antt =====
-- group.rs: `Group::parse` and `parse_children`, which call one another.
use bethkit.Prelude.{ℕ, zero, suc, List, none, some, ltb, length, if◌then◌else◌}
use bethkit.Prelude.Action.{done, fail, pure, throw, ◌>>=◌}
use bethkit.Prelude.Result.{Result, ok, err}
use bethkit.Prelude.Fault.{error, out_of_fuel}
use bethkit.Prelude.Keys.{bytes_eq}
use bethkit.Io.Cursor.{checked_add, read_array, read_u32, read_i32, peek_bytes}
use bethkit.Core.Signature
use bethkit.Core.Error.{CoreError, invalid_signature, unexpected_eof}
use bethkit.Core.Record.Data.{Record}
use bethkit.Core.Record.Header.{parse_header}
use bethkit.Core.Record.Subrecords.{Parser, reading}
use bethkit.Core.Group.Data.{GroupHeader, from_raw, label_from_raw}
use bethkit.Core.Group.Data.{
  Group, group, GroupChild, record_child, group_child, GroupChildren, nil, cons,
}

-- `?` on a result.
abbrev pub returning : {A : Type 0} → Result CoreError A → Parser A
returning (ok a) = pure a
returning (err e) = throw (error e)

unfoldable pub parse_fields : Parser GroupHeader
parse_fields = do
  group_size ← reading read_u32
  label_raw ← reading (read_array 4)
  group_type_raw ← reading read_i32
  version_control ← reading read_u32
  unknown ← reading read_u32
  group_type ← returning (from_raw group_type_raw)
  pure (record {
    group_size = group_size;
    label = label_from_raw label_raw group_type;
    group_type = group_type;
    version_control = version_control;
    unknown = unknown;
  })

unfoldable pub parse_group_header : Parser GroupHeader
parse_group_header = do
  sig ← reading (read_array 4)
  if bytes_eq sig Signature.grup then parse_fields else throw (error (invalid_signature "GRUP" sig))

-- `Group::parse`, whose children `kids` parses up to a position.
unfoldable pub parse_with : (ℕ → Parser GroupChildren) → Parser Group
parse_with kids = do
  group_start ← (λ c. done c.pos c)
  header ← parse_group_header
  elim (checked_add group_start header.group_size) [
    | none ↦ throw (error (unexpected_eof "group_size overflow"))
    | some children_end ↦ kids children_end >>= (λ children. pure (group header none children))
  ]

abbrev pub ranged_group : ℕ → ℕ → Group → GroupChild
ranged_group start end (group header source_range kids) =
    group_child (group header (some (start, end)) kids)

abbrev pub ranged_record : ℕ → ℕ → Record → GroupChild
ranged_record start end r = record_child (record r { source_range = some (start, end) })

-- A child, by the signature that the cursor shows.
unfoldable pub parse_child : (ℕ → Parser GroupChildren) → List ℕ → Parser GroupChild
parse_child kids sig_bytes = do
  start ← (λ c. done c.pos c)
  if bytes_eq sig_bytes Signature.grup
      then (do g ← parse_with kids; end ← (λ c. done c.pos c); pure (ranged_group start end g))
      else (do r ← parse_header; end ← (λ c. done c.pos c); pure (ranged_record start end r))

-- The loop is left: `break` at the end of the slice, or the position has reached `end`.
unfoldable pub after_loop : ℕ → Parser GroupChildren
after_loop end c =
    if ltb c.pos end
    then fail (error (unexpected_eof "group children ended before group boundary")) c
    else if ltb end c.pos
    then fail (error (unexpected_eof "group children overshot group boundary")) c
    else done nil c

-- Each child, and each level, takes bytes of the slice.
unfoldable pub parse_children : ℕ → ℕ → Parser GroupChildren
parse_children zero end c = fail out_of_fuel c
parse_children (suc fuel) end c =
    if ltb c.pos end
    then elim (peek_bytes c 4) [
      | none ↦ after_loop end c
      | some sig_bytes ↦
          ◌>>=◌ (parse_child (parse_children fuel) sig_bytes)
            (λ child. parse_children fuel end >>= (λ rest. pure (cons child rest))) c
    ]
    else after_loop end c

unfoldable pub parse : Parser Group
parse c = parse_with (parse_children (suc (length c.bytes))) c
