-- ===== src/Core/Writer/Eslify.antt =====
-- writer.rs: `PluginWriter::eslify` and the rewriting of FormIDs.
use bethkit.Prelude.{ℕ, ◌+◌, ◌-◌, ◌*◌, ◌%◌, ◌^◌, List, [], ◌∷◌, ◌++◌, length, Option, none, some}
use bethkit.Prelude.{true, not, ltb, if◌then◌else◌}
use bethkit.Prelude.Action.{Action, done, fail}
use bethkit.Prelude.Dict.{Dict, lookup, insert}
use bethkit.Prelude.Keys.{nat_key}
use bethkit.Io.Bytes.{from_le_bytes, to_le_bytes}
use bethkit.Core.Error.{CoreError, unsupported_game, esl_record_limit_exceeded}
use bethkit.Core.Types.{supports_light, light_min_object_id, light_max_object_id}
use bethkit.Core.Writer.Data.{WritableSubRecord, WritableRecord}
use bethkit.Core.Writer.Groups.{
  WritableGroup, group, WritableGroupChild, record_child, group_child, WritableChildren, nil, cons,
  all_records,
}
use bethkit.Core.Writer.Plugin.{PluginWriter, owned_records, count_new_records}
use mathlib.Core.List.{map}

-- A window of four bytes: written anew if the table has its number.
abbrev pub window : Option ℕ → List ℕ → List ℕ
window none bytes = bytes
window (some new_fid) bytes = to_le_bytes 4 new_fid

-- The windows of four bytes, one behind the other; up to three bytes are left as they are.
unfoldable pub remap_form_ids_in_bytes : Dict ℕ ℕ → List ℕ → List ℕ
remap_form_ids_in_bytes remap (a ∷ b ∷ c ∷ d ∷ rest) =
    window (lookup (from_le_bytes (a ∷ b ∷ c ∷ d ∷ [])) remap) (a ∷ b ∷ c ∷ d ∷ [])
    ++ remap_form_ids_in_bytes remap rest
remap_form_ids_in_bytes remap bytes = bytes

abbrev pub remap_id : Dict ℕ ℕ → ℕ → ℕ
remap_id remap form_id = elim (lookup form_id remap) [ none ↦ form_id | some new_fid ↦ new_fid ]

unfoldable pub apply_fid_remap_in_record : Dict ℕ ℕ → WritableRecord → WritableRecord
unfolding remap_form_ids_in_bytes
apply_fid_remap_in_record remap r = record r {
  form_id = remap_id remap r.form_id;
  subrecords =
      map {A = WritableSubRecord}
        (λ sr. record sr { bytes = remap_form_ids_in_bytes remap sr.bytes }) r.subrecords;
}

unfoldable mutual
  pub apply_fid_remap_in_group : Dict ℕ ℕ → WritableGroup → WritableGroup
  apply_fid_remap_in_group remap (group label group_type kids) =
      group label group_type (apply_fid_remap_in_children remap kids)

  pub apply_fid_remap_in_child : Dict ℕ ℕ → WritableGroupChild → WritableGroupChild
  apply_fid_remap_in_child remap (record_child r) = record_child (apply_fid_remap_in_record remap r)
  apply_fid_remap_in_child remap (group_child g) = group_child (apply_fid_remap_in_group remap g)

  pub apply_fid_remap_in_children : Dict ℕ ℕ → WritableChildren → WritableChildren
  apply_fid_remap_in_children remap nil = nil
  apply_fid_remap_in_children remap (cons child rest) =
      cons (apply_fid_remap_in_child remap child) (apply_fid_remap_in_children remap rest)

unfoldable pub apply_fid_remap : Dict ℕ ℕ → List WritableGroup → List WritableGroup
apply_fid_remap remap groups = map (apply_fid_remap_in_group remap) groups

-- The loop over the old FormIDs, from the `i`-th on. The `|` of the source is a sum, since
-- `esl_min + i` has no bit in common with `0xFE` in the top byte.
unfoldable pub remap_loop : ℕ → List WritableRecord → ℕ → Dict ℕ ℕ → Dict ℕ ℕ
remap_loop esl_min [] i remap = remap
remap_loop esl_min (r ∷ rs) i remap =
    remap_loop esl_min rs (i + 1) (insert r.form_id (0xFE * 2 ^ 24 + (esl_min + i)) remap)

unfoldable pub eslify : Action CoreError PluginWriter (Unit {0})
unfolding count_new_records owned_records all_records apply_fid_remap remap_loop
eslify w =
    let master_count = length w.header.masters % 2 ^ 8 in
    let new_count = count_new_records w.groups master_count in
    let esl_min = light_min_object_id w.ctx in
    let esl_capacity = light_max_object_id w.ctx - esl_min + 1 in
    let remap = remap_loop esl_min (owned_records master_count (all_records w.groups)) 0 [] in
    if not (supports_light w.ctx)
    then fail (unsupported_game w.ctx.game) w
    else if ltb esl_capacity new_count
    then fail (esl_record_limit_exceeded new_count) w
    else done tt (record w { groups = apply_fid_remap remap w.groups; light_flag_set = true })
