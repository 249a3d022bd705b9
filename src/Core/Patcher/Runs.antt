-- ===== src/Core/Patcher/Runs.antt =====
-- The patcher at a concrete plugin.
use bethkit.Prelude.{
  ℕ, ◌+◌, ◌≡◌, refl, arith, List, [], ◌∷◌, ◌++◌, length, All, none, some, true, false,
}
use bethkit.Prelude.Action.{done}
use bethkit.Prelude.Dict
use bethkit.Prelude.Dict.{Dict}
use bethkit.Io.Bytes.{IsByte}
use bethkit.Core.Types.{object_id, file_index, FormId}
use bethkit.Core.Plugin.Runs.{no_zlib, sse, file_bytes, the_plugin, from_bytes_run}
use bethkit.Core.Patcher.Data.{RecordPatch, raw_bytes}
use mathlib.Core.List.{Permᴰ}
use bethkit.Prelude.Result.{ok}
use bethkit.Prelude.Dict.{insert}
use bethkit.Core.Group.Data.{
  Group, group, group_child, nil, cons, header_of, children, source_range_of,
}
use bethkit.Core.Patcher.Data.{PluginPatcher, new, range_key}
use bethkit.Core.Patcher.Order.{reorder_group_records, contains}
use bethkit.Core.Patcher.Accepted.{Fresh, direct_ids, reorder_group_records-Perm}
use bethkit.Core.Plugin.Runs.{globs}
use bethkit.Core.Patcher.Marks.{mark_reordered, mark_groups}
use bethkit.Core.Patcher.Walk.{patched_groups, walk_groups}
use bethkit.Core.Patcher.Write.{write_groups}
use bethkit.Core.Patcher.WriteTo.{write_to}
use bethkit.Core.Patcher.Skips.{write_groups-walk_groups}
use bethkit.Core.Patcher.Untouched.{write_to-source}
use bethkit.Core.Patcher.Totals.{count_all, groups_total}
use bethkit.Core.Patcher.Counts.{counted, raised, count_all-counted}
use bethkit.Core.Plugin.Data.{plugin_records}

file_small : All IsByte file_bytes
file_small = omega arith

-- A patch of the second record, and one for a record that is not there.
abbrev shrink : Dict FormId RecordPatch
shrink = (2049, raw_bytes (9 ∷ 9 ∷ [])) ∷ []

abbrev stray : Dict FormId RecordPatch
stray = (4096, raw_bytes (9 ∷ 9 ∷ [])) ∷ []

write_groups-walk_groups_example :
    write_groups shrink the_plugin.source []
      (mark_groups shrink [] the_plugin.groups [])
      the_plugin.groups
      []
    ≡ done tt ([] ++ walk_groups shrink the_plugin.source the_plugin.groups)
write_groups-walk_groups_example =
    write_groups-walk_groups no_zlib file_bytes sse the_plugin shrink [] file_small from_bytes_run

stray_free : patched_groups stray the_plugin.groups ≡ false
unfolding patched_groups Dict.lookup
stray_free = refl

write_to-source_example :
    write_to no_zlib
      (record { plugin = the_plugin; patches = stray; group_orders = []; header_patch = none })
      []
    ≡ done tt file_bytes
write_to-source_example =
    write_to-source no_zlib file_bytes sse the_plugin stray file_small from_bytes_run stray_free

-- The two records of the group, the other way round.
abbrev turned : PluginPatcher
turned = record {
  plugin = the_plugin;
  patches = [];
  group_orders = ((42, 114), 2049 ∷ 2048 ∷ []) ∷ [];
  header_patch = none;
}

turned_run : reorder_group_records globs (2049 ∷ 2048 ∷ []) (new the_plugin) ≡ ok turned
unfolding reorder_group_records children contains new insert
turned_run = refl

reorder_group_records-Perm_example :
    (range : ℕ × ℕ) × (ids : List FormId) × (source_range_of globs ≡ some range)
    × (direct_ids (children globs) ≡ some ids)
    × Fresh [] ids
    × Permᴰ (2049 ∷ 2048 ∷ []) ids
    × (turned ≡ record (new the_plugin) {
      group_orders = insert range (2049 ∷ 2048 ∷ []) (PluginPatcher.group_orders (new the_plugin));
    })
reorder_group_records-Perm_example =
    reorder_group_records-Perm globs (2049 ∷ 2048 ∷ []) (new the_plugin) turned turned_run

-- Two groups in a third, both of them reordered: the second is not marked.
abbrev leaf : ℕ → Group
leaf start = group (header_of globs) (some (start, start + 72)) nil

abbrev both : Group
both =
    group (header_of globs) (some (0, 168))
      (cons (group_child (leaf 24)) (cons (group_child (leaf 96)) nil))

lost_run :
    mark_reordered (((24, 96), []) ∷ ((96, 168), []) ∷ []) both []
    ≡ (true, (0, 168) ∷ (24, 96) ∷ [])
unfolding mark_reordered Dict.lookup
lost_run = refl

count_all-counted_example :
    count_all 0 (globs ∷ []) 2049
    ≡ counted
        (groups_total (globs ∷ []) + length (plugin_records (globs ∷ [])))
        (raised 0 (plugin_records (globs ∷ [])))
        (record { record_count = 0; next_id = 2049 })
count_all-counted_example = count_all-counted 0 (globs ∷ []) 2049

count_all_run : count_all 0 (globs ∷ []) 2049 ≡ ok (record { record_count = 3; next_id = 2050 })
unfolding count_all children file_index object_id
count_all_run = refl
