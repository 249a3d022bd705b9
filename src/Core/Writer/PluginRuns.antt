-- ===== src/Core/Writer/PluginRuns.antt =====
-- A plugin of one group that is made light.
use bethkit.Prelude.{
  ℕ, ◌+◌, ◌*◌, ◌%◌, ◌^◌, ◌<◌, ◌≡◌, ◌≢◌, refl, arith, List, [], ◌∷◌, length, All, true, false, none,
}
use bethkit.Prelude.Int.{pos}
use bethkit.Prelude.Action.{done}
use bethkit.Prelude.Dict.{Dict, lookup, insert}
use bethkit.Prelude.Keys.{nat_key}
use bethkit.Core.Signature
use bethkit.Core.Types.{light_min_object_id, light_max_object_id, Game, supports_light, object_id}
use bethkit.Core.Writer.Data.{WritableRecord}
use bethkit.Core.Writer.Groups.{WritableGroup, group, record_child, nil, cons, all_records}
use bethkit.Core.Writer.Plugin.{PluginWriter, new, add_group, owned_records, next_object_id}
use bethkit.Core.Writer.Eslify.{eslify, apply_fid_remap_in_record, apply_fid_remap_in_group}
use bethkit.Core.Writer.Light.{eslify-next_object_id}
use bethkit.Core.Writer.NextId.{next_object_id-above}
use bethkit.Io.Bytes.{to_le_bytes, from_le_bytes}

-- A record of the plugin's own that refers to itself.
abbrev glob : ℕ → List ℕ → WritableRecord
glob form_id reference = record {
  signature = 71 ∷ 76 ∷ 79 ∷ 66 ∷ [];
  flags = 0;
  form_id = form_id;
  form_version = 44;
  subrecords = record { signature = Signature.data_sig; bytes = reference } ∷ [];
}

abbrev globs : WritableRecord → WritableGroup
globs r = group (71 ∷ 76 ∷ 79 ∷ 66 ∷ []) (pos 0) (cons (record_child r) nil)

abbrev plugin : PluginWriter
plugin = record {
  ctx = record { game = Game.fallout4 };
  header = record { masters = []; description = none; version = 0 };
  groups = globs (glob 2051 (3 ∷ 8 ∷ 0 ∷ 0 ∷ [])) ∷ [];
  light_flag_set = false;
  localized = false;
}

abbrev light : PluginWriter
light = record plugin {
  groups = globs (glob (0xFE * 2 ^ 24 + 2048) (0 ∷ 8 ∷ 0 ∷ 254 ∷ [])) ∷ [];
  light_flag_set = true;
}

plugin_run :
    add_group (globs (glob 2051 (3 ∷ 8 ∷ 0 ∷ 0 ∷ []))) (new (record { game = Game.fallout4 }) 0)
    ≡ plugin
unfolding add_group new
plugin_run = refl

eslify_run : eslify plugin ≡ done tt light
unfolding eslify supports_light light_max_object_id light_min_object_id apply_fid_remap_in_group
    apply_fid_remap_in_record lookup insert from_le_bytes to_le_bytes
eslify_run = refl

no_masters : length plugin.header.masters % 2 ^ 8 ≢ 0xFE
no_masters = omega arith

eslify-next_object_id_example :
    next_object_id light.groups (length light.header.masters % 2 ^ 8) ≡ 0x800
eslify-next_object_id_example = eslify-next_object_id plugin light no_masters eslify_run

next_object_id-above_example :
    All
      (λ r. object_id r.form_id < next_object_id plugin.groups 0)
      (owned_records 0 (all_records plugin.groups))
next_object_id-above_example = next_object_id-above plugin.groups 0
