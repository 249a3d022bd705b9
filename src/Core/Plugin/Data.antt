-- ===== src/Core/Plugin/Data.antt =====
-- plugin.rs: the header record and the plugin, and what is asked of them.
use Prim.Native.Nat.{bit_and}
use bethkit.Prelude.{ℕ, List, [], ◌∷◌, ◌++◌, Option, none, some, length, Bool, ◌==◌, if◌then◌else◌}
use bethkit.Prelude.Keys.{bytes_eq}
use bethkit.Core.Signature.{Signature}
use bethkit.Core.Types.{FormId, GameContext, PluginKind, flag_localized}
use bethkit.Core.Record.Data.{Record}
use bethkit.Core.Record.Lookup.{plugin_kind}
use bethkit.Core.Group.Data.{Group}
use bethkit.Core.Group.Walk.{flatten_group}

-- Texts are their bytes, and the version the bits of its `f32`.
pub record PluginHeader : Type 0 where
  pub main : Record
  pub hedr_version : ℕ
  pub record_count : ℕ
  pub next_object_id : FormId
  pub masters : List (List ℕ)
  pub description : Option (List ℕ)

-- `source` is the file, mapped or copied.
pub record Plugin : Type 0 where
  pub source : List ℕ
  pub ctx : GameContext
  pub header : PluginHeader
  pub header_range : ℕ × ℕ
  pub groups : List Group

unfoldable pub kind : Plugin → PluginKind
kind p = plugin_kind p.header.main p.ctx

unfoldable pub is_localized : Plugin → Bool
is_localized p = bit_and p.header.main.header.flags flag_localized == flag_localized

unfoldable pub group_count : Plugin → ℕ
group_count p = length p.groups

-- `records_recursive` of each group, one after the other.
unfoldable pub plugin_records : List Group → List Record
unfolding flatten_group
plugin_records [] = []
plugin_records (g ∷ gs) = flatten_group g ++ plugin_records gs

unfoldable pub with_signature : Signature → List Record → List Record
with_signature sig [] = []
with_signature sig (r ∷ rs) =
    let later = with_signature sig rs in
    if bytes_eq r.header.signature sig then r ∷ later else later

unfoldable pub records_of : Plugin → Signature → List Record
unfolding with_signature plugin_records
records_of p sig = with_signature sig (plugin_records p.groups)

unfoldable pub with_form_id : FormId → List Record → Option Record
with_form_id form_id [] = none
with_form_id form_id (r ∷ rs) =
    let later = with_form_id form_id rs in if r.header.form_id == form_id then some r else later

unfoldable pub find_record : Plugin → FormId → Option Record
unfolding with_form_id plugin_records
find_record p form_id = with_form_id form_id (plugin_records p.groups)
