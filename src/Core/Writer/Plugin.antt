-- ===== src/Core/Writer/Plugin.antt =====
-- writer.rs: PluginWriter, its setters and the serialisation of a plugin.
use bethkit.Prelude.{ℕ, ◌+◌, ◌%◌, ◌^◌, max, List, [], ◌∷◌, ◌++◌, length, Option, none, some}
use bethkit.Prelude.{Bool, false, if◌then◌else◌, ◌==◌}
use Prim.Native.Nat.{bit_or}
use bethkit.Io.Bytes.{to_le_bytes}
use bethkit.Core.Signature
use bethkit.Core.Types.{
  GameContext, file_index, object_id, light_flag, flag_localized, header_signature,
}
use bethkit.Core.Writer.Data.{WritableRecord, write_subrecord}
use bethkit.Core.Writer.Groups.{WritableGroup, all_records, write_group}

-- Names and the description are their UTF-8 bytes, and the version the bits of its `f32`.
pub record WritableHeader : Type 0 where
  pub masters : List (List ℕ)
  pub description : Option (List ℕ)
  pub version : ℕ

pub record PluginWriter : Type 0 where
  pub ctx : GameContext
  pub header : WritableHeader
  pub groups : List WritableGroup
  pub light_flag_set : Bool
  pub localized : Bool

unfoldable pub new : GameContext → ℕ → PluginWriter
new ctx version = record {
  ctx = ctx;
  header = record { masters = []; description = none; version = version };
  groups = [];
  light_flag_set = false;
  localized = false;
}

unfoldable pub add_master : List ℕ → PluginWriter → PluginWriter
add_master name w = record w {
  header = record (w.header) { masters = w.header.masters ++ (name ∷ []) };
}

unfoldable pub set_description : List ℕ → PluginWriter → PluginWriter
set_description desc w = record w { header = record (w.header) { description = some desc } }

unfoldable pub add_group : WritableGroup → PluginWriter → PluginWriter
add_group g w = record w { groups = w.groups ++ (g ∷ []) }

unfoldable pub set_localized : Bool → PluginWriter → PluginWriter
set_localized localized w = record w { localized = localized }

-- `filter` by the file index: the records that the plugin itself owns.
unfoldable pub owned_records : ℕ → List WritableRecord → List WritableRecord
unfolding file_index
owned_records master_count [] = []
owned_records master_count (r ∷ rs) =
    let later = owned_records master_count rs in
    if file_index r.form_id == master_count then r ∷ later else later

unfoldable pub count_new_records : List WritableGroup → ℕ → ℕ
unfolding all_records owned_records
count_new_records groups master_count = length (owned_records master_count (all_records groups))

unfoldable pub count_all_records : List WritableGroup → ℕ
unfolding all_records
count_all_records groups = length (all_records groups)

-- `.map(object_id).max()`
unfoldable pub max_object_id : List WritableRecord → Option ℕ
unfolding object_id
max_object_id [] = none
max_object_id (r ∷ rs) = elim (max_object_id rs) [
  | none ↦ some (object_id r.form_id)
  | some m ↦ some (max (object_id r.form_id) m)
]

unfoldable pub next_object_id : List WritableGroup → ℕ → ℕ
unfolding all_records owned_records max_object_id
next_object_id groups master_count =
    elim (max_object_id (owned_records master_count (all_records groups))) [
      | none ↦ 0x800
      | some id ↦ id + 1
    ]

-- Each master with its eight zero bytes of DATA.
unfoldable pub write_masters : List (List ℕ) → List ℕ → List ℕ
write_masters [] tes4_data = tes4_data
write_masters (master ∷ masters) tes4_data =
    let with_mast =
      write_subrecord (record { signature = Signature.mast; bytes = master ++ (0 ∷ []) })
        tes4_data in
    write_masters masters (
      write_subrecord (record { signature = Signature.data_sig; bytes = to_le_bytes 8 0 })
        with_mast)

abbrev write_description : Option (List ℕ) → List ℕ → List ℕ
write_description none tes4_data = tes4_data
write_description (some desc) tes4_data =
    write_subrecord (record { signature = Signature.snam; bytes = desc ++ (0 ∷ []) }) tes4_data

unfoldable pub hedr_data : PluginWriter → List ℕ
unfolding count_all_records next_object_id
hedr_data w =
    to_le_bytes 4 w.header.version
    ++ (to_le_bytes 4 (count_all_records w.groups % 2 ^ 32)
        ++ to_le_bytes 4 (next_object_id w.groups (length w.header.masters % 2 ^ 8)))

unfoldable pub tes4_flags : PluginWriter → ℕ
tes4_flags w =
    bit_or (if w.light_flag_set then light_flag w.ctx else 0)
      (if w.localized then flag_localized else 0)

unfoldable pub write_tes4 : PluginWriter → List ℕ → List ℕ
unfolding hedr_data tes4_flags write_masters
write_tes4 w buf =
    let with_hedr =
      write_subrecord (record { signature = Signature.hedr; bytes = hedr_data w }) [] in
    let with_masters = write_masters w.header.masters with_hedr in
    let tes4_data = write_description w.header.description with_masters in
    buf
    ++ (header_signature w.ctx
        ++ (to_le_bytes 4 (length tes4_data % 2 ^ 32)
            ++ (to_le_bytes 4 (tes4_flags w)
                ++ (to_le_bytes 4 0
                    ++ (to_le_bytes 4 0 ++ (to_le_bytes 2 0 ++ (to_le_bytes 2 0 ++ tes4_data)))))))

unfoldable pub write_groups : List WritableGroup → List ℕ → List ℕ
unfolding write_group
write_groups [] buf = buf
write_groups (g ∷ gs) buf = write_groups gs (write_group g buf)

unfoldable pub write_to_vec : PluginWriter → List ℕ
unfolding write_tes4 write_groups
write_to_vec w = write_groups w.groups (write_tes4 w [])
