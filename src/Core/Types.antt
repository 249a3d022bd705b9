-- ===== src/Core/Types.antt =====
-- crates/bethkit-core/src/types.rs: FormIDs, plugin kinds and the differences between the games.
-- `FormId` and `RecordFlags` wrap a `u32`, and are numbers here.
pub mod Forms
pub mod Kinds
use Prim.Native.Nat.{bit_and}
use bethkit.Prelude.{ℕ, ◌/◌, ◌%◌, ◌^◌, Bool, true, false, not, ◌&&◌, ◌==◌, if◌then◌else◌}
use bethkit.Core.Signature
use bethkit.Core.Signature.{Signature}

abbrev pub FormId : Type 0
FormId = ℕ

abbrev pub RecordFlags : Type 0
RecordFlags = ℕ

-- `(raw >> 24) as u8`; a shift divides and a low mask is a remainder.
unfoldable pub file_index : FormId → ℕ
file_index raw = raw / 2 ^ 24 % 2 ^ 8

unfoldable pub object_id : FormId → ℕ
object_id raw = raw % 2 ^ 24

unfoldable pub is_null : FormId → Bool
is_null raw = raw == 0

unfoldable pub esl_slot : FormId → ℕ
esl_slot raw = raw / 2 ^ 12 % 2 ^ 12

unfoldable pub esl_object : FormId → ℕ
esl_object raw = raw % 2 ^ 12

abbrev pub flag_esm : RecordFlags
flag_esm = 0x0000_0001

abbrev pub flag_localized : RecordFlags
flag_localized = 0x0000_0080

abbrev pub flag_compressed : RecordFlags
flag_compressed = 0x0004_0000

-- `(raw & mask) != 0`
unfoldable pub has_any : RecordFlags → RecordFlags → Bool
has_any raw mask = not (bit_and raw mask == 0)

pub data PluginKind : Type 0 where
  plugin master light medium update : PluginKind

pub data Game : Type 0 where
  skyrim_se skyrim_le skyrim_vr fallout4 fallout4_vr fallout76 : Game
  starfield oblivion fallout3 fallout_nv morrowind : Game

pub record GameContext : Type 0 where
  pub game : Game

unfoldable pub light_flag : GameContext → RecordFlags
light_flag c = elim c.game [ starfield ↦ 0x0000_0100 | _ ↦ 0x0000_0200 ]

unfoldable pub medium_flag : GameContext → RecordFlags
medium_flag c = 0x0000_0400

unfoldable pub update_flag : GameContext → RecordFlags
update_flag c = elim c.game [ starfield ↦ 0x0000_0200 | _ ↦ 0x0010_0000 ]

unfoldable pub supports_light : GameContext → Bool
supports_light c = elim c.game [
  | skyrim_se ↦ true
  | skyrim_vr ↦ true
  | fallout4 ↦ true
  | fallout4_vr ↦ true
  | fallout76 ↦ true
  | starfield ↦ true
  | _ ↦ false
]

unfoldable pub supports_localization : GameContext → Bool
supports_localization c = elim c.game [
  | skyrim_le ↦ true
  | skyrim_se ↦ true
  | skyrim_vr ↦ true
  | fallout4 ↦ true
  | fallout4_vr ↦ true
  | fallout76 ↦ true
  | starfield ↦ true
  | _ ↦ false
]

unfoldable pub supports_medium : GameContext → Bool
supports_medium c = elim c.game [ starfield ↦ true | _ ↦ false ]

unfoldable pub supports_update : GameContext → Bool
supports_update c = elim c.game [ starfield ↦ true | skyrim_vr ↦ true | _ ↦ false ]

unfoldable pub light_max_object_id : GameContext → ℕ
light_max_object_id c = 0xFFF

unfoldable pub light_min_object_id : GameContext → ℕ
light_min_object_id c = elim c.game [ skyrim_se ↦ 1 | _ ↦ 0x800 ]

unfoldable pub medium_max_object_id : GameContext → ℕ
medium_max_object_id c = 0xFFFF

-- The bits of the `f32`.
unfoldable pub hedr_version : GameContext → ℕ
hedr_version c = elim c.game [
  | morrowind ↦ 0x3fa66666
  | oblivion ↦ 0x3f800000
  | fallout3 ↦ 0x3f70a3d7
  | fallout_nv ↦ 0x3f70a3d7
  | skyrim_le ↦ 0x3f70a3d7
  | skyrim_se ↦ 0x3fd9999a
  | skyrim_vr ↦ 0x3fd9999a
  | fallout4 ↦ 0x3f733333
  | fallout4_vr ↦ 0x3f733333
  | fallout76 ↦ 0x42880000
  | starfield ↦ 0x3f75c28f
]

unfoldable pub header_signature : GameContext → Signature
header_signature c = elim c.game [ morrowind ↦ Signature.tes3 | _ ↦ Signature.tes4 ]

unfoldable pub plugin_kind_from_flags : GameContext → RecordFlags → PluginKind
unfolding supports_medium medium_flag supports_update update_flag supports_light light_flag has_any
plugin_kind_from_flags c raw =
    if supports_medium c && has_any raw (medium_flag c)
    then PluginKind.medium
    else if supports_update c && has_any raw (update_flag c)
    then PluginKind.update
    else if supports_light c && has_any raw (light_flag c)
    then PluginKind.light
    else if has_any raw flag_esm
    then PluginKind.master
    else PluginKind.plugin
