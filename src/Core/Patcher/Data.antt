-- ===== src/Core/Patcher/Data.antt =====
-- patcher.rs: the patches, the patcher and the methods that register edits.
use bethkit.Prelude.{
  Bool, ℕ, List, [], Option, none, some, length, ◌==◌, ◌&&◌, ◌≡◌, ◌↔◌, true, arith,
}
use bethkit.Prelude.Dict.{Dict, Key, insert}
use bethkit.Prelude.Keys.{nat_key}
use bethkit.Core.Types.{FormId, RecordFlags}
use bethkit.Core.Record.Data.{Record}
use bethkit.Core.Record.Text.{source_bytes}
use bethkit.Core.Plugin.Data.{Plugin}
use bethkit.Core.Writer.Data.{WritableRecord, write_record}

-- Texts are their bytes.
pub record PluginHeaderPatch : Type 0 where
  pub masters : Option (List (List ℕ))
  pub description : Option (List ℕ)
  pub flags_set : Option RecordFlags
  pub flags_clear : Option RecordFlags

pub data RecordPatch : Type 0 where
  raw_bytes : List ℕ → RecordPatch

abbrev pub patch_bytes : RecordPatch → List ℕ
patch_bytes (raw_bytes bytes) = bytes

unfoldable pub from_writable_record : WritableRecord → RecordPatch
from_writable_record r = raw_bytes (write_record r [])

unfoldable pub from_record_verbatim : Record → List ℕ → Option RecordPatch
from_record_verbatim r source = elim (source_bytes r source) [
  | none ↦ none
  | some bytes ↦ some (raw_bytes bytes)
]

unfoldable pub byte_len : RecordPatch → ℕ
byte_len patch = length (patch_bytes patch)

-- A range of bytes is a pair, and a key of the map of orders.
abbrev pub range_same : ℕ × ℕ → ℕ × ℕ → Bool
range_same (a, b) (c, d) = (a == c) && (b == d)

pub range_same_iff : (r s : ℕ × ℕ) → (range_same r s ≡ true) ↔ (r ≡ s)
range_same_iff (a, b) (c, d) = (λ h. ground (arith, h), λ e. ground (arith, e))

instance abbrev pub range_key : Key (ℕ × ℕ)
range_key = record { same = range_same; same_iff = range_same_iff }

pub record PluginPatcher : Type 0 where
  pub plugin : Plugin
  pub patches : Dict FormId RecordPatch
  pub group_orders : Dict (ℕ × ℕ) (List FormId)
  pub header_patch : Option PluginHeaderPatch

unfoldable pub new : Plugin → PluginPatcher
new plugin = record { plugin = plugin; patches = []; group_orders = []; header_patch = none }

unfoldable pub replace_record : FormId → RecordPatch → PluginPatcher → PluginPatcher
replace_record form_id patch p = record p { patches = insert form_id patch p.patches }

unfoldable pub patch_header : PluginHeaderPatch → PluginPatcher → PluginPatcher
patch_header patch p = record p { header_patch = some patch }

unfoldable pub patch_count : PluginPatcher → ℕ
patch_count p = length p.patches

unfoldable pub group_reorder_count : PluginPatcher → ℕ
group_reorder_count p = length p.group_orders
