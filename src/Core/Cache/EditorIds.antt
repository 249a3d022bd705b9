-- ===== src/Core/Cache/EditorIds.antt =====
-- cache.rs: `find_by_editor_id`, which builds the index of EditorIDs on each call here.
use bethkit.Prelude.{ℕ, ◌+◌, List, [], ◌∷◌, Option, none, some}
use bethkit.Prelude.Result.{Result, ok, err}
use bethkit.Prelude.Dict.{Dict, lookup, insert}
use bethkit.Prelude.Keys.{nat_key, bytes_key}
use bethkit.Io.Cursor.{IoError}
use bethkit.Core.Types.{FormId}
use bethkit.Core.LoadOrder.{GlobalFormId}
use bethkit.Core.Record.Data.{Record}
use bethkit.Core.Record.Text.{editor_id}
use bethkit.Core.Plugin.Data.{plugin_records}
use bethkit.Core.Cache.Data.{gfid_key, CacheEntry, Winner, PluginCache, resolve_record}

abbrev or_default : {K V : Type 0} → Option (Dict K V) → Dict K V
or_default none = []
or_default (some dict) = dict

-- The winning FormIDs of each plugin.
unfoldable pub winning_by_entry :
    Dict GlobalFormId Winner → Dict ℕ (Dict FormId GlobalFormId) → Dict ℕ (Dict FormId GlobalFormId)
winning_by_entry [] grouped = grouped
winning_by_entry ((gfid, (entry_idx, raw_fid, sig)) ∷ rest) grouped =
    winning_by_entry rest
      (insert entry_idx (insert raw_fid gfid (or_default (lookup entry_idx grouped))) grouped)

module _ (decompress_zlib : List ℕ → ℕ → Result IoError (List ℕ)) where
  -- One winning record with its EditorID, if it has one that can be read.
  unfoldable pub index_record :
      GlobalFormId → Record → Dict (List ℕ) GlobalFormId → Dict (List ℕ) GlobalFormId
  index_record gfid r map = elim (editor_id decompress_zlib r) [
    | err e ↦ map
    | ok found ↦ elim found [ none ↦ map | some eid ↦ insert eid gfid map ]
  ]

  unfoldable pub index_records :
      Dict FormId GlobalFormId
      → List Record
      → Dict (List ℕ) GlobalFormId
      → Dict (List ℕ) GlobalFormId
  unfolding index_record
  index_records winning [] map = map
  index_records winning (r ∷ rs) map = elim (lookup r.header.form_id winning) [
    | none ↦ index_records winning rs map
    | some gfid ↦ index_records winning rs (index_record gfid r map)
  ]

  -- The loop over the plugins, from the index of the first on.
  unfoldable pub index_entries :
      Dict ℕ (Dict FormId GlobalFormId)
      → ℕ
      → List CacheEntry
      → Dict (List ℕ) GlobalFormId
      → Dict (List ℕ) GlobalFormId
  unfolding index_records
  index_entries grouped entry_idx [] map = map
  index_entries grouped entry_idx (entry ∷ entries) map =
      index_entries grouped (entry_idx + 1) entries (elim (lookup entry_idx grouped) [
        | none ↦ map
        | some winning ↦ index_records winning (plugin_records entry.plugin.groups) map
      ])

  unfoldable pub find_by_editor_id : PluginCache → List ℕ → Option (GlobalFormId × Record)
  unfolding index_entries winning_by_entry
  find_by_editor_id c edid =
      elim (lookup edid (index_entries (winning_by_entry c.by_global_id []) 0 c.entries [])) [
        | none ↦ none
        | some gfid ↦ elim (resolve_record c gfid) [ none ↦ none | some r ↦ some (gfid, r) ]
      ]
