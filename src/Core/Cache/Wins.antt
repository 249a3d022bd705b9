-- ===== src/Core/Cache/Wins.antt =====
-- cache.rs: `add` against what the cache promises, that the plugin added last wins.
use bethkit.Prelude.{String, ℕ, ◌⊎◌, ◌<◌, ◌≡◌, refl, List, Option, none, some}
use bethkit.Prelude.{length}
use bethkit.Prelude.Action.{Outcome, done, fail}
use bethkit.Prelude.Result.{Result, ok}
use bethkit.Prelude.Dict.{lookup}
use bethkit.Core.Signature.{Signature}
use bethkit.Core.Types.{FormId}
use bethkit.Core.LoadOrder.{GlobalFormId, LoadOrder}
use bethkit.Core.Record.Data.{Record}
use bethkit.Core.Plugin.Data
use bethkit.Core.Plugin.Data.{Plugin, plugin_records, find_record}
use bethkit.Core.Cache.Data.{
  gfid_key, Winner, PluginCache, new, Stop, Triple, resolve_record, triples_of, texts,
}
use bethkit.Core.Cache.Index.{last_of, occurrences, IsConsistent}

-- Each id stands once in the list of its winner's signature, and every winner is in a plugin of the
-- cache.
pub record IsValid (c : PluginCache) : Type 0 where
  pub consistent : IsConsistent (c.by_global_id, c.by_signature)
  pub entry_there :
      (gfid : GlobalFormId) (w : Winner)
      → lookup gfid c.by_global_id ≡ some w
      → w.0 < length c.entries

-- The record of the plugin that was added, or the one before.
abbrev pub wins : Option (FormId × Signature) → Plugin → Option Record → Option Record
wins none plugin before = before
wins (some (raw, sig)) plugin before = find_record plugin raw

abbrev index_of : Winner → ℕ
index_of w = w.0

module _ (lower : String → String) (text : List ℕ → String) where
  -- What is promised of an accepted plugin.
  abbrev Accepted : PluginCache → PluginCache → Plugin → List Triple → Type 0
  Accepted c c' plugin ts =
      IsValid c'
      × ((gfid : GlobalFormId)
          → resolve_record c' gfid ≡ wins (last_of gfid ts) plugin (resolve_record c gfid))

  -- The indexes and the entries are those of before.
  abbrev Unchanged : PluginCache → PluginCache → Type 0
  Unchanged c c' =
      (c'.entries ≡ c.entries)
      × (c'.by_global_id ≡ c.by_global_id)
      × (c'.by_signature ≡ c.by_signature)

  abbrev Fate : String → Plugin → PluginCache → Outcome Stop PluginCache (Unit {0}) → Type 0
  Fate canonical plugin c o =
      ((c' : PluginCache) × (ts : List Triple) × (o ≡ done tt c')
        × (triples_of lower text c'.load_order canonical (texts lower text plugin.header.masters)
              (plugin_records plugin.groups)
            ≡ ok ts)
        × Accepted c c' plugin ts)
      ⊎ ((e : Stop) × (c' : PluginCache) × (o ≡ fail e c') × Unchanged c c')

pub new-IsValid : IsValid new
unfolding new occurrences lookup
new-IsValid = record { consistent = λ gfid sig. refl; entry_there = λ gfid w found. cc found }
