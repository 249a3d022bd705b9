-- ===== src/Core/Cache/Data.antt =====
-- cache.rs: `PluginCache` and its methods. The cell of the EditorID index is left out: each search
-- builds what it would hold. `lower` is the language's `to_lowercase`, `text` the string of bytes
-- that are valid UTF-8, and an index out of bounds a panic.
use bethkit.Prelude.{
  String, ℕ, List, [], ◌∷◌, ◌++◌, Option, none, some, length, get_elem?, Bool, true, false, ◌&&◌,
  ◌==◌, ◌≡◌, ◌↔◌, refl, ap₂, arith, if◌then◌else◌,
}
use bethkit.Prelude.Action.{Action, Outcome, done, fail}
use bethkit.Prelude.Result.{Result, ok, err, ◌>>=◌}
use bethkit.Prelude.Dict.{Dict, Key, lookup, insert, same_refl}
use bethkit.Prelude.Keys.{nat_key, string_key, bytes_key}
use bethkit.Core.Signature.{Signature}
use bethkit.Core.Error.{CoreError}
use bethkit.Core.Types.{FormId, is_null}
use bethkit.Core.LoadOrder
use bethkit.Core.LoadOrder.{Panic, GlobalFormId, LoadOrderEntry, LoadOrder, push, resolve}
use bethkit.Core.Record.Data.{Record}
use bethkit.Core.Plugin.Data
use bethkit.Core.Plugin.Data.{Plugin, plugin_records, find_record}

abbrev pub gfid_same : GlobalFormId → GlobalFormId → Bool
gfid_same g h = string_key.same g.plugin_name h.plugin_name && g.object_id == h.object_id

both_true : (a b : Bool) → (a && b) ≡ true → (a ≡ true) × (b ≡ true)
both_true true b e = (refl, e)
both_true false b e = (e, ground (arith, e))

pub gfid_same_iff : (g h : GlobalFormId) → (gfid_same g h ≡ true) ↔ (g ≡ h)
gfid_same_iff g h = (
  λ e.
      ap₂ (λ n o. record { plugin_name = n; object_id = o })
        ((string_key.same_iff g.plugin_name h.plugin_name).0 (both_true _ _ e).0)
        ((nat_key.same_iff g.object_id h.object_id).0 (both_true _ _ e).1),
  λ e. rw (e, same_refl h.plugin_name, same_refl h.object_id) refl,
)

instance abbrev pub gfid_key : Key GlobalFormId
gfid_key = record { same = gfid_same; same_iff = gfid_same_iff }

pub record CacheEntry : Type 0 where
  pub name : String
  pub plugin : Plugin

-- The index of the entry, the FormID in its file and the signature.
abbrev pub Winner : Type 0
Winner = ℕ × FormId × Signature

pub record PluginCache : Type 0 where
  pub entries : List CacheEntry
  pub load_order : LoadOrder
  pub by_global_id : Dict GlobalFormId Winner
  pub by_signature : Dict Signature (List GlobalFormId)

unfoldable pub new : PluginCache
new = record { entries = []; load_order = LoadOrder.new; by_global_id = []; by_signature = [] }

unfoldable pub len : PluginCache → ℕ
len c = length c.entries

unfoldable pub record_count : PluginCache → ℕ
record_count c = length c.by_global_id

-- Why `add` stops.
pub data Stop : Type 0 where
  refused : CoreError → Stop
  panicked : Panic → Stop

abbrev pub Triple : Type 0
Triple = GlobalFormId × FormId × Signature

-- `or_default`
abbrev pub or_empty : {A : Type 0} → Option (List A) → List A
or_empty none = []
or_empty (some xs) = xs

-- `retain(|g| g != &gfid)`
unfoldable pub retain_others : GlobalFormId → List GlobalFormId → List GlobalFormId
retain_others gfid [] = []
retain_others gfid (g ∷ gs) =
    let rest = retain_others gfid gs in if gfid_same g gfid then rest else g ∷ rest

-- `get_mut` and the removal.
abbrev pub drop_from :
    GlobalFormId
    → Signature
    → Option (List GlobalFormId)
    → Dict Signature (List GlobalFormId)
    → Dict Signature (List GlobalFormId)
drop_from gfid old_sig none by_signature = by_signature
drop_from gfid old_sig (some sig_list) by_signature =
    insert old_sig (retain_others gfid sig_list) by_signature

-- The stale entry leaves the list of the signature that the record had.
unfoldable pub drop_stale :
    GlobalFormId
    → Option Winner
    → Dict Signature (List GlobalFormId)
    → Dict Signature (List GlobalFormId)
drop_stale gfid none by_signature = by_signature
drop_stale gfid (some (index, raw, old_sig)) by_signature =
    drop_from gfid old_sig (lookup old_sig by_signature) by_signature

-- `entry(sig).or_default().push(gfid)`
unfoldable pub push_gfid :
    Signature
    → GlobalFormId
    → Dict Signature (List GlobalFormId)
    → Dict Signature (List GlobalFormId)
push_gfid sig gfid by_signature =
    insert sig (or_empty (lookup sig by_signature) ++ gfid ∷ []) by_signature

abbrev pub Indexes : Type 0
Indexes = Dict GlobalFormId Winner × Dict Signature (List GlobalFormId)

-- One round of the loop over the triples.
unfoldable pub index_one : ℕ → Triple → Indexes → Indexes
unfolding drop_stale push_gfid
index_one entry_index (gfid, raw, sig) (by_global_id, by_signature) = (
  insert gfid (entry_index, raw, sig) by_global_id,
  push_gfid sig gfid (drop_stale gfid (lookup gfid by_global_id) by_signature),
)

unfoldable pub index_all : ℕ → List Triple → Indexes → Indexes
unfolding index_one
index_all entry_index [] indexes = indexes
index_all entry_index (t ∷ ts) indexes = index_all entry_index ts (index_one entry_index t indexes)

-- `find_record` of an entry. The index of an entry that is not there would panic; `entry_there` of the
-- cache's invariant excludes it.
abbrev pub record_in : Option CacheEntry → FormId → Option Record
record_in none raw = none
record_in (some entry) raw = find_record entry.plugin raw

-- What the entries hold of a winner.
abbrev pub held : List CacheEntry → Option Winner → Option Record
held entries none = none
held entries (some (index, raw, sig)) = record_in (get_elem? entries index) raw

unfoldable pub resolve_record : PluginCache → GlobalFormId → Option Record
resolve_record c gfid = held c.entries (lookup gfid c.by_global_id)

-- The items of an iterator that have a record.
unfoldable pub with_records : PluginCache → List GlobalFormId → List (GlobalFormId × Record)
unfolding resolve_record
with_records c [] = []
with_records c (gfid ∷ gfids) = elim (resolve_record c gfid) [
  | none ↦ with_records c gfids
  | some r ↦ (gfid, r) ∷ with_records c gfids
]

unfoldable pub records_of_type : PluginCache → Signature → List (GlobalFormId × Record)
unfolding with_records
records_of_type c sig = with_records c (or_empty (lookup sig c.by_signature))

module _ (lower : String → String) (text : List ℕ → String) where
  -- The collection of the triples of a plugin's records.
  unfoldable pub triples_of :
      LoadOrder → String → List String → List Record → Result Panic (List Triple)
  triples_of lo canonical masters [] = ok []
  triples_of lo canonical masters (r ∷ rs) =
      let rest = triples_of lo canonical masters rs in
      if is_null r.header.form_id then rest else (do
        found ← resolve lower lo r.header.form_id canonical masters
        ts ← rest
        elim found [
          | none ↦ ok ts
          | some gfid ↦ ok ((gfid, r.header.form_id, r.header.signature) ∷ ts)
        ])

  unfoldable pub texts : List (List ℕ) → List String
  texts [] = []
  texts (bytes ∷ rest) = text bytes ∷ texts rest

  -- The plugin goes into the entries and its records into the indexes.
  unfoldable pub add_resolved :
      String
      → Plugin
      → PluginCache
      → Result Panic (List Triple)
      → Outcome Stop PluginCache (Unit {0})
  unfolding index_all
  add_resolved canonical plugin c (err p) = fail (panicked p) c
  add_resolved canonical plugin c (ok triples) =
      let indexes = index_all (length c.entries) triples (c.by_global_id, c.by_signature) in
      done tt (record c {
        entries = c.entries ++ record { name = canonical; plugin = plugin } ∷ [];
        by_global_id = indexes.0;
        by_signature = indexes.1;
      })

  -- What follows the registration in the load order.
  unfoldable pub add_pushed :
      String
      → Plugin
      → PluginCache
      → Outcome CoreError LoadOrder LoadOrderEntry
      → Outcome Stop PluginCache (Unit {0})
  unfolding triples_of texts add_resolved
  add_pushed canonical plugin c (fail e lo) = fail (refused e) (record c { load_order = lo })
  add_pushed canonical plugin c (done entry lo) =
      add_resolved canonical plugin (record c { load_order = lo })
        (triples_of lo canonical (texts plugin.header.masters) (plugin_records plugin.groups))

  unfoldable pub add : String → Plugin → Action Stop PluginCache (Unit {0})
  unfolding add_pushed
  add name plugin c =
      add_pushed (lower name) plugin c (push lower name (Data.kind plugin) c.load_order)
