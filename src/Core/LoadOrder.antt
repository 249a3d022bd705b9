-- ===== src/Core/LoadOrder.antt =====
-- crates/bethkit-core/src/load_order.rs: the load order and the resolution of FormIDs. `lower` is
-- the language's Unicode `to_lowercase`. The two hash maps are dictionaries, and an index out of
-- bounds is the error `index_out_of_bounds`.
pub mod Invariant
pub mod Pushes
pub mod Resolve
mod Runs
use bethkit.Prelude.{ℕ, ◌+◌, String, List, [], ◌∷◌, ◌++◌, Option, none, some, length, get_elem?}
use bethkit.Prelude.{leb, ltb, ◌==◌, if◌then◌else◌}
use bethkit.Prelude.Action.{Action, done, fail}
use bethkit.Prelude.Result.{Result, ok, err}
use bethkit.Prelude.Dict.{Dict, lookup, insert}
use bethkit.Prelude.Keys.{nat_key, string_key}
use bethkit.Core.Types.{FormId, PluginKind, file_index, object_id, esl_slot, esl_object}
use bethkit.Core.Error.{CoreError, load_order_index_full, light_slot_overflow}

pub data Panic : Type 0 where
  index_out_of_bounds : Panic

pub record GlobalFormId : Type 0 where
  pub plugin_name : String
  pub object_id : ℕ

pub record LoadOrderEntry : Type 0 where
  pub name : String
  pub index : ℕ
  pub kind : PluginKind
  pub light_slot : Option ℕ

pub record LoadOrder : Type 0 where
  pub entries : List LoadOrderEntry
  pub by_name : Dict String ℕ
  pub regular_index : ℕ
  pub light_slot_counter : ℕ
  pub by_light_slot : Dict ℕ ℕ

abbrev pub new : LoadOrder
new = record {
  entries = [];
  by_name = [];
  regular_index = 0;
  light_slot_counter = 0;
  by_light_slot = [];
}

-- The last part of `push`, which both kinds of plugin share.
unfoldable pub append_entry :
    String → PluginKind → ℕ → Option ℕ → Action CoreError LoadOrder LoadOrderEntry
append_entry canonical kind index light_slot lo =
    let entry : LoadOrderEntry = record {
      name = canonical;
      index = index;
      kind = kind;
      light_slot = light_slot;
    } in
    done entry (record lo {
      entries = lo.entries ++ entry ∷ [];
      by_name = insert canonical (length lo.entries) lo.by_name;
    })

unfoldable pub push_light : String → Action CoreError LoadOrder LoadOrderEntry
unfolding append_entry
push_light canonical lo =
    if ltb 0xFFF lo.light_slot_counter
    then fail light_slot_overflow lo
    else append_entry canonical PluginKind.light 0xFE (some lo.light_slot_counter) (record lo {
      by_light_slot = insert lo.light_slot_counter (length lo.entries) lo.by_light_slot;
      light_slot_counter = lo.light_slot_counter + 1;
    })

unfoldable pub push_regular : String → PluginKind → Action CoreError LoadOrder LoadOrderEntry
unfolding append_entry
push_regular canonical kind lo =
    if leb 0xFE lo.regular_index
    then fail load_order_index_full lo
    else append_entry canonical kind lo.regular_index none
        (record lo { regular_index = lo.regular_index + 1 })

owner_of : Option LoadOrderEntry → FormId → Result Panic (Option GlobalFormId)
owner_of none form_id = err index_out_of_bounds
owner_of (some e) form_id =
    ok (some (record { plugin_name = e.name; object_id = esl_object form_id }))

-- A FormID behind the sentinel 0xFE.
unfoldable pub resolve_light : LoadOrder → FormId → Result Panic (Option GlobalFormId)
unfolding owner_of
resolve_light lo form_id = elim (lookup (esl_slot form_id) lo.by_light_slot) [
  | none ↦ ok none
  | some i ↦ owner_of (get_elem? lo.entries i) form_id
]

indexed : Option String → Result Panic (Option String)
indexed none = err index_out_of_bounds
indexed (some owner) = ok (some owner)

-- `masters[i]`, the source plugin at the end of the list, and nothing beyond.
unfoldable pub owner_name : ℕ → String → List String → Result Panic (Option String)
unfolding indexed
owner_name i source_plugin masters =
    if ltb i (length masters)
    then indexed (get_elem? masters i)
    else if i == length masters
    then ok (some source_plugin)
    else ok none

module _ (lower : String → String) where
  unfoldable pub push : String → PluginKind → Action CoreError LoadOrder LoadOrderEntry
  unfolding push_light push_regular
  push name PluginKind.light lo = push_light (lower name) lo
  push name kind lo = push_regular (lower name) kind lo

  named : FormId → Result Panic (Option String) → Result Panic (Option GlobalFormId)
  named form_id (err panic) = err panic
  named form_id (ok none) = ok none
  named form_id (ok (some owner)) =
      ok (some (record { plugin_name = lower owner; object_id = object_id form_id }))

  unfoldable pub resolve :
      LoadOrder → FormId → String → List String → Result Panic (Option GlobalFormId)
  unfolding resolve_light owner_name named
  resolve lo form_id source_plugin masters =
      if file_index form_id == 0xFE
      then resolve_light lo form_id
      else named form_id (owner_name (file_index form_id) source_plugin masters)
