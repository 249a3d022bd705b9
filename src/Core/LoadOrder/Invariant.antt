-- ===== src/Core/LoadOrder/Invariant.antt =====
-- The load order's invariant: the indices and slots are within their ranges, no two plugins share
-- one, and the slot map finds exactly the light plugins.
use bethkit.Prelude.{ℕ, ◌+◌, ◌≤◌, ◌<◌, ◌≡◌, ◌≢◌, ◌⊎◌, refl, arith}
use bethkit.Prelude.{none, some, length, get_elem?}
use bethkit.Prelude.Dict.{lookup}
use bethkit.Prelude.Keys.{nat_key}
use bethkit.Core.Types.{PluginKind}
use bethkit.Core.LoadOrder.{LoadOrder, LoadOrderEntry, new}

-- What an entry at position `i` is, by its kind.
pub record IsLight (lo : LoadOrder) (i : ℕ) (e : LoadOrderEntry) (slot : ℕ) : Type 0 where
  pub sentinel : e.index ≡ 0xFE
  pub slotted : e.light_slot ≡ some slot
  pub allotted : slot < lo.light_slot_counter
  pub mapped : lookup slot lo.by_light_slot ≡ some i

pub record IsRegular (lo : LoadOrder) (e : LoadOrderEntry) : Type 0 where
  pub indexed : e.index < lo.regular_index
  pub slotless : e.light_slot ≡ none

abbrev pub Placed : LoadOrder → ℕ → LoadOrderEntry → Type 0
Placed lo i e =
    ((slot : ℕ) × (e.kind ≡ PluginKind.light) × IsLight lo i e slot)
    ⊎ ((e.kind ≢ PluginKind.light) × IsRegular lo e)

pub record IsValid (lo : LoadOrder) : Type 0 where
  pub regular_small : lo.regular_index ≤ 0xFE
  pub light_small : lo.light_slot_counter ≤ 0x1000
  pub counted : length lo.entries ≡ lo.regular_index + lo.light_slot_counter
  pub placed : (i : ℕ) (e : LoadOrderEntry) → get_elem? lo.entries i ≡ some e → Placed lo i e
  pub owned :
      (slot i : ℕ)
      → lookup slot lo.by_light_slot ≡ some i
      → (e : LoadOrderEntry) × (get_elem? lo.entries i ≡ some e) × (e.light_slot ≡ some slot)
  pub distinct :
      (i j : ℕ) (e f : LoadOrderEntry)
      → get_elem? lo.entries i ≡ some e
      → get_elem? lo.entries j ≡ some f
      → e.index ≡ f.index
      → e.light_slot ≡ f.light_slot
      → i ≡ j

pub new-IsValid : IsValid new
new-IsValid = record {
  regular_small = omega arith;
  light_small = omega arith;
  counted = refl;
  placed = λ i e h. cc;
  owned = λ slot i h. unfold lookup in cc;
  distinct = λ i j e f h k p q. cc;
}
