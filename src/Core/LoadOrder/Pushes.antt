-- ===== src/Core/LoadOrder/Pushes.antt =====
-- `push` keeps the load order valid, whether it accepts the plugin or refuses it.
use bethkit.Prelude.{
  ℕ, ◌+◌, ◌≤◌, ◌<◌, ◌≡◌, ◌≢◌, ◌⊎◌, inl, inr, refl, sym, ap, subst, ◌∙◌, arith, String,
}
use bethkit.Prelude.{List, [], ◌∷◌, ◌++◌, some, none, length, length-append, get_elem?}
use bethkit.Prelude.{get_elem?-snoc, get_elem?-lt, Bool-cases, ltb, leb}
use mathlib.Core.Path.{subst₂}
use bethkit.Prelude.Action.{final}
use bethkit.Prelude.Dict.{lookup, insert, lookup-insert}
use bethkit.Prelude.Keys.{nat_key, string_key}
use bethkit.Core.Types.{PluginKind}
use bethkit.Core.LoadOrder.{LoadOrder, LoadOrderEntry, push_light, push_regular, push}
use bethkit.Core.LoadOrder.Invariant.{IsValid, Placed}

abbrev light_entry : String → ℕ → LoadOrderEntry
light_entry name slot = record {
  name = name;
  index = 0xFE;
  kind = PluginKind.light;
  light_slot = some slot;
}

-- The state after a light plugin is accepted.
abbrev with_light : String → LoadOrder → LoadOrder
with_light name lo = record {
  entries = lo.entries ++ light_entry name lo.light_slot_counter ∷ [];
  by_name = insert name (length lo.entries) lo.by_name;
  regular_index = lo.regular_index;
  light_slot_counter = lo.light_slot_counter + 1;
  by_light_slot = insert lo.light_slot_counter (length lo.entries) lo.by_light_slot;
}

abbrev regular_entry : String → PluginKind → ℕ → LoadOrderEntry
regular_entry name kind index = record {
  name = name;
  index = index;
  kind = kind;
  light_slot = none;
}

-- The state after a regular plugin is accepted.
abbrev with_regular : String → PluginKind → LoadOrder → LoadOrder
with_regular name kind lo = record {
  entries = lo.entries ++ regular_entry name kind lo.regular_index ∷ [];
  by_name = insert name (length lo.entries) lo.by_name;
  regular_index = lo.regular_index + 1;
  light_slot_counter = lo.light_slot_counter;
  by_light_slot = lo.by_light_slot;
}

-- An entry of the longer list is an old one or the new one.
snoc_cases :
    (es : List LoadOrderEntry) (x : LoadOrderEntry) (i : ℕ) (e : LoadOrderEntry)
    → get_elem? (es ++ x ∷ []) i ≡ some e
    → (get_elem? es i ≡ some e) ⊎ ((i ≡ length es) × (x ≡ e))
snoc_cases es x i e h = ground (arith, get_elem?-snoc es x i)

-- An old entry stays where it was.
snoc_old :
    (es : List LoadOrderEntry) (x : LoadOrderEntry) (i : ℕ) (e : LoadOrderEntry)
    → get_elem? es i ≡ some e
    → get_elem? (es ++ x ∷ []) i ≡ some e
snoc_old es x i e h = ground (arith, get_elem?-snoc es x i, get_elem?-lt es i h)

snoc_new :
    (es : List LoadOrderEntry) (x : LoadOrderEntry) → get_elem? (es ++ x ∷ []) (length es) ≡ some x
snoc_new es x = ground (arith, get_elem?-snoc es x (length es))

module _ (name : String) (lo : LoadOrder) (v : IsValid lo) where
  with_light-Placed_old :
      (i : ℕ) (e : LoadOrderEntry) → Placed lo i e → Placed (with_light name lo) i e
  with_light-Placed_old i e (inl (slot, k, l)) = inl (
    slot,
    k,
    record {
      sentinel = l.sentinel;
      slotted = l.slotted;
      allotted = omega (arith, l.allotted);
      mapped = ground (
        arith,
        lookup-insert lo.light_slot_counter slot (length lo.entries) lo.by_light_slot,
        l.allotted,
        l.mapped,
      );
    },
  )
  with_light-Placed_old i e (inr (k, r)) =
      inr (k, record { indexed = r.indexed; slotless = r.slotless })

  with_light-Placed_new :
      Placed (with_light name lo) (length lo.entries) (light_entry name lo.light_slot_counter)
  with_light-Placed_new = inl (
    lo.light_slot_counter,
    refl,
    record {
      sentinel = refl;
      slotted = refl;
      allotted = omega arith;
      mapped = ground (
        arith,
        lookup-insert lo.light_slot_counter lo.light_slot_counter (length lo.entries)
            lo.by_light_slot,
      );
    },
  )

  with_light-Placed :
      (i : ℕ) (e : LoadOrderEntry)
      → get_elem? (with_light name lo).entries i ≡ some e
      → Placed (with_light name lo) i e
  with_light-Placed i e h =
      elim (snoc_cases lo.entries (light_entry name lo.light_slot_counter) i e h) [
        | inl old ↦ with_light-Placed_old i e (v.placed i e old)
        | inr (at_end, same) ↦
            subst₂ (Placed (with_light name lo)) (sym at_end) same with_light-Placed_new
      ]

  with_light-owned :
      (slot i : ℕ)
      → lookup slot (with_light name lo).by_light_slot ≡ some i
      → (e : LoadOrderEntry) × (get_elem? (with_light name lo).entries i ≡ some e)
        × (e.light_slot ≡ some slot)
  with_light-owned slot i h = elim (owner_cases slot i h) [
    | inl (s, at_end) ↦ (
      light_entry name lo.light_slot_counter,
      rw at_end (snoc_new lo.entries (light_entry name lo.light_slot_counter)),
      ap some s,
    )
    | inr old ↦
        let (e, found, slotted) = v.owned slot i old in
        (e, snoc_old lo.entries (light_entry name lo.light_slot_counter) i e found, slotted)
  ]
    where
      owner_cases :
          (slot i : ℕ)
          → lookup slot (with_light name lo).by_light_slot ≡ some i
          → ((lo.light_slot_counter ≡ slot) × (i ≡ length lo.entries))
            ⊎ (lookup slot lo.by_light_slot ≡ some i)
      owner_cases slot i h =
          ground
            (arith, lookup-insert lo.light_slot_counter slot (length lo.entries) lo.by_light_slot)

  -- An old entry differs from the new one.
  light_fresh :
      (e : LoadOrderEntry) (i : ℕ) → Placed lo i e → e.light_slot ≢ some lo.light_slot_counter
  light_fresh e i (inl (slot, k, l)) q = ground (arith, l.slotted, l.allotted)
  light_fresh e i (inr (k, r)) q = cc (r.slotless)

  with_light-distinct :
      (i j : ℕ) (e f : LoadOrderEntry)
      → get_elem? (with_light name lo).entries i ≡ some e
      → get_elem? (with_light name lo).entries j ≡ some f
      → e.index ≡ f.index
      → e.light_slot ≡ f.light_slot
      → i ≡ j
  with_light-distinct i j e f h k p q =
      let x = light_entry name lo.light_slot_counter in
      elim (snoc_cases lo.entries x i e h) [
        | inl old_i ↦ elim (snoc_cases lo.entries x j f k) [
          | inl old_j ↦ v.distinct i j e f old_i old_j p q
          | inr (at_j, same) ↦ absurd (
              light_fresh e i (v.placed i e old_i)
                (q ∙ sym (ap (λ (y : LoadOrderEntry). y.light_slot) same)))
        ]
        | inr (at_i, same) ↦ elim (snoc_cases lo.entries x j f k) [
          | inl old_j ↦ absurd (
              light_fresh f j (v.placed j f old_j)
                (sym q ∙ sym (ap (λ (y : LoadOrderEntry). y.light_slot) same)))
          | inr (at_j, _) ↦ at_i ∙ sym at_j
        ]
      ]

  with_light-IsValid : lo.light_slot_counter ≤ 0xFFF → IsValid (with_light name lo)
  with_light-IsValid room = record {
    regular_small = v.regular_small;
    light_small = omega arith;
    counted =
        omega (
          arith,
          v.counted,
          length-append lo.entries (light_entry name lo.light_slot_counter ∷ []),
        );
    placed = with_light-Placed;
    owned = with_light-owned;
    distinct = with_light-distinct;
  }

  push_light-IsValid : IsValid (final (push_light name lo))
  unfolding push_light
  push_light-IsValid = elim (Bool-cases (ltb 0xFFF lo.light_slot_counter)) [
    | inl full ↦ rw full v
    | inr room ↦ rw room (with_light-IsValid (ground arith))
  ]

module _ (name : String) (kind : PluginKind) (lo : LoadOrder) (v : IsValid lo) where
  with_regular-Placed_old :
      (i : ℕ) (e : LoadOrderEntry) → Placed lo i e → Placed (with_regular name kind lo) i e
  with_regular-Placed_old i e (inl (slot, k, l)) = inl (
    slot,
    k,
    record { sentinel = l.sentinel; slotted = l.slotted; allotted = l.allotted; mapped = l.mapped },
  )
  with_regular-Placed_old i e (inr (k, r)) =
      inr (k, record { indexed = omega (arith, r.indexed); slotless = r.slotless })

  with_regular-Placed :
      kind ≢ PluginKind.light
      → (i : ℕ) (e : LoadOrderEntry) → get_elem? (with_regular name kind lo).entries i ≡ some e
      → Placed (with_regular name kind lo) i e
  with_regular-Placed not_light i e h =
      elim (snoc_cases lo.entries (regular_entry name kind lo.regular_index) i e h) [
        | inl old ↦ with_regular-Placed_old i e (v.placed i e old)
        | inr (at_end, same) ↦
            subst (Placed (with_regular name kind lo) i) same
              (inr (not_light, record { indexed = omega arith; slotless = refl }))
      ]

  -- No old entry has both the new index and no slot.
  regular_fresh :
      (e : LoadOrderEntry) (i : ℕ)
      → Placed lo i e
      → e.index ≡ lo.regular_index
      → e.light_slot ≢ none
  regular_fresh e i (inl (slot, k, l)) p q = cc (l.slotted)
  regular_fresh e i (inr (k, r)) p q = omega (arith, r.indexed)

  with_regular-distinct :
      (i j : ℕ) (e f : LoadOrderEntry)
      → get_elem? (with_regular name kind lo).entries i ≡ some e
      → get_elem? (with_regular name kind lo).entries j ≡ some f
      → e.index ≡ f.index
      → e.light_slot ≡ f.light_slot
      → i ≡ j
  with_regular-distinct i j e f h k p q =
      let x = regular_entry name kind lo.regular_index in
      elim (snoc_cases lo.entries x i e h) [
        | inl old_i ↦ elim (snoc_cases lo.entries x j f k) [
          | inl old_j ↦ v.distinct i j e f old_i old_j p q
          | inr (at_j, same) ↦ absurd (regular_fresh e i (v.placed i e old_i) (cc) (cc))
        ]
        | inr (at_i, same) ↦ elim (snoc_cases lo.entries x j f k) [
          | inl old_j ↦ absurd (regular_fresh f j (v.placed j f old_j) (cc) (cc))
          | inr (at_j, _) ↦ at_i ∙ sym at_j
        ]
      ]

  with_regular-IsValid :
      kind ≢ PluginKind.light → lo.regular_index < 0xFE → IsValid (with_regular name kind lo)
  with_regular-IsValid not_light room = record {
    regular_small = omega arith;
    light_small = v.light_small;
    counted = omega (
      arith,
      v.counted,
      length-append lo.entries (regular_entry name kind lo.regular_index ∷ []),
    );
    placed = with_regular-Placed not_light;
    owned = λ slot i h.
        let (e, found, slotted) = v.owned slot i h in
        (e, snoc_old lo.entries (regular_entry name kind lo.regular_index) i e found, slotted);
    distinct = with_regular-distinct;
  }

  push_regular-IsValid : kind ≢ PluginKind.light → IsValid (final (push_regular name kind lo))
  unfolding push_regular
  push_regular-IsValid not_light = elim (Bool-cases (leb 0xFE lo.regular_index)) [
    | inl full ↦ rw full v
    | inr room ↦ rw room (with_regular-IsValid not_light (ground arith))
  ]

module _ (lower : String → String) where
  -- Whatever is pushed, and whether or not it is accepted, the load order stays valid.
  pub push-IsValid :
      (name : String) (kind : PluginKind) (lo : LoadOrder)
      → IsValid lo
      → IsValid (final (push lower name kind lo))
  unfolding push
  push-IsValid name PluginKind.light lo v = push_light-IsValid (lower name) lo v
  push-IsValid name PluginKind.plugin lo v =
      push_regular-IsValid (lower name) PluginKind.plugin lo v (λ e. cc)
  push-IsValid name PluginKind.master lo v =
      push_regular-IsValid (lower name) PluginKind.master lo v (λ e. cc)
  push-IsValid name PluginKind.medium lo v =
      push_regular-IsValid (lower name) PluginKind.medium lo v (λ e. cc)
  push-IsValid name PluginKind.update lo v =
      push_regular-IsValid (lower name) PluginKind.update lo v (λ e. cc)
