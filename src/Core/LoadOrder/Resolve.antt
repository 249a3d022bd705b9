-- ===== src/Core/LoadOrder/Resolve.antt =====
-- What `resolve` answers in a load order that `push` built.
use bethkit.Prelude.{ℕ, refl, ◌⊎◌, [], ◌∷◌, ◌+◌, ◌*◌, ◌^◌, ◌<◌, ◌≡◌, ◌≢◌, arith, String, List}
use bethkit.Prelude.{
  some, none, length, get_elem?, get_elem?-total, get_elem?-snoc, get_elem?-append,
}
use bethkit.Prelude.{Option-cases, Bool-cases, leb, ltb, ◌==◌}
use mathlib.Core.Logic.{inl, inr}
use bethkit.Prelude.Action.{done, final}
use bethkit.Prelude.Result.{ok}
use bethkit.Prelude.Dict.{lookup, lookup-insert}
use bethkit.Prelude.Keys.{nat_key, string_key}
use bethkit.Core.Types.{FormId, PluginKind, file_index, esl_slot, esl_object, object_id}
use bethkit.Core.Types.Forms.{esl_round_trip}
use bethkit.Core.LoadOrder.{LoadOrder, LoadOrderEntry, GlobalFormId, new, push, resolve}
use bethkit.Core.LoadOrder.{resolve_light, owner_name, push_light, push_regular}
use bethkit.Core.LoadOrder.Invariant.{IsValid, new-IsValid}
use bethkit.Core.LoadOrder.Pushes.{push-IsValid}

-- The answer for a light slot: the plugin that has it, or none if no plugin has.
resolve_light_cases :
    (lo : LoadOrder) (raw : FormId)
    → IsValid lo
    → ((i : ℕ) × (e : LoadOrderEntry) × (get_elem? lo.entries i ≡ some e)
        × (e.light_slot ≡ some (esl_slot raw))
        × (resolve_light lo raw
            ≡ ok (some (record { plugin_name = e.name; object_id = esl_object raw }))))
      ⊎ (((i : ℕ) (e : LoadOrderEntry)
            → get_elem? lo.entries i ≡ some e
            → e.light_slot ≢ some (esl_slot raw))
          × (resolve_light lo raw ≡ ok none))
unfolding resolve_light
resolve_light_cases lo raw v = elim (Option-cases (lookup (esl_slot raw) lo.by_light_slot)) [
  | inl unknown ↦ inr (
    λ i e at_i has. elim (v.placed i e at_i) [
      | inl (slot, k, l) ↦ ground (arith, l.slotted, l.mapped, has, unknown)
      | inr (k, r) ↦ cc (r.slotless, has)
    ],
    rw (unknown, resolve_light) refl,
  )
  | inr (i, found) ↦
      let (e, at_i, slotted) = v.owned (esl_slot raw) i found in
      inl (i, e, at_i, slotted, rw (found, resolve_light) (rw at_i refl))
]

-- What a push adds to, and what it keeps.
record Grows (lo lo' : LoadOrder) : Type 0 where
  slots :
      (slot i : ℕ) → lookup slot lo.by_light_slot ≡ some i → lookup slot lo'.by_light_slot ≡ some i
  kept :
      (i : ℕ) (e : LoadOrderEntry)
      → get_elem? lo.entries i ≡ some e
      → get_elem? lo'.entries i ≡ some e

resolve_light_stable :
    (lo lo' : LoadOrder) (raw : FormId) (g : GlobalFormId)
    → Grows lo lo'
    → resolve_light lo raw ≡ ok (some g)
    → resolve_light lo' raw ≡ ok (some g)
unfolding resolve_light
resolve_light_stable lo lo' raw g grows h =
    elim (Option-cases (lookup (esl_slot raw) lo.by_light_slot)) [
      | inl unknown ↦ ground (arith, unknown)
      | inr (i, found) ↦ elim (Option-cases (get_elem? lo.entries i)) [
        | inl out ↦ ground (arith, found, out)
        | inr (e, at_i) ↦
            ground (arith, found, at_i, grows.slots (esl_slot raw) i found, grows.kept i e at_i)
      ]
    ]

-- The next slot is not in the map yet.
slot_unused :
    (lo : LoadOrder) (i : ℕ) → IsValid lo → lookup lo.light_slot_counter lo.by_light_slot ≢ some i
slot_unused lo i v h =
    let (e, at_i, slotted) = v.owned lo.light_slot_counter i h in
    elim (v.placed i e at_i) [
      | inl (slot, k, l) ↦ ground (arith, l.slotted, l.allotted, slotted)
      | inr (k, r) ↦ cc (r.slotless, slotted)
    ]

push_light-Grows :
    (name : String) (lo : LoadOrder) → IsValid lo → Grows lo (final (push_light name lo))
unfolding push_light
push_light-Grows name lo v = elim (Bool-cases (ltb 0xFFF lo.light_slot_counter)) [
  | inl full ↦ rw full (record { slots = λ slot i h. h; kept = λ i e h. h })
  | inr room ↦ rw room (record {
    slots = λ slot i h. ground (
      arith,
      slot_unused lo i v,
      lookup-insert lo.light_slot_counter slot (length lo.entries) lo.by_light_slot,
    );
    kept = λ i e h. get_elem?-append lo.entries _ i h;
  })
]

push_regular-Grows :
    (name : String) (kind : PluginKind) (lo : LoadOrder)
    → Grows lo (final (push_regular name kind lo))
unfolding push_regular
push_regular-Grows name kind lo = elim (Bool-cases (leb 0xFE lo.regular_index)) [
  | inl full ↦ rw full (record { slots = λ slot i h. h; kept = λ i e h. h })
  | inr room ↦
      rw room (record { slots = λ slot i h. h; kept = λ i e h. get_elem?-append lo.entries _ i h })
]

push-Grows :
    (lower : String → String) (name : String) (kind : PluginKind) (lo : LoadOrder)
    → IsValid lo
    → Grows lo (final (push lower name kind lo))
unfolding push
push-Grows lower name PluginKind.light lo v = push_light-Grows (lower name) lo v
push-Grows lower name PluginKind.plugin lo v = push_regular-Grows (lower name) PluginKind.plugin lo
push-Grows lower name PluginKind.master lo v = push_regular-Grows (lower name) PluginKind.master lo
push-Grows lower name PluginKind.medium lo v = push_regular-Grows (lower name) PluginKind.medium lo
push-Grows lower name PluginKind.update lo v = push_regular-Grows (lower name) PluginKind.update lo

module _ (lower : String → String) where
  -- The load order behind some pushes, accepted or not, the latest first.
  abbrev pub built : List (String × PluginKind) → LoadOrder
  built [] = new
  built ((name, kind) ∷ earlier) = final (push lower name kind (built earlier))

  pub built-IsValid : (pushes : List (String × PluginKind)) → IsValid (built pushes)
  built-IsValid [] = new-IsValid
  built-IsValid ((name, kind) ∷ earlier) =
      push-IsValid lower name kind (built earlier) (built-IsValid earlier)

  -- Behind any pushes onto the empty load order, accepted or refused, `resolve` answers on every
  -- FormID and no index is out of bounds. Behind the sentinel 0xFE it names the plugin whose light
  -- slot the FormID packs, or none if no plugin has the slot; else it names, in lower case, the master
  -- at the file index, the source plugin if the index is the number of masters, and none beyond.
  pub resolve_total :
      (pushes : List (String × PluginKind)) (raw : FormId) (source : String) (masters : List String)
      → ((file_index raw ≡ 0xFE)
          × (((i : ℕ) × (e : LoadOrderEntry) × (get_elem? (LoadOrder.entries (built pushes)) i
                  ≡ some e)
                × (e.light_slot ≡ some (esl_slot raw))
                × (resolve lower (built pushes) raw source masters
                    ≡ ok (some (record { plugin_name = e.name; object_id = esl_object raw }))))
              ⊎ (((i : ℕ) (e : LoadOrderEntry)
                    → get_elem? (LoadOrder.entries (built pushes)) i ≡ some e
                    → e.light_slot ≢ some (esl_slot raw))
                  × (resolve lower (built pushes) raw source masters ≡ ok none))))
        ⊎ ((file_index raw ≢ 0xFE)
            × (((master : String) × (get_elem? masters (file_index raw) ≡ some master)
                  × (resolve lower (built pushes) raw source masters
                      ≡ ok (
                          some (record { plugin_name = lower master; object_id = object_id raw }))))
                ⊎ (((file_index raw ≡ length masters)
                      × (resolve lower (built pushes) raw source masters
                          ≡ ok (
                              some (record {
                                plugin_name = lower source;
                                object_id = object_id raw;
                              }))))
                    ⊎ ((length masters < file_index raw)
                        × (resolve lower (built pushes) raw source masters ≡ ok none)))))
  unfolding resolve owner_name
  resolve_total pushes raw source masters = elim (Bool-cases (file_index raw == 0xFE)) [
    | inl light ↦ inl (
      ground (arith, light),
      rw light (resolve_light_cases (built pushes) raw (built-IsValid pushes)),
    )
    | inr other ↦ inr (
      ground (arith, other),
      elim (Bool-cases (ltb (file_index raw) (length masters))) [
        | inl inside ↦
            let (master, at_index) =
              get_elem?-total masters (file_index raw) (ground (arith, inside)) in
            inl (master, at_index, rw (other, owner_name) (rw inside (rw at_index refl)))
        | inr outside ↦ inr (elim (Bool-cases (file_index raw == length masters)) [
          | inl last ↦
              inl (ground (arith, last), rw (other, owner_name) (rw outside (rw last refl)))
          | inr beyond ↦ inr (
            ground (arith, outside, beyond),
            rw (other, owner_name) (rw outside (rw beyond refl)),
          )
        ])
      ],
    )
  ]

  -- A light plugin that `push` accepts owns its slot: every FormID that packs the slot under the
  -- sentinel 0xFE resolves to the plugin's lowercased name, whichever plugin it is read from.
  pub resolve_pushed_light :
      (lo lo' : LoadOrder) (name source : String) (masters : List String) (e : LoadOrderEntry)
      (object : ℕ)
      → IsValid lo
      → object < 2 ^ 12
      → push lower name PluginKind.light lo ≡ done e lo'
      → (slot : ℕ) × (e.light_slot ≡ some slot)
        × (resolve lower lo' (0xFE * 2 ^ 24 + slot * 2 ^ 12 + object) source masters
            ≡ ok (some (record { plugin_name = lower name; object_id = object })))
  unfolding resolve push
  resolve_pushed_light lo lo' name source masters e object v h pushed = (
    lo.light_slot_counter,
    ground arith,
    ground (
      arith,
      esl_round_trip lo.light_slot_counter object,
      lookup-insert lo.light_slot_counter lo.light_slot_counter (length lo.entries)
          lo.by_light_slot,
      get_elem?-snoc lo.entries e (length lo.entries),
    ),
  )

  -- Adding plugins, accepted or not, changes no answer that names a plugin.
  pub resolve_stable :
      (lo : LoadOrder) (name source : String) (kind : PluginKind) (masters : List String)
      (raw : FormId) (g : GlobalFormId)
      → IsValid lo
      → resolve lower lo raw source masters ≡ ok (some g)
      → resolve lower (final (push lower name kind lo)) raw source masters ≡ ok (some g)
  unfolding resolve push
  resolve_stable lo name source kind masters raw g v h =
      elim (Bool-cases (file_index raw == 0xFE)) [
        | inl light ↦
            rw light
              (resolve_light_stable lo _ raw g (push-Grows lower name kind lo v) (ground arith))
        | inr other ↦ ground (arith, other)
      ]
