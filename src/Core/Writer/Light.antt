-- ===== src/Core/Writer/Light.antt =====
-- `eslify` on every branch, and the identifier that the header announces afterwards.
use bethkit.Prelude.{
  ℕ, ◌+◌, ◌-◌, ◌%◌, ◌^◌, ◌≤◌, ◌<◌, ◌≡◌, ◌≢◌, refl, sym, ap, subst, ◌∙◌, inl, inr, ◌⊎◌, arith,
}
use bethkit.Prelude.{List, [], ◌∷◌, length, All}
use bethkit.Prelude.{true, false, Bool-cases, ltb, ◌==◌}
use bethkit.Prelude.Action.{done, fail, final}
use bethkit.Prelude.Dict.{Dict}
use bethkit.Prelude.Keys.{nat_key}
use bethkit.Core.Error.{unsupported_game, esl_record_limit_exceeded}
use bethkit.Core.Types.{supports_light, light_max_object_id, file_index}
use bethkit.Core.Writer.Data.{WritableRecord}
use bethkit.Core.Writer.Groups.{all_records}
use bethkit.Core.Writer.Plugin.{
  PluginWriter, owned_records, count_new_records, next_object_id, max_object_id,
}
use bethkit.Core.Writer.Eslify.{remap_id, apply_fid_remap_in_record, apply_fid_remap, eslify}
use bethkit.Core.Writer.Renumber.{all_records-apply}
use mathlib.Core.List.{map}
use bethkit.Core.Writer.Fates.{
  light_base, Fate, master_count, low, high, old_records, remap, records-Fate,
}

-- `eslify` and the table of the new FormIDs.
eslify_applied :
    (w : PluginWriter)
    → ((supports_light w.ctx ≡ false) × (eslify w ≡ fail (unsupported_game w.ctx.game) w))
      ⊎ (((high w - low w + 1 < count_new_records w.groups (master_count w))
            × (eslify w
                ≡ fail (esl_record_limit_exceeded (count_new_records w.groups (master_count w))) w))
          ⊎ ((length (old_records w) ≤ high w - low w + 1)
              × (eslify w
                  ≡ done tt (record w {
                    groups = apply_fid_remap (remap w) w.groups;
                    light_flag_set = true;
                  }))))
unfolding eslify count_new_records
eslify_applied w = elim (Bool-cases (supports_light w.ctx)) [
  | inr without ↦ inl (without, rw (without) refl)
  | inl light ↦ inr (elim (Bool-cases (ltb (high w - low w + 1) (length (old_records w)))) [
    | inl many ↦ inl (ground (arith, many), rw (light, many) refl)
    | inr few ↦ inr (ground (arith, few), rw (light, few) refl)
  ])
]

light-file_index :
    (low high fid : ℕ)
    → light_base + low ≤ fid
    → fid ≤ light_base + high
    → high < 2 ^ 24
    → file_index fid ≡ 0xFE
unfolding file_index
light-file_index low high fid above below small = ground arith

unequal : (a b : ℕ) → a ≢ b → (a == b) ≡ false
unequal a b differ = ground (arith, differ)

-- No rewritten record is the plugin's own, unless the count of masters is 254.
disowned :
    (master_count low high : ℕ) (table : Dict ℕ ℕ) (rs : List WritableRecord)
    → master_count ≢ 0xFE
    → high < 2 ^ 24
    → All (λ r. Fate master_count low high r.form_id (remap_id table r.form_id)) rs
    → owned_records master_count (map (apply_fid_remap_in_record table) rs) ≡ []
unfolding owned_records apply_fid_remap_in_record
disowned master_count low high table [] few small fates = refl
disowned master_count low high table (r ∷ rs) few small fates =
    rw (foreign) (disowned master_count low high table rs few small fates.1)
  where
    unlike : file_index (remap_id table r.form_id) ≢ master_count
    unlike = elim fates.0 [
      | inl (own, above, below) ↦
          omega (arith, few, light-file_index low high (remap_id table r.form_id) above below small)
      | inr (other, same) ↦ rw (same) other
    ]

    foreign : (file_index (remap_id table r.form_id) == master_count) ≡ false
    foreign = unequal (file_index (remap_id table r.form_id)) master_count unlike

next_object_id-fresh :
    (w : PluginWriter) (count : ℕ)
    → owned_records count (all_records w.groups) ≡ []
    → next_object_id w.groups count ≡ 0x800
unfolding next_object_id max_object_id
next_object_id-fresh w count none_owned = rw (none_owned, next_object_id, max_object_id) refl

high-small : (w : PluginWriter) → high w < 2 ^ 24
unfolding light_max_object_id
high-small w = omega arith

-- After a successful `eslify` of a plugin whose number of masters, taken modulo 256, is not 254, the
-- next object id is 0x800 again, whatever object ids its records have by then.
pub eslify-next_object_id :
    (w w' : PluginWriter)
    → length w.header.masters % 2 ^ 8 ≢ 0xFE
    → eslify w ≡ done tt w'
    → next_object_id w'.groups (length w'.header.masters % 2 ^ 8) ≡ 0x800
eslify-next_object_id w w' few success = elim (eslify_applied w) [
  | inl (without, e) ↦ ground (arith, success, e)
  | inr (inl (many, e)) ↦ ground (arith, success, e)
  | inr (inr (fit, e)) ↦
      subst (λ x. next_object_id x.groups (length x.header.masters % 2 ^ 8) ≡ 0x800)
        (ap final (sym e ∙ success))
        (next_object_id-fresh
          (record w { groups = apply_fid_remap (remap w) w.groups; light_flag_set = true })
          (length w.header.masters % 2 ^ 8)
          (ap (owned_records (master_count w)) (all_records-apply (remap w) w.groups)
            ∙ disowned (master_count w) (low w) (high w) (remap w) (all_records w.groups) few
                (high-small w) (records-Fate w fit)))
]
