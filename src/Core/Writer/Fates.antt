-- ===== src/Core/Writer/Fates.antt =====
-- What becomes of each FormID of a plugin that is made light.
use bethkit.Prelude.{
  ℕ, ◌+◌, ◌-◌, ◌*◌, ◌%◌, ◌^◌, ◌≤◌, ◌≡◌, ◌≢◌, refl, inl, inr, ◌⊎◌, ◌<◌, some, arith,
}
use bethkit.Prelude.{List, [], ◌∷◌, length, All, none}
use bethkit.Prelude.{Bool-cases, ◌==◌}
use bethkit.Prelude.Dict.{Dict, lookup}
use bethkit.Prelude.Keys.{nat_key}
use bethkit.Core.Types.{light_min_object_id, light_max_object_id, file_index}
use bethkit.Core.Writer.Data.{WritableRecord}
use bethkit.Core.Writer.Groups.{all_records}
use bethkit.Core.Writer.Plugin.{PluginWriter, owned_records}
use bethkit.Core.Writer.Eslify.{remap_id, remap_loop}
use bethkit.Core.Writer.Slots.{
  IsOneToOne, nil-IsOneToOne, loop-IsOneToOne, AreApart, All-imply, Slotted-AreApart,
}
use bethkit.Core.Writer.Renumber.{Slotted, loop_All-Slotted, loop_absent}

-- `0xFE` in the top byte.
abbrev pub light_base : ℕ
light_base = 0xFE * 2 ^ 24

-- What becomes of a FormID: the plugin's own goes to a light slot, another stays.
abbrev pub Fate : ℕ → ℕ → ℕ → ℕ → ℕ → Type 0
Fate master_count low high form_id new_fid =
    ((file_index form_id ≡ master_count)
      × (light_base + low ≤ new_fid)
      × (new_fid ≤ light_base + high))
    ⊎ ((file_index form_id ≢ master_count) × (new_fid ≡ form_id))

owned_records-owned :
    (master_count : ℕ) (rs : List WritableRecord)
    → All (λ r. file_index r.form_id ≡ master_count) (owned_records master_count rs)
unfolding owned_records
owned_records-owned master_count [] = tt
owned_records-owned master_count (r ∷ rs) =
    elim (Bool-cases (file_index r.form_id == master_count)) [
      | inl own ↦ rw (own) (ground (arith, own), owned_records-owned master_count rs)
      | inr other ↦ rw (other) (owned_records-owned master_count rs)
    ]

-- A property of the plugin's own records, back on the list of all.
owned_back :
    (P : ℕ → Type 0) (master_count : ℕ) (rs : List WritableRecord)
    → All (λ r. P r.form_id) (owned_records master_count rs)
    → All
        (λ r.
          (P r.form_id × (file_index r.form_id ≡ master_count))
          ⊎ (file_index r.form_id ≢ master_count))
        rs
unfolding owned_records
owned_back P master_count [] holds = tt
owned_back P master_count (r ∷ rs) holds =
    elim (Bool-cases (file_index r.form_id == master_count)) [
      | inl own ↦
          let both : All (λ r. P r.form_id) (r ∷ owned_records master_count rs) =
            rw (own) at holds in
          (inl (both.0, ground (arith, own)), owned_back P master_count rs both.1)
      | inr other ↦
          let later : All (λ r. P r.form_id) (owned_records master_count rs) =
            rw (other) at holds in
          (inr (ground (arith, other)), owned_back P master_count rs later)
    ]

lookup_nil : (k : ℕ) → lookup {K = ℕ} {V = ℕ} k [] ≡ none
unfolding lookup
lookup_nil k = refl

module _ (w : PluginWriter) where
  -- The values that `eslify` binds.
  abbrev pub master_count : ℕ
  master_count = length w.header.masters % 2 ^ 8

  abbrev pub low : ℕ
  low = light_min_object_id w.ctx

  abbrev pub high : ℕ
  high = light_max_object_id w.ctx

  abbrev pub old_records : List WritableRecord
  old_records = owned_records master_count (all_records w.groups)

  abbrev pub remap : Dict ℕ ℕ
  remap = remap_loop low old_records 0 []

  Slotted-Fate :
      (n form_id : ℕ)
      → n ≤ high - low + 1
      → low ≤ high
      → Slotted low n remap form_id
      → file_index form_id ≡ master_count
      → Fate master_count low high form_id (remap_id remap form_id)
  Slotted-Fate n form_id few range (v, eq, above, below) own =
      inl (own, rw (eq, remap_id) above, rw (eq, remap_id) (omega arith))

  foreign-Fate :
      (form_id : ℕ)
      → file_index form_id ≢ master_count
      → Fate master_count low high form_id (remap_id remap form_id)
  foreign-Fate form_id foreign = inr (foreign, rw (absent, remap_id) refl)
    where
      absent : lookup form_id remap ≡ none
      absent =
          loop_absent low master_count old_records 0 form_id []
            (owned_records-owned master_count (all_records w.groups)) foreign (lookup_nil form_id)

  low-high : low ≤ high
  unfolding light_min_object_id light_max_object_id
  low-high = ground arith

  pub records-Fate :
      length old_records ≤ high - low + 1
      → All
          (λ r. Fate master_count low high r.form_id (remap_id remap r.form_id))
          (all_records w.groups)
  records-Fate few =
      All-imply _ _ (all_records w.groups)
        (λ r e. elim e [
          | inl (slotted, own) ↦
              Slotted-Fate (length old_records) r.form_id few low-high slotted own
          | inr foreign ↦ foreign-Fate r.form_id foreign
        ])
        (owned_back (Slotted low (length old_records) remap) master_count (all_records w.groups)
          (loop_All-Slotted low (length old_records) old_records 0 [] (omega arith)))

  one_to_one : IsOneToOne low (0 + length old_records) remap
  one_to_one = loop-IsOneToOne low old_records 0 [] (nil-IsOneToOne low)

  pub remap-small :
      length old_records ≤ high - low + 1 → (a v : ℕ) → lookup a remap ≡ some v → v < 2 ^ 32
  unfolding light_min_object_id light_max_object_id
  remap-small few a v found = omega (arith, few, one_to_one.below a v found, low-high, high_small)
    where
      high_small : high < 2 ^ 24
      high_small = omega arith

  pub remap-AreApart : AreApart remap old_records
  remap-AreApart =
      Slotted-AreApart low (length old_records) (0 + length old_records) remap old_records
        one_to_one (loop_All-Slotted low (length old_records) old_records 0 [] (omega arith))
