-- ===== src/Core/Writer/NextId.antt =====
-- The object id that the header announces for the next new record.
use bethkit.Prelude.{ℕ, ◌≤◌, ◌<◌, ◌≡◌, inl, inr, arith}
use bethkit.Prelude.{List, [], ◌∷◌, All, none, some, Option-cases, max}
use bethkit.Core.Types.{object_id}
use bethkit.Core.Writer.Data.{WritableRecord}
use bethkit.Core.Writer.Groups.{WritableGroup, all_records}
use bethkit.Core.Writer.Plugin.{owned_records, max_object_id, next_object_id}
use bethkit.Core.Writer.Slots.{All-imply}

max_object_id-none :
    (P : WritableRecord → Type 0) (rs : List WritableRecord) → max_object_id rs ≡ none → All P rs
unfolding max_object_id
max_object_id-none P [] e = tt
max_object_id-none P (r ∷ rs) e = elim (Option-cases (max_object_id rs)) [
  | inl nothing ↦ absurd (ground (arith, e, nothing))
  | inr (m, found) ↦ absurd (ground (arith, e, found))
]

max_object_id-above :
    (rs : List WritableRecord) (m : ℕ)
    → max_object_id rs ≡ some m
    → All (λ r. object_id r.form_id ≤ m) rs
unfolding max_object_id
max_object_id-above [] m e = tt
max_object_id-above (r ∷ rs) m e = elim (Option-cases (max_object_id rs)) [
  | inl nothing ↦ (ground (arith, e, nothing), max_object_id-none _ rs nothing)
  | inr (k, found) ↦
      let biggest : max (object_id r.form_id) k ≡ m = ground (arith, e, found) in
      (
        omega (arith, biggest),
        All-imply (λ x. object_id x.form_id ≤ k) _ rs (λ x h. omega (arith, h, biggest))
            (max_object_id-above rs k found),
      )
]

-- The next object id lies above the object id of every record that the plugin owns.
pub next_object_id-above :
    (groups : List WritableGroup) (master_count : ℕ)
    → All
        (λ r. object_id r.form_id < next_object_id groups master_count)
        (owned_records master_count (all_records groups))
unfolding next_object_id
next_object_id-above groups master_count =
    elim (Option-cases (max_object_id (owned_records master_count (all_records groups)))) [
      | inl nothing ↦ max_object_id-none _ (owned_records master_count (all_records groups)) nothing
      | inr (m, found) ↦
          All-imply (λ r. object_id r.form_id ≤ m) _
            (owned_records master_count (all_records groups))
            (λ r h. rw (found, next_object_id) (omega (arith, h)))
            (max_object_id-above (owned_records master_count (all_records groups)) m found)
    ]
