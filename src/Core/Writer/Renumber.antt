-- ===== src/Core/Writer/Renumber.antt =====
-- What `eslify` makes of the FormIDs of a plugin.
use bethkit.Prelude.{
  ℕ, ◌+◌, ◌*◌, ◌^◌, ◌≤◌, ◌<◌, ◌≡◌, ◌≢◌, refl, sym, ap, ap₂, ◌∙◌, inl, inr, ◌⊎◌, arith,
}
use bethkit.Prelude.{List, [], ◌∷◌, ◌++◌, length, All, none, some}
use bethkit.Prelude.{false, Bool-cases, if◌then◌else◌}
use bethkit.Prelude.Dict.{Dict, lookup, insert, lookup-insert}
use bethkit.Prelude.Keys.{nat_key}
use bethkit.Core.Types.{file_index}
use bethkit.Core.Writer.Data.{WritableRecord}
use bethkit.Core.Writer.Groups.{
  WritableGroup, group, WritableGroupChild, record_child, group_child, WritableChildren, nil, cons,
}
use bethkit.Core.Writer.Groups.{iter_writable_records, iter_child, iter_children, all_records}
use bethkit.Core.Writer.Eslify.{
  remap_loop, apply_fid_remap_in_record, apply_fid_remap_in_group, apply_fid_remap_in_child,
  apply_fid_remap_in_children, apply_fid_remap,
}
use mathlib.Core.Bool.{false≢true}
use mathlib.Core.List.{map}

map_append : {A B : Type 0} (f : A → B) (xs ys : List A) → map f (xs ++ ys) ≡ map f xs ++ map f ys
map_append f [] ys = refl
map_append f (x ∷ xs) ys = ap (λ zs. f x ∷ zs) (map_append f xs ys)

-- The rewriting goes through the records, in order.
mutual
  unfolding iter_writable_records apply_fid_remap_in_group

  iter-apply_group :
      (remap : Dict ℕ ℕ) (g : WritableGroup)
      → iter_writable_records (apply_fid_remap_in_group remap g)
        ≡ map (apply_fid_remap_in_record remap) (iter_writable_records g)
  iter-apply_group remap (group label group_type kids) = iter-apply_children remap kids

  iter-apply_child :
      (remap : Dict ℕ ℕ) (child : WritableGroupChild)
      → iter_child (apply_fid_remap_in_child remap child)
        ≡ map (apply_fid_remap_in_record remap) (iter_child child)
  iter-apply_child remap (record_child r) = refl
  iter-apply_child remap (group_child g) = iter-apply_group remap g

  iter-apply_children :
      (remap : Dict ℕ ℕ) (kids : WritableChildren)
      → iter_children (apply_fid_remap_in_children remap kids)
        ≡ map (apply_fid_remap_in_record remap) (iter_children kids)
  iter-apply_children remap nil = refl
  iter-apply_children remap (cons child rest) =
      ap₂ (λ xs ys. xs ++ ys) (iter-apply_child remap child) (iter-apply_children remap rest)
      ∙ sym (map_append (apply_fid_remap_in_record remap) (iter_child child) (iter_children rest))

pub all_records-apply :
    (remap : Dict ℕ ℕ) (gs : List WritableGroup)
    → all_records (apply_fid_remap remap gs)
      ≡ map (apply_fid_remap_in_record remap) (all_records gs)
unfolding all_records apply_fid_remap
all_records-apply remap [] = refl
all_records-apply remap (g ∷ gs) =
    ap₂ (λ xs ys. xs ++ ys) (iter-apply_group remap g) (all_records-apply remap gs)
    ∙ sym (map_append (apply_fid_remap_in_record remap) (iter_writable_records g) (all_records gs))

-- A FormID that the table sends to one of the first `n` slots from `esl_min` on.
abbrev pub Slotted : ℕ → ℕ → Dict ℕ ℕ → ℕ → Type 0
Slotted esl_min n remap form_id =
    (v : ℕ) × (lookup form_id remap ≡ some v)
    × (0xFE * 2 ^ 24 + esl_min ≤ v)
    × (v < 0xFE * 2 ^ 24 + esl_min + n)

insert-Slotted :
    (esl_min n i key form_id : ℕ) (remap : Dict ℕ ℕ)
    → i < n
    → Slotted esl_min n remap form_id ⊎ (form_id ≡ key)
    → Slotted esl_min n (insert key (0xFE * 2 ^ 24 + (esl_min + i)) remap) form_id
insert-Slotted esl_min n i key form_id remap inside before =
    elim (Bool-cases (nat_key.same form_id key)) [
      | inl same ↦ (slot, looked_up ∙ rw (same) refl, omega arith, omega (arith, inside))
      | inr other ↦ elim before [
        | inl (v, eq, low, high) ↦ (v, looked_up ∙ rw (other) eq, low, high)
        | inr eq ↦ absurd (false≢true (sym other ∙ (nat_key.same_iff form_id key).1 eq))
      ]
    ]
  where
    slot : ℕ
    slot = 0xFE * 2 ^ 24 + (esl_min + i)

    looked_up :
        lookup form_id (insert key slot remap)
        ≡ (if nat_key.same form_id key then some slot else lookup form_id remap)
    looked_up = lookup-insert key form_id slot remap

-- What the loop has put into the table stays there, in its slots.
loop-Slotted :
    (esl_min n : ℕ) (rs : List WritableRecord) (i form_id : ℕ) (remap : Dict ℕ ℕ)
    → i + length rs ≤ n
    → Slotted esl_min n remap form_id
    → Slotted esl_min n (remap_loop esl_min rs i remap) form_id
unfolding remap_loop
loop-Slotted esl_min n [] i form_id remap fits before = before
loop-Slotted esl_min n (r ∷ rs) i form_id remap fits before =
    loop-Slotted esl_min n rs (i + 1) form_id _ (omega (arith, fits))
      (insert-Slotted esl_min n i r.form_id form_id remap (omega (arith, fits)) (inl before))

pub loop_All-Slotted :
    (esl_min n : ℕ) (rs : List WritableRecord) (i : ℕ) (remap : Dict ℕ ℕ)
    → i + length rs ≤ n
    → All (λ r. Slotted esl_min n (remap_loop esl_min rs i remap) r.form_id) rs
unfolding remap_loop
loop_All-Slotted esl_min n [] i remap fits = tt
loop_All-Slotted esl_min n (r ∷ rs) i remap fits = (
  loop-Slotted esl_min n rs (i + 1) r.form_id _ (omega (arith, fits))
      (insert-Slotted esl_min n i r.form_id r.form_id remap (omega (arith, fits)) (inr refl)),
  loop_All-Slotted esl_min n rs (i + 1) _ (omega (arith, fits)),
)

-- A FormID of another plugin is no key of the table.
pub loop_absent :
    (esl_min master_count : ℕ) (rs : List WritableRecord) (i form_id : ℕ) (remap : Dict ℕ ℕ)
    → All (λ r. file_index r.form_id ≡ master_count) rs
    → file_index form_id ≢ master_count
    → lookup form_id remap ≡ none
    → lookup form_id (remap_loop esl_min rs i remap) ≡ none
unfolding remap_loop
loop_absent esl_min master_count [] i form_id remap owned foreign absent = absent
loop_absent esl_min master_count (r ∷ rs) i form_id remap owned foreign absent =
    loop_absent esl_min master_count rs (i + 1) form_id _ owned.1 foreign
      (lookup-insert r.form_id form_id (0xFE * 2 ^ 24 + (esl_min + i)) remap ∙ rw (other) absent)
  where
    other : nat_key.same form_id r.form_id ≡ false
    other = elim (Bool-cases (nat_key.same form_id r.form_id)) [
      | inl same ↦
          absurd (foreign (ap file_index ((nat_key.same_iff form_id r.form_id).0 same) ∙ owned.0))
      | inr e ↦ e
    ]
