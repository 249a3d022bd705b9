-- ===== src/Core/Group/Types.antt =====
-- The group types against the numbers that the file has for them.
use bethkit.Prelude.{ℕ, zero, suc, ap, ◌≡◌, ◌≢◌, ◌<◌, refl, ◌⊎◌, inl, inr, arith}
use bethkit.Prelude.Int.{ℤ, pos, negsuc}
use bethkit.Prelude.Result.{ok, err}
use bethkit.Core.Error.{invalid_group_type}
use bethkit.Core.Group.Data.{
  GroupType, normal, world_children, interior_cell_block, interior_cell_sub_block,
  exterior_cell_block, exterior_cell_sub_block, cell_children, topic_children,
  cell_persistent_children, cell_temporary_children, cell_visible_distant_children, to_raw,
  from_raw,
}

abbrev code : ℤ → ℕ
code (pos n) = n
code (negsuc n) = 11

to_raw-small : (t : GroupType) → code (to_raw t) < 11
unfolding to_raw
to_raw-small t = ground arith

-- A number is read as a group type that is written as it, or is that of no group type and refused.
pub from_raw_cases :
    (v : ℤ)
    → ((t : GroupType) × (from_raw v ≡ ok t) × (to_raw t ≡ v))
      ⊎ ((from_raw v ≡ err (invalid_group_type v)) × ((t : GroupType) → to_raw t ≢ v))
unfolding from_raw to_raw
from_raw_cases (negsuc n) = inr (refl, λ t e. omega (arith, to_raw-small t, ap code e))
from_raw_cases (pos zero) = inl (normal, refl, refl)
from_raw_cases (pos (suc zero)) = inl (world_children, refl, refl)
from_raw_cases (pos (suc (suc zero))) = inl (interior_cell_block, refl, refl)
from_raw_cases (pos (suc (suc (suc zero)))) = inl (interior_cell_sub_block, refl, refl)
from_raw_cases (pos (suc (suc (suc (suc zero))))) = inl (exterior_cell_block, refl, refl)
from_raw_cases (pos (suc (suc (suc (suc (suc zero)))))) = inl (exterior_cell_sub_block, refl, refl)
from_raw_cases (pos (suc (suc (suc (suc (suc (suc zero))))))) = inl (cell_children, refl, refl)
from_raw_cases (pos (suc (suc (suc (suc (suc (suc (suc zero)))))))) =
    inl (topic_children, refl, refl)
from_raw_cases (pos (suc (suc (suc (suc (suc (suc (suc (suc zero))))))))) =
    inl (cell_persistent_children, refl, refl)
from_raw_cases (pos (suc (suc (suc (suc (suc (suc (suc (suc (suc zero)))))))))) =
    inl (cell_temporary_children, refl, refl)
from_raw_cases (pos (suc (suc (suc (suc (suc (suc (suc (suc (suc (suc zero))))))))))) =
    inl (cell_visible_distant_children, refl, refl)
from_raw_cases (pos (suc (suc (suc (suc (suc (suc (suc (suc (suc (suc (suc n)))))))))))) =
    inr (ground arith, λ t e. omega (arith, to_raw-small t, ap code e))

from_raw-to_raw : (t : GroupType) → from_raw (to_raw t) ≡ ok t
unfolding from_raw to_raw
from_raw-to_raw normal = refl
from_raw-to_raw world_children = refl
from_raw-to_raw interior_cell_block = refl
from_raw-to_raw interior_cell_sub_block = refl
from_raw-to_raw exterior_cell_block = refl
from_raw-to_raw exterior_cell_sub_block = refl
from_raw-to_raw cell_children = refl
from_raw-to_raw topic_children = refl
from_raw-to_raw cell_persistent_children = refl
from_raw-to_raw cell_temporary_children = refl
from_raw-to_raw cell_visible_distant_children = refl

-- Each group type is read back from the number that it is written as. A number that is read as a
-- group type is the one that this type is written as; one that is that of no group type is refused
-- with an error that names it; and there is no other outcome.
pub from_raw_exact :
    (t : GroupType) (v : ℤ)
    → (from_raw (to_raw t) ≡ ok t)
      × (((read : GroupType) × (from_raw v ≡ ok read) × (to_raw read ≡ v))
          ⊎ ((from_raw v ≡ err (invalid_group_type v)) × ((other : GroupType) → to_raw other ≢ v)))
from_raw_exact t v = (from_raw-to_raw t, from_raw_cases v)
