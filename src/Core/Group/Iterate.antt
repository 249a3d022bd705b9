-- ===== src/Core/Group/Iterate.antt =====
-- group.rs: the iterators over a group, and RecordsIter with its stack.
use bethkit.Prelude.{ℕ, zero, suc, ◌+◌}
use bethkit.Prelude.{List, [], ◌∷◌, Option, none, some}
use mathlib.Core.Option
use bethkit.Core.Record.Data.{Record}
use bethkit.Core.Group.Data.{
  Group, GroupChild, record_child, group_child, GroupChildren, nil, cons, children,
}

-- The direct records and the direct subgroups.
unfoldable pub child_records : GroupChildren → List Record
child_records nil = []
child_records (cons (record_child r) rest) = r ∷ child_records rest
child_records (cons (group_child g) rest) = child_records rest

unfoldable pub child_groups : GroupChildren → List Group
child_groups nil = []
child_groups (cons (record_child r) rest) = child_groups rest
child_groups (cons (group_child g) rest) = g ∷ child_groups rest

unfoldable pub records : Group → List Record
unfolding child_records children
records g = child_records (children g)

unfoldable pub subgroups : Group → List Group
unfolding child_groups children
subgroups g = child_groups (children g)

-- `children[idx]`, none past the end.
unfoldable pub child_at : GroupChildren → ℕ → Option GroupChild
child_at nil idx = none
child_at (cons child rest) zero = some child
child_at (cons child rest) (suc idx) = child_at rest idx

-- The two vectors of the iterator, of the same length, their last element first.
abbrev pub RecordsIter : Type 0
RecordsIter = List (GroupChildren × ℕ)

unfoldable pub iter_new : Group → RecordsIter
unfolding children
iter_new g = (children g, 0) ∷ []

-- `RecordsIter::next`: what it yields, and the iterator that it leaves. The rounds of the `loop` take
-- the fuel, and none says that it ran out.
unfoldable pub next : ℕ → RecordsIter → Option (Option Record × RecordsIter)
unfolding child_at children
next zero it = none
next (suc fuel) [] = some (none, [])
next (suc fuel) ((kids, idx) ∷ it) = elim (child_at kids idx) [
  | none ↦ next fuel it
  | some child ↦ elim child [
    | record_child r ↦ some (some r, (kids, idx + 1) ∷ it)
    | group_child g ↦ next fuel ((children g, 0) ∷ (kids, idx + 1) ∷ it)
  ]
]

-- The calls of `next`, up to the first that yields nothing.
unfoldable pub collect : ℕ → RecordsIter → Option (List Record)
collect zero it = none
collect (suc fuel) it = elim (next fuel it) [
  | none ↦ none
  | some y ↦ elim y.0 [ none ↦ some [] | some r ↦ Option.map (λ rs. r ∷ rs) (collect fuel y.1) ]
]
