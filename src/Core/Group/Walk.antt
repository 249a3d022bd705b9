-- ===== src/Core/Group/Walk.antt =====
-- The stack of RecordsIter against the recursion over the tree.
use bethkit.Prelude.{ℕ, zero, suc, ◌+◌, ◌≤◌, ◌<◌, ◌≡◌, refl, ap, ◌∙◌, arith, inl, inr}
use bethkit.Prelude.{List, [], ◌∷◌, ◌++◌, append_assoc, append-nil, none, some, Option-cases}
use mathlib.Core.Option.{some_inj}
use bethkit.Core.Record.Data.{Record}
use bethkit.Core.Group.Data.{
  Group, group, GroupChild, record_child, group_child, GroupChildren, nil, cons, children,
}
use bethkit.Core.Group.Iterate.{child_at, RecordsIter, iter_new, next, collect}

-- All records of a tree, depth first, a group's where the group stands.
unfoldable mutual
  pub flatten : GroupChildren → List Record
  flatten nil = []
  flatten (cons child rest) = flatten_child child ++ flatten rest

  pub flatten_child : GroupChild → List Record
  flatten_child (record_child r) = r ∷ []
  flatten_child (group_child g) = flatten_group g

  pub flatten_group : Group → List Record
  flatten_group (group header source_range kids) = flatten kids

-- The rounds of the loop: one for each child, and one for the end of each vector.
unfoldable mutual
  pub turns : GroupChildren → ℕ
  turns nil = 1
  turns (cons child rest) = turns_child child + turns rest

  pub turns_child : GroupChild → ℕ
  turns_child (record_child r) = 1
  turns_child (group_child g) = 1 + turns_group g

  pub turns_group : Group → ℕ
  turns_group (group header source_range kids) = turns kids

-- What a vector has left from an index on.
drop_children : GroupChildren → ℕ → GroupChildren
drop_children kids zero = kids
drop_children nil (suc idx) = nil
drop_children (cons child rest) (suc idx) = drop_children rest idx

pending : RecordsIter → List Record
pending [] = []
pending ((kids, idx) ∷ it) = flatten (drop_children kids idx) ++ pending it

turns_left : RecordsIter → ℕ
turns_left [] = 0
turns_left ((kids, idx) ∷ it) = turns (drop_children kids idx) + turns_left it

child_at-none :
    (kids : GroupChildren) (idx : ℕ) → child_at kids idx ≡ none → drop_children kids idx ≡ nil
unfolding child_at drop_children
child_at-none nil zero e = refl
child_at-none nil (suc idx) e = refl
child_at-none (cons child rest) zero e = ground arith
child_at-none (cons child rest) (suc idx) e = child_at-none rest idx e

child_at-some :
    (kids : GroupChildren) (idx : ℕ) (child : GroupChild)
    → child_at kids idx ≡ some child
    → drop_children kids idx ≡ cons child (drop_children kids (suc idx))
unfolding child_at drop_children
child_at-some nil idx child e = ground arith
child_at-some (cons first rest) zero child e = ap (λ x. cons x rest) (some_inj.0 e)
child_at-some (cons first rest) (suc idx) child e = child_at-some rest idx child e

shown :
    (kids : GroupChildren) (idx : ℕ) (child : GroupChild)
    → child_at kids idx ≡ some child
    → drop_children kids idx ≡ cons child (drop_children kids (idx + 1))
shown kids idx child e = rw (plus) (child_at-some kids idx child e)
  where
    plus : idx + 1 ≡ suc idx
    plus = omega arith

-- What a call of `next` does: it yields the first of the pending records, or nothing at the end.
data Yields (fuel : ℕ) (it : RecordsIter) : Type 0 where
  finished : next fuel it ≡ some (none, []) → pending it ≡ [] → Yields fuel it
  yielded :
      (r : Record) (it' : RecordsIter)
      → next fuel it ≡ some (some r, it')
      → pending it ≡ r ∷ pending it'
      → turns_left it' < turns_left it
      → Yields fuel it

-- A round that yields nothing goes on from another stack, with the same records pending.
Yields-on :
    (fuel : ℕ) (it on : RecordsIter)
    → next (suc fuel) it ≡ next fuel on
    → pending it ≡ pending on
    → turns_left on ≤ turns_left it
    → Yields fuel on
    → Yields (suc fuel) it
Yields-on fuel it on same keeps fewer (finished eq nothing) = finished (same ∙ eq) (keeps ∙ nothing)
Yields-on fuel it on same keeps fewer (yielded r it' eq first less) =
    yielded r it' (same ∙ eq) (keeps ∙ first) (omega arith)

next-Yields : (fuel : ℕ) (it : RecordsIter) → turns_left it < fuel → Yields fuel it
unfolding next pending turns_left flatten turns children drop_children
next-Yields zero it enough = absurd (omega arith)
next-Yields (suc fuel) [] enough = finished refl refl
next-Yields (suc fuel) ((kids, idx) ∷ it) enough = elim (Option-cases (child_at kids idx)) [
  | inl gone ↦
      let popped : drop_children kids idx ≡ nil = child_at-none kids idx gone in
      Yields-on fuel ((kids, idx) ∷ it) it (rw (gone, next) refl) (rw (popped) refl) (omega arith)
        (next-Yields fuel it (omega (arith, enough, ap turns popped)))
  | inr (record_child r, here) ↦
      let left : drop_children kids idx ≡ cons (record_child r) (drop_children kids (idx + 1)) =
        shown kids idx (record_child r) here in
      yielded r ((kids, idx + 1) ∷ it) (rw (here, next) refl) (rw (left) refl)
        (omega (arith, ap turns left))
  | inr (group_child (group header source_range inner), here) ↦
      let left : drop_children kids idx
          ≡ cons (group_child (group header source_range inner)) (drop_children kids (idx + 1)) =
        shown kids idx (group_child (group header source_range inner)) here in
      Yields-on fuel ((kids, idx) ∷ it) ((inner, 0) ∷ (kids, idx + 1) ∷ it) (rw (here, next) refl)
        (rw (left)
          (append_assoc (flatten inner) (flatten (drop_children kids (idx + 1))) (pending it)))
        (omega (arith, ap turns left))
        (next-Yields fuel ((inner, 0) ∷ (kids, idx + 1) ∷ it)
          (omega (arith, enough, ap turns left)))
]

collect-pending :
    (fuel : ℕ) (it : RecordsIter) → turns_left it + 1 < fuel → collect fuel it ≡ some (pending it)
unfolding collect
collect-pending zero it enough = absurd (omega arith)
collect-pending (suc fuel) it enough = elim (next-Yields fuel it (omega arith)) [
  | finished eq nothing ↦ rw (eq, nothing, collect) refl
  | yielded r it' eq first less ↦
      rw (eq, first, collect) (rw (collect-pending fuel it' (omega arith)) refl)
]

-- The records that the iterator of a group yields, called until it yields nothing, are all records
-- of the tree, depth first and each once, if the loop may take one round for each child, one for
-- each vector, and two more: it never runs longer.
pub collect-flatten :
    (g : Group) (fuel : ℕ)
    → turns_group g + 1 < fuel
    → collect fuel (iter_new g) ≡ some (flatten_group g)
unfolding iter_new pending turns_left turns flatten drop_children children
collect-flatten (group header source_range kids) fuel enough =
    collect-pending fuel ((kids, 0) ∷ []) (omega (arith, enough))
    ∙ ap some (append-nil (flatten kids))
