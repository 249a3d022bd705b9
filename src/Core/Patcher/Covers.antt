-- ===== src/Core/Patcher/Covers.antt =====
-- patcher.rs: what the marks cover. Every group with a patched record inside is marked, and where no
-- patch applies nothing is.
use bethkit.Prelude.{
  ℕ, ◌≡◌, refl, ◌∙◌, ap₂, List, [], ◌∷◌, Option, none, some, Bool, true, false, ◌||◌,
}
use bethkit.Prelude.{Bool-cases, inl, inr, arith}
use bethkit.Prelude.Dict.{Dict}
use bethkit.Prelude.Keys.{nat_key}
use bethkit.Core.Types.{FormId}
use bethkit.Core.Group.Data.{
  Group, group, GroupChild, record_child, group_child, GroupChildren, nil, cons,
}
use bethkit.Core.Patcher.Data.{RecordPatch, range_same, range_same_iff, range_key}
use bethkit.Core.Patcher.Marks
use bethkit.Core.Patcher.Marks.{
  Touched, touches, contains_key, mark, either, reordered_here, mark_touched, mark_reordered,
  mark_groups,
}
use bethkit.Core.Patcher.Walk
use bethkit.Core.Patcher.Walk.{patched, patched_groups}
use bethkit.Core.Patcher.Write.{needs_walk}

-- The marks of the first are among those of the second.
abbrev pub Sub : Touched → Touched → Type 0
Sub t t' = (r : ℕ × ℕ) → touches r t ≡ true → touches r t' ≡ true

Sub-trans : (t u v : Touched) → Sub t u → Sub u v → Sub t v
Sub-trans t u v h k r e = k r (h r e)

Sub-mark :
    (range : Option (ℕ × ℕ)) (t : Touched) (o : Bool × Touched) → Sub t o.1 → Sub t (mark range o).1
unfolding touches
Sub-mark none t o sub = sub
Sub-mark (some range) t (false, u) sub = sub
Sub-mark (some range) t (true, u) sub = λ r e. elim (Bool-cases (range_same r range)) [
  | inl same ↦ rw (same) refl
  | inr other ↦ rw (other) (sub r e)
]

module _ (patches : Dict FormId RecordPatch) where
  mutual
    unfolding mark_touched

    touched-Sub : (g : Group) (t : Touched) → Sub t (mark_touched patches g t).1
    touched-Sub (group header range kids) t =
        Sub-mark range t (Marks.mark_children patches kids t) (children-Sub kids t)

    child-Sub : (child : GroupChild) (t : Touched) → Sub t (Marks.mark_child patches child t).1
    child-Sub (record_child r) t = λ r e. e
    child-Sub (group_child g) t = touched-Sub g t

    children-Sub :
        (kids : GroupChildren) (t : Touched) → Sub t (Marks.mark_children patches kids t).1
    children-Sub nil t = λ r e. e
    children-Sub (cons child rest) t =
        Sub-trans t _ _ (child-Sub child t) (children-Sub rest (Marks.mark_child patches child t).1)

module _ (orders : Dict (ℕ × ℕ) (List FormId)) where
  mutual
    unfolding mark_reordered

    reordered-Sub : (g : Group) (t : Touched) → Sub t (mark_reordered orders g t).1
    reordered-Sub (group header range kids) t =
        Sub-mark range t (either (reordered_here orders range) (Marks.any_reordered orders kids t))
          (any-Sub kids t)

    child_reordered-Sub :
        (child : GroupChild) (t : Touched) → Sub t (Marks.child_reordered orders child t).1
    child_reordered-Sub (record_child r) t = λ r e. e
    child_reordered-Sub (group_child g) t = reordered-Sub g t

    any-Sub : (kids : GroupChildren) (t : Touched) → Sub t (Marks.any_reordered orders kids t).1
    any-Sub nil t = λ r e. e
    any-Sub (cons child rest) t = elim (Bool-cases (Marks.child_reordered orders child t).0) [
      | inl found ↦ rw (found) (child_reordered-Sub child t)
      | inr other ↦ rw (other) (
          Sub-trans t _ _ (child_reordered-Sub child t)
            (any-Sub rest (Marks.child_reordered orders child t).1))
    ]

module _ (patches : Dict FormId RecordPatch) where
  -- Every group with a patched record inside is to be walked.
  unfoldable mutual
    unfolding patched

    pub Covers : Touched → Group → Type 0
    Covers t (group header range kids) =
        (Walk.patched_children patches kids ≡ true → needs_walk t range ≡ true)
        × CoversChildren t kids

    pub CoversChild : Touched → GroupChild → Type 0
    CoversChild t (record_child r) = Unit
    CoversChild t (group_child g) = Covers t g

    pub CoversChildren : Touched → GroupChildren → Type 0
    CoversChildren t nil = Unit
    CoversChildren t (cons child rest) = CoversChild t child × CoversChildren t rest

  needs_walk-Sub :
      (t u : Touched) (range : Option (ℕ × ℕ))
      → Sub t u
      → needs_walk t range ≡ true
      → needs_walk u range ≡ true
  needs_walk-Sub t u none sub e = e
  needs_walk-Sub t u (some range) sub e = sub range e

  mutual
    unfolding Covers

    pub Covers-Sub : (g : Group) (t u : Touched) → Sub t u → Covers t g → Covers u g
    Covers-Sub (group header range kids) t u sub (here, below) =
        (λ e. needs_walk-Sub t u range sub (here e), children_Covers-Sub kids t u sub below)

    child_Covers-Sub :
        (child : GroupChild) (t u : Touched) → Sub t u → CoversChild t child → CoversChild u child
    child_Covers-Sub (record_child r) t u sub covers = tt
    child_Covers-Sub (group_child g) t u sub covers = Covers-Sub g t u sub covers

    children_Covers-Sub :
        (kids : GroupChildren) (t u : Touched)
        → Sub t u
        → CoversChildren t kids
        → CoversChildren u kids
    children_Covers-Sub nil t u sub covers = tt
    children_Covers-Sub (cons child rest) t u sub (one, others) =
        (child_Covers-Sub child t u sub one, children_Covers-Sub rest t u sub others)

  mark_needs :
      (range : Option (ℕ × ℕ)) (o : Bool × Touched)
      → o.0 ≡ true
      → needs_walk (mark range o).1 range ≡ true
  unfolding touches
  mark_needs none o e = refl
  mark_needs (some range) (true, u) e = rw ((range_same_iff range range).1 refl) refl
  mark_needs (some range) (false, u) e = ground (arith, e)

  mark_found : (range : Option (ℕ × ℕ)) (o : Bool × Touched) → (mark range o).0 ≡ o.0
  mark_found none o = refl
  mark_found (some range) (true, u) = refl
  mark_found (some range) (false, u) = refl

  -- What the walk answers, and what it covers.
  mutual
    unfolding mark_touched patched Covers

    touched_found : (g : Group) (t : Touched) → (mark_touched patches g t).0 ≡ patched patches g
    touched_found (group header range kids) t =
        mark_found range (Marks.mark_children patches kids t) ∙ children_found kids t

    child_found :
        (child : GroupChild) (t : Touched)
        → (Marks.mark_child patches child t).0 ≡ Walk.patched_child patches child
    child_found (record_child r) t = refl
    child_found (group_child g) t = touched_found g t

    children_found :
        (kids : GroupChildren) (t : Touched)
        → (Marks.mark_children patches kids t).0 ≡ Walk.patched_children patches kids
    children_found nil t = refl
    children_found (cons child rest) t =
        ap₂ (λ a b. a || b) (child_found child t)
          (children_found rest (Marks.mark_child patches child t).1)

  mutual
    unfolding mark_touched patched Covers

    touched-Covers : (g : Group) (t : Touched) → Covers (mark_touched patches g t).1 g
    touched-Covers (group header range kids) t = (
      λ e. mark_needs range (Marks.mark_children patches kids t) (children_found kids t ∙ e),
      children_Covers-Sub kids _ _
          (Sub-mark range _ (Marks.mark_children patches kids t) (λ r e. e))
          (children-Covers kids t),
    )

    child-Covers :
        (child : GroupChild) (t : Touched) → CoversChild (Marks.mark_child patches child t).1 child
    child-Covers (record_child r) t = tt
    child-Covers (group_child g) t = touched-Covers g t

    children-Covers :
        (kids : GroupChildren) (t : Touched)
        → CoversChildren (Marks.mark_children patches kids t).1 kids
    children-Covers nil t = tt
    children-Covers (cons child rest) t = (
      child_Covers-Sub child _ _ (children-Sub patches rest (Marks.mark_child patches child t).1)
          (child-Covers child t),
      children-Covers rest (Marks.mark_child patches child t).1,
    )

  -- Each of the top-level groups is covered.
  unfoldable pub AllCovered : Touched → List Group → Type 0
  AllCovered t [] = Unit
  AllCovered t (g ∷ gs) = Covers t g × AllCovered t gs

  module _ (orders : Dict (ℕ × ℕ) (List FormId)) where
    groups-Sub : (gs : List Group) (t : Touched) → Sub t (mark_groups patches orders gs t)
    unfolding mark_groups
    groups-Sub [] t = λ r e. e
    groups-Sub (g ∷ gs) t =
        Sub-trans t _ _ (touched-Sub patches g t)
          (Sub-trans _ _ _ (reordered-Sub orders g _) (groups-Sub gs _))

    pub groups-AllCovered :
        (gs : List Group) (t : Touched) → AllCovered (mark_groups patches orders gs t) gs
    unfolding mark_groups AllCovered
    groups-AllCovered [] t = tt
    groups-AllCovered (g ∷ gs) t = (
      Covers-Sub g _ _ (Sub-trans _ _ _ (reordered-Sub orders g _) (groups-Sub gs _))
          (touched-Covers g t),
      groups-AllCovered gs _,
    )
