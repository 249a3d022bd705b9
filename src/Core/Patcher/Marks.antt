-- ===== src/Core/Patcher/Marks.antt =====
-- patcher.rs: `mark_touched` and `mark_reordered`. The set of touched ranges is passed along.
use bethkit.Prelude.{ℕ, List, [], ◌∷◌, Option, none, some, Bool, true, false, ◌||◌, if◌then◌else◌}
use bethkit.Prelude.Dict.{Dict, Key, lookup}
use bethkit.Prelude.Keys.{nat_key}
use bethkit.Core.Types.{FormId}
use bethkit.Core.Group.Data.{
  Group, group, GroupChild, record_child, group_child, GroupChildren, nil, cons,
}
use bethkit.Core.Patcher.Data.{RecordPatch, range_same, range_key}

abbrev pub Touched : Type 0
Touched = List (ℕ × ℕ)

unfoldable pub touches : ℕ × ℕ → Touched → Bool
touches range [] = false
touches range (r ∷ rs) = let later = touches range rs in if range_same range r then true else later

-- `is_some`
abbrev pub present : {A : Type 0} → Option A → Bool
present none = false
present (some a) = true

abbrev pub contains_key : {K V : Type 0} ⦃key : Key K⦄ → K → Dict K V → Bool
contains_key k dict = present (lookup k dict)

-- The range of a group goes into the set when something in it is to be written anew.
abbrev pub mark : Option (ℕ × ℕ) → Bool × Touched → Bool × Touched
mark none (any, touched) = (any, touched)
mark (some range) (true, touched) = (true, range ∷ touched)
mark (some range) (false, touched) = (false, touched)

abbrev pub either : Bool → Bool × Touched → Bool × Touched
either any (found, touched) = (any || found, touched)

unfoldable mutual
  pub mark_touched : Dict FormId RecordPatch → Group → Touched → Bool × Touched
  mark_touched patches (group header source_range kids) touched =
      mark source_range (mark_children patches kids touched)

  pub mark_child : Dict FormId RecordPatch → GroupChild → Touched → Bool × Touched
  mark_child patches (record_child r) touched = (contains_key r.header.form_id patches, touched)
  mark_child patches (group_child g) touched = mark_touched patches g touched

  pub mark_children : Dict FormId RecordPatch → GroupChildren → Touched → Bool × Touched
  mark_children patches nil touched = (false, touched)
  mark_children patches (cons child rest) touched =
      let here = mark_child patches child touched in
      either (here.0) (mark_children patches rest here.1)

abbrev pub reordered_here : Dict (ℕ × ℕ) (List FormId) → Option (ℕ × ℕ) → Bool
reordered_here orders none = false
reordered_here orders (some range) = contains_key range orders

-- `any` stops at the first child that answers true: the children behind it are not marked.
unfoldable mutual
  pub mark_reordered : Dict (ℕ × ℕ) (List FormId) → Group → Touched → Bool × Touched
  mark_reordered orders (group header source_range kids) touched =
      mark source_range
        (either (reordered_here orders source_range) (any_reordered orders kids touched))

  pub child_reordered : Dict (ℕ × ℕ) (List FormId) → GroupChild → Touched → Bool × Touched
  child_reordered orders (record_child r) touched = (false, touched)
  child_reordered orders (group_child g) touched = mark_reordered orders g touched

  pub any_reordered : Dict (ℕ × ℕ) (List FormId) → GroupChildren → Touched → Bool × Touched
  any_reordered orders nil touched = (false, touched)
  any_reordered orders (cons child rest) touched =
      let here = child_reordered orders child touched in
      let later = any_reordered orders rest here.1 in if here.0 then here else later

-- The loop over the top-level groups.
unfoldable pub mark_groups :
    Dict FormId RecordPatch → Dict (ℕ × ℕ) (List FormId) → List Group → Touched → Touched
unfolding mark_touched mark_reordered
mark_groups patches orders [] touched = touched
mark_groups patches orders (g ∷ gs) touched =
    mark_groups patches orders gs ((mark_reordered orders g ((mark_touched patches g touched).1)).1)
