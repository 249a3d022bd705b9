-- ===== src/Core/Patcher/Walk.antt =====
-- The independent description of what the patcher writes: every group is walked, every record is
-- written, by its patch or by the bytes that it came from, and nothing is copied as a whole.
use bethkit.Prelude.{ℕ, ◌+◌, ◌≤◌, ◌%◌, ◌^◌, arith}
use bethkit.Prelude.{List, [], ◌∷◌, ◌++◌, Option, none, some, Bool, false, ◌||◌, length}
use bethkit.Prelude.Dict.{Dict, lookup}
use bethkit.Prelude.Keys.{nat_key}
use bethkit.Core.Types.{FormId}
use bethkit.Core.Record.Data.{Record}
use bethkit.Core.Record.Text.{range_bytes}
use bethkit.Core.Group.Data.{
  Group, group, GroupChild, record_child, group_child, GroupChildren, nil, cons,
}
use bethkit.Core.Group.Tiles.{Tiles, Spans, SpansGroup}
use bethkit.Core.Plugin.Tiles.{GroupsTile}
use bethkit.Core.Patcher.Data.{RecordPatch, patch_bytes}
use bethkit.Core.Patcher.Marks.{contains_key}
use bethkit.Core.Patcher.Headers.{header_bytes}

abbrev pub or_nothing : Option (List ℕ) → List ℕ
or_nothing none = []
or_nothing (some bytes) = bytes

abbrev patched_or : Option RecordPatch → List ℕ → List ℕ
patched_or none bytes = bytes
patched_or (some patch) bytes = patch_bytes patch

module _ (patches : Dict FormId RecordPatch) where
  -- Whether a patch is registered for a record somewhere inside.
  unfoldable mutual
    pub patched : Group → Bool
    patched (group header source_range kids) = patched_children kids

    pub patched_child : GroupChild → Bool
    patched_child (record_child r) = contains_key r.header.form_id patches
    patched_child (group_child g) = patched g

    pub patched_children : GroupChildren → Bool
    patched_children nil = false
    patched_children (cons child rest) = patched_child child || patched_children rest

  unfoldable pub patched_groups : List Group → Bool
  unfolding patched
  patched_groups [] = false
  patched_groups (g ∷ gs) = patched g || patched_groups gs

module _ (patches : Dict FormId RecordPatch) (source : List ℕ) where
  unfoldable pub walk_record : Record → List ℕ
  walk_record r =
      patched_or (lookup r.header.form_id patches) (or_nothing (range_bytes r.source_range source))

  unfoldable mutual
    unfolding walk_record

    pub walk_group : Group → List ℕ
    walk_group (group header source_range kids) =
        let body = walk_children kids in header_bytes header ((24 + length body) % 2 ^ 32) ++ body

    pub walk_child : GroupChild → List ℕ
    walk_child (record_child r) = walk_record r
    walk_child (group_child g) = walk_group g

    pub walk_children : GroupChildren → List ℕ
    walk_children nil = []
    walk_children (cons child rest) = walk_child child ++ walk_children rest

  unfoldable pub walk_groups : List Group → List ℕ
  unfolding walk_group
  walk_groups [] = []
  walk_groups (g ∷ gs) = walk_group g ++ walk_groups gs

-- Tiles do not end before they start.
mutual
  unfolding Tiles

  pub Tiles-le :
      (source : List ℕ) (start end : ℕ) (kids : GroupChildren)
      → Tiles source start end kids
      → start ≤ end
  Tiles-le source start end nil tiles = omega (arith, tiles)
  Tiles-le source start end (cons child rest) (middle, spans, tiles) =
      omega (arith, Spans-le source start middle child spans, Tiles-le source middle end rest tiles)

  pub Spans-le :
      (source : List ℕ) (start end : ℕ) (child : GroupChild)
      → Spans source start end child
      → start ≤ end
  Spans-le source start end (record_child r) spans = omega (arith, spans.1)
  Spans-le source start end (group_child (group header range kids)) spans =
      omega (arith, Tiles-le source (start + 24) end kids spans.3)

pub SpansGroup-le :
    (source : List ℕ) (range : Option (ℕ × ℕ)) (start end : ℕ) (g : Group)
    → SpansGroup source range start end g
    → start + 24 ≤ end
unfolding Tiles
SpansGroup-le source range start end (group header r kids) spans =
    Tiles-le source (start + 24) end kids spans.3

pub GroupsTile-le :
    (source : List ℕ) (start end : ℕ) (gs : List Group)
    → GroupsTile source start end gs
    → start ≤ end
unfolding GroupsTile
GroupsTile-le source start end [] tiles = omega (arith, tiles)
GroupsTile-le source start end (g ∷ gs) (middle, spans, tiles) =
    omega
      (arith, SpansGroup-le source _ start middle g spans, GroupsTile-le source middle end gs tiles)
