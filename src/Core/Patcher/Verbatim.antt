-- ===== src/Core/Patcher/Verbatim.antt =====
-- What stands in the source is what a walk over the parsed groups writes when no patch applies.
use bethkit.Prelude.{ℕ, ◌+◌, ◌≤◌, ◌<◌, ◌%◌, ◌^◌, ◌≡◌, refl, sym, ap, ap₂, ◌∙◌, arith}
use bethkit.Prelude.{List, ◌++◌, Option, none, some, Bool, true, false, ◌||◌, length, All}
use bethkit.Prelude.{le→leb}
use bethkit.Prelude.Dict.{Dict, lookup}
use bethkit.Prelude.Keys.{nat_key}
use bethkit.Io.Bytes.{IsByte, from_le_bytes-lt}
use bethkit.Io.Cursor.{slice}
use bethkit.Io.Cursor.Slices.{length-slice, slice_join, slice_none, slice-IsByte}
use bethkit.Core.Types.{FormId}
use bethkit.Core.Record.Data.{Record}
use bethkit.Core.Record.Text.{range_bytes}
use bethkit.Core.Group.Data.{
  GroupHeader, Group, group, GroupChild, record_child, group_child, GroupChildren, nil, cons,
}
use bethkit.Core.Group.Headers.{HeaderAt}
use bethkit.Core.Group.Tiles.{Tiles, Spans, SpansGroup}
use bethkit.Core.Patcher.Data.{RecordPatch}
use bethkit.Core.Patcher.Marks
use bethkit.Core.Patcher.Walk
use bethkit.Core.Patcher.Marks.{contains_key}
use bethkit.Core.Patcher.Headers.{header_bytes, header_bytes-HeaderAt}
use bethkit.Core.Patcher.Walk.{
  patched, patched_groups, walk_record, walk_group, walk_groups, Tiles-le, SpansGroup-le,
  GroupsTile-le,
}

pub either_false : (a b : Bool) → (a || b) ≡ false → (a ≡ false) × (b ≡ false)
either_false true b e = ground (arith, e)
either_false false b e = (refl, e)

-- A range within the source gives its slice.
pub range_bytes_within :
    (source : List ℕ) (start end : ℕ)
    → start ≤ end
    → end ≤ length source
    → range_bytes (some (start, end)) source ≡ some (slice start end source)
range_bytes_within source start end h k = rw (le→leb start end h, le→leb end (length source) k) refl

group_size_small :
    (source : List ℕ) (start : ℕ) (header : GroupHeader)
    → All IsByte source
    → start + 24 ≤ length source
    → HeaderAt source start header
    → header.group_size < 2 ^ 32
group_size_small source start header bytes room stands = omega (
  arith,
  stands.1,
  from_le_bytes-lt 4 (slice (start + 4) (start + 8) source)
      (length-slice (start + 4) (start + 8) source (omega arith) ∙ omega arith)
      (slice-IsByte (start + 4) (start + 8) source bytes),
)

-- The header and the body of a group make up its bytes.
group_back :
    (source body : List ℕ) (start end : ℕ) (header : GroupHeader)
    → All IsByte source
    → start + 24 ≤ end
    → end ≤ length source
    → start + header.group_size ≡ end
    → HeaderAt source start header
    → body ≡ slice (start + 24) end source
    → header_bytes header ((24 + length body) % 2 ^ 32) ++ body ≡ slice start end source
group_back source body start end header bytes room fits size stands same =
    ap₂ (λ n xs. header_bytes header n ++ xs) total same
    ∙ ap (λ xs. xs ++ slice (start + 24) end source)
        (header_bytes-HeaderAt source start header bytes (omega (arith, room, fits)) stands)
    ∙ slice_join start (start + 24) end source (omega arith) room
  where
    total : (24 + length body) % 2 ^ 32 ≡ header.group_size
    total = omega (
      arith,
      size,
      room,
      ap length same,
      length-slice (start + 24) end source fits,
      group_size_small source start header bytes (omega (arith, room, fits)) stands,
    )

module _ (patches : Dict FormId RecordPatch) (source : List ℕ) where
  contains_none : (o : Option RecordPatch) → Marks.present o ≡ false → o ≡ none
  contains_none none e = refl
  contains_none (some patch) e = ground (arith, e)

  record_back :
      (r : Record) (start end : ℕ)
      → contains_key r.header.form_id patches ≡ false
      → r.source_range ≡ some (start, end)
      → start ≤ end
      → end ≤ length source
      → walk_record patches source r ≡ slice start end source
  unfolding walk_record
  record_back r start end free range h k =
      rw
        (
          contains_none (lookup r.header.form_id patches) free,
          range,
          range_bytes_within source start end h k,
        )
        refl

  module _ (bytes : All IsByte source) where
    mutual
      unfolding Tiles walk_group patched

      children_back :
          (start end : ℕ) (kids : GroupChildren)
          → end ≤ length source
          → Tiles source start end kids
          → Walk.patched_children patches kids ≡ false
          → Walk.walk_children patches source kids ≡ slice start end source
      children_back start end nil fits tiles free =
          sym (slice_none start source) ∙ ap (λ e. slice start e source) tiles
      children_back start end (cons child rest) fits (middle, spans, tiles) free =
          ap₂ (λ xs ys. xs ++ ys)
            (child_back start middle child
              (omega (arith, fits, Tiles-le source middle end rest tiles)) spans
              (either_false _ _ free).0)
            (children_back middle end rest fits tiles (either_false _ _ free).1)
          ∙ slice_join start middle end source (Walk.Spans-le source start middle child spans)
              (Tiles-le source middle end rest tiles)

      child_back :
          (start end : ℕ) (child : GroupChild)
          → end ≤ length source
          → Spans source start end child
          → Walk.patched_child patches child ≡ false
          → Walk.walk_child patches source child ≡ slice start end source
      child_back start end (record_child r) fits spans free =
          record_back r start end free spans.0 (omega (arith, spans.1)) fits
      child_back start end (group_child g) fits spans free =
          group_walk_back (some (start, end)) start end g fits spans free

      pub group_walk_back :
          (range : Option (ℕ × ℕ)) (start end : ℕ) (g : Group)
          → end ≤ length source
          → SpansGroup source range start end g
          → patched patches g ≡ false
          → walk_group patches source g ≡ slice start end source
      group_walk_back range start end (group header r kids) fits (same, size, stands, tiles) free =
          group_back source _ start end header bytes (Tiles-le source (start + 24) end kids tiles)
            fits size stands (children_back (start + 24) end kids fits tiles free)
