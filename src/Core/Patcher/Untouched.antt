-- ===== src/Core/Patcher/Untouched.antt =====
-- patcher.rs: `write_to` when none of the patches is for a record of the plugin.
use bethkit.Prelude.{ℕ, ◌+◌, ◌≤◌, ◌≡◌, refl, sym, ap, ap₂, ◌∙◌, arith}
use bethkit.Prelude.{List, [], ◌∷◌, ◌++◌, Option, none, some, false, length, All}
use bethkit.Prelude.Action.{done, convert, ◌>>=◌}
use bethkit.Prelude.Result.{Result, ok}
use bethkit.Prelude.Dict.{Dict, lookup}
use bethkit.Prelude.Keys.{nat_key}
use bethkit.Io.Bytes.{IsByte}
use bethkit.Io.Cursor.{IoError, slice}
use bethkit.Io.Cursor.Slices.{slice_all, slice_none, slice_join}
use bethkit.Core.Types.{FormId, GameContext}
use bethkit.Core.Record.Text.{get_range}
use bethkit.Core.Group.Data.{
  Group, group, GroupChild, record_child, group_child, GroupChildren, nil, cons,
}
use bethkit.Core.Plugin.Data.{Plugin}
use bethkit.Core.Plugin.Parse.{from_bytes}
use bethkit.Core.Plugin.Tiles.{GroupsTile}
use bethkit.Core.Patcher.Data.{RecordPatch, PluginPatcher, range_key}
use bethkit.Core.Patcher.Marks
use bethkit.Core.Patcher.Marks.{Touched, mark, either, mark_touched, mark_reordered, mark_groups}
use bethkit.Core.Patcher.Walk
use bethkit.Core.Patcher.Walk.{patched, patched_groups, walk_groups, GroupsTile-le}
use bethkit.Core.Patcher.Verbatim.{either_false, range_bytes_within, group_walk_back}
use bethkit.Core.Patcher.Skips.{Standing, parsed-Standing, write_groups-walk_groups}
use bethkit.Core.Patcher.WriteTo.{write_header, write_to}

mark_nothing : (range : Option (ℕ × ℕ)) (t : Touched) → mark range (false, t) ≡ (false, t)
mark_nothing none t = refl
mark_nothing (some range) t = refl

no_order : (range : Option (ℕ × ℕ)) → Marks.reordered_here [] range ≡ false
unfolding lookup
no_order none = refl
no_order (some range) = refl

module _ (patches : Dict FormId RecordPatch) where
  mutual
    unfolding mark_touched patched

    touched_nothing :
        (g : Group) (t : Touched)
        → patched patches g ≡ false
        → mark_touched patches g t ≡ (false, t)
    touched_nothing (group header range kids) t free =
        ap (mark range) (children_nothing kids t free) ∙ mark_nothing range t

    child_nothing :
        (child : GroupChild) (t : Touched)
        → Walk.patched_child patches child ≡ false
        → Marks.mark_child patches child t ≡ (false, t)
    child_nothing (record_child r) t free = ap (λ b. (b, t)) free
    child_nothing (group_child g) t free = touched_nothing g t free

    children_nothing :
        (kids : GroupChildren) (t : Touched)
        → Walk.patched_children patches kids ≡ false
        → Marks.mark_children patches kids t ≡ (false, t)
    children_nothing nil t free = refl
    children_nothing (cons child rest) t free =
        rw (child_nothing child t (either_false _ _ free).0)
          (children_nothing rest t (either_false _ _ free).1)

mutual
  unfolding mark_reordered lookup

  reordered_nothing : (g : Group) (t : Touched) → mark_reordered [] g t ≡ (false, t)
  reordered_nothing (group header range kids) t =
      ap (λ o. mark range (either (Marks.reordered_here [] range) o)) (any_nothing kids t)
      ∙ ap (λ b. mark range (either b (false, t))) (no_order range)
      ∙ mark_nothing range t

  child_order_nothing :
      (child : GroupChild) (t : Touched) → Marks.child_reordered [] child t ≡ (false, t)
  child_order_nothing (record_child r) t = refl
  child_order_nothing (group_child g) t = reordered_nothing g t

  any_nothing : (kids : GroupChildren) (t : Touched) → Marks.any_reordered [] kids t ≡ (false, t)
  any_nothing nil t = refl
  any_nothing (cons child rest) t = rw (child_order_nothing child t) (any_nothing rest t)

module _ (patches : Dict FormId RecordPatch) where
  groups_nothing :
      (gs : List Group) (t : Touched)
      → patched_groups patches gs ≡ false
      → mark_groups patches [] gs t ≡ t
  unfolding mark_groups patched_groups
  groups_nothing [] t free = refl
  groups_nothing (g ∷ gs) t free =
      rw (touched_nothing patches g t (either_false _ _ free).0, reordered_nothing g t)
        (groups_nothing gs t (either_false _ _ free).1)

  groups_back :
      (source : List ℕ) (start end : ℕ) (gs : List Group)
      → All IsByte source
      → end ≤ length source
      → GroupsTile source start end gs
      → patched_groups patches gs ≡ false
      → walk_groups patches source gs ≡ slice start end source
  unfolding GroupsTile walk_groups patched_groups
  groups_back source start end [] bytes fits tiles free =
      sym (slice_none start source) ∙ ap (λ e. slice start e source) tiles
  groups_back source start end (g ∷ gs) bytes fits (middle, spans, tiles) free =
      ap₂ (λ xs ys. xs ++ ys)
        (group_walk_back patches source bytes _ start middle g
          (omega (arith, fits, GroupsTile-le source middle end gs tiles)) spans
          (either_false _ _ free).0)
        (groups_back source middle end gs bytes fits tiles (either_false _ _ free).1)
      ∙ slice_join start middle end source
          (omega (arith, Walk.SpansGroup-le source _ start middle g spans))
          (GroupsTile-le source middle end gs tiles)

-- The patcher with patches alone.
abbrev patching : Plugin → Dict FormId RecordPatch → PluginPatcher
patching p patches = record {
  plugin = p;
  patches = patches;
  group_orders = [];
  header_patch = none;
}

-- The end of the header.
abbrev header_end : Plugin → ℕ
header_end p = 24 + p.header.main.header.data_size

header_copied :
    (decompress_zlib : List ℕ → ℕ → Result IoError (List ℕ)) (bytes : List ℕ) (p : Plugin)
    (patches : Dict FormId RecordPatch) (out : List ℕ)
    → Standing bytes p
    → write_header decompress_zlib (patching p patches) [] out
      ≡ done tt (out ++ slice 0 (header_end p) bytes)
unfolding write_header
header_copied decompress_zlib bytes p patches out standing = rw (got, ◌>>=◌) refl
  where
    got : get_range p.source p.header_range.0 p.header_range.1 ≡ some (slice 0 (header_end p) bytes)
    got =
        ap (λ r. get_range p.source r.0 r.1) standing.1
        ∙ ap (λ s. get_range s 0 (header_end p)) standing.0
        ∙ range_bytes_within bytes 0 (header_end p) (omega arith) standing.2

-- A plugin that was parsed from bytes is written as those very bytes when no patch is for a record
-- of it, however many are registered; neither an order of records nor a change of the header is
-- registered here. The header is copied, and the groups follow it.
pub write_to-source :
    (decompress_zlib : List ℕ → ℕ → Result IoError (List ℕ)) (bytes : List ℕ) (ctx : GameContext)
    (p : Plugin) (patches : Dict FormId RecordPatch)
    → All IsByte bytes
    → from_bytes decompress_zlib bytes ctx ≡ ok p
    → patched_groups patches p.groups ≡ false
    → write_to decompress_zlib
        (record { plugin = p; patches = patches; group_orders = []; header_patch = none })
        []
      ≡ done tt bytes
unfolding write_to
write_to-source decompress_zlib bytes ctx p [] small parsed free = ap (done tt) standing.0
  where
    standing : Standing bytes p
    standing = parsed-Standing decompress_zlib bytes ctx p parsed
write_to-source decompress_zlib bytes ctx p (entry ∷ patches) small parsed free =
    rw (headed, ◌>>=◌)
      (rw
        (
          write_groups-walk_groups decompress_zlib bytes ctx p (entry ∷ patches) _ small parsed,
          convert,
        )
        (ap (done tt) whole))
  where
    standing : Standing bytes p
    standing = parsed-Standing decompress_zlib bytes ctx p parsed

    headed :
        write_header decompress_zlib
          (patching p (entry ∷ patches))
          (mark_groups (entry ∷ patches) [] p.groups [])
          []
        ≡ done tt (slice 0 (header_end p) bytes)
    headed =
        ap (λ t. write_header decompress_zlib (patching p (entry ∷ patches)) t [])
          (groups_nothing (entry ∷ patches) p.groups [] free)
        ∙ header_copied decompress_zlib bytes p (entry ∷ patches) [] standing

    whole : slice 0 (header_end p) bytes ++ walk_groups (entry ∷ patches) p.source p.groups ≡ bytes
    whole =
        ap (λ s. slice 0 (header_end p) bytes ++ walk_groups (entry ∷ patches) s p.groups)
          standing.0
        ∙ ap (λ xs. slice 0 (header_end p) bytes ++ xs)
            (groups_back (entry ∷ patches) bytes (header_end p) (length bytes) p.groups small
              (omega arith) standing.3 free)
        ∙ slice_join 0 (header_end p) (length bytes) bytes (omega arith) standing.2
        ∙ slice_all bytes
