-- ===== src/Core/Patcher/Skips.antt =====
-- patcher.rs: copying the groups that no patch touches writes what a walk over every group writes.
use bethkit.Prelude.{ℕ, ◌+◌, ◌≤◌, ◌≡◌, refl, sym, ap, subst, ◌∙◌, arith, ◌%◌, ◌^◌}
use bethkit.Prelude.{
  List, [], ◌∷◌, ◌++◌, append_assoc, append-nil, Option, none, some, Option-cases, Bool, true,
  false,
}
use bethkit.Prelude.{length, All, Bool-cases, inl, inr}
use bethkit.Prelude.Action.{done, ◌>>=◌}
use bethkit.Prelude.Result.{Result, ok, ok_unique}
use bethkit.Prelude.Dict.{Dict, lookup}
use bethkit.Prelude.Keys.{nat_key}
use bethkit.Io.Bytes.{IsByte}
use bethkit.Io.Cursor.{IoError, slice}
use bethkit.Core.Types.{FormId, GameContext}
use bethkit.Core.Record.Data.{Record}
use bethkit.Core.Record.Text
use bethkit.Core.Record.Text.{range_bytes}
use bethkit.Core.Group.Data.{
  GroupHeader, Group, group, GroupChild, record_child, group_child, GroupChildren, nil, cons,
}
use bethkit.Core.Group.Tiles.{Tiles, Spans, SpansGroup}
use bethkit.Core.Plugin.Data.{Plugin}
use bethkit.Core.Plugin.Parse.{from_bytes}
use bethkit.Core.Plugin.Tiles.{GroupsTile, from_bytes-GroupsTile}
use bethkit.Core.Patcher.Data.{RecordPatch, range_key}
use bethkit.Core.Patcher.Marks.{Touched, touches, mark_groups}
use bethkit.Core.Patcher.Headers.{write_group_header-header_bytes}
use bethkit.Core.Patcher.Walk
use bethkit.Core.Patcher.Walk.{
  or_nothing, patched, walk_record, walk_group, walk_groups, Tiles-le, SpansGroup-le, GroupsTile-le,
}
use bethkit.Core.Patcher.Verbatim.{range_bytes_within, group_walk_back}
use bethkit.Core.Patcher.Headers
use bethkit.Core.Error.{CoreError}
use bethkit.Core.Patcher.Covers.{Covers, CoversChild, CoversChildren, AllCovered, groups-AllCovered}
use bethkit.Core.Patcher.Write
use bethkit.Core.Patcher.Write.{
  some_or, write_all, needs_walk, into_group, write_record, write_group, write_groups,
}

into_group_done :
    (header : GroupHeader) (out body : List ℕ)
    → into_group header out (done tt body)
      ≡ done tt (out ++ (Headers.header_bytes header ((24 + length body) % 2 ^ 32) ++ body))
into_group_done header out body =
    rw (write_group_header-header_bytes header ((24 + length body) % 2 ^ 32) out, ◌>>=◌)
      (ap (done tt) (append_assoc out _ body))

-- A range that is there is group_copied.
copy_some :
    (o : Option (List ℕ)) (xs : List ℕ) (e : CoreError) (out : List ℕ)
    → o ≡ some xs
    → (do bytes ← some_or o e; write_all bytes) out ≡ done tt (out ++ or_nothing o)
copy_some none xs e out there = cc there
copy_some (some ys) xs e out there = refl

module _ (patches : Dict FormId RecordPatch) (source : List ℕ) where
  record_walk :
      (r : Record) (start end : ℕ) (out : List ℕ)
      → r.source_range ≡ some (start, end)
      → start ≤ end
      → end ≤ length source
      → write_record patches source r out ≡ done tt (out ++ walk_record patches source r)
  unfolding write_record walk_record Text.source_bytes
  record_walk r start end out range h k = elim (Option-cases (lookup r.header.form_id patches)) [
    | inl nothing ↦
        rw (nothing, write_record) (copy_some (range_bytes r.source_range source) _ _ out got)
    | inr (patch, found) ↦ rw (found, write_record) refl
  ]
    where
      got : range_bytes r.source_range source ≡ some (slice start end source)
      got = ap (λ o. range_bytes o source) range ∙ range_bytes_within source start end h k

  module _ (bytes : All IsByte source) (touched : Touched) where
    -- A group that is not to be walked is its slice.
    group_copied :
        (start end : ℕ) (g : Group) (out : List ℕ)
        → end ≤ length source
        → SpansGroup source (some (start, end)) start end g
        → patched patches g ≡ false
        → (out ++ slice start end source) ≡ (out ++ walk_group patches source g)
    group_copied start end g out fits spans free =
        ap (λ xs. out ++ xs)
          (sym
            (group_walk_back patches source bytes (some (start, end)) start end g fits spans free))

    free :
        (range : Option (ℕ × ℕ)) (at : ℕ × ℕ) (found : Bool)
        → range ≡ some at
        → (found ≡ true → needs_walk touched range ≡ true)
        → touches at touched ≡ false
        → found ≡ false
    free range at true e here skipped = cc (here refl, ap (needs_walk touched) e, skipped)
    free range at false e here skipped = refl

    mutual
      unfolding Tiles walk_group write_group Covers patched lookup

      group_walk :
          (start end : ℕ) (g : Group) (out : List ℕ)
          → end ≤ length source
          → SpansGroup source (some (start, end)) start end g
          → Covers patches touched g
          → write_group patches source [] touched g out
            ≡ done tt (out ++ walk_group patches source g)
      group_walk start end (group header range kids) out fits spans (here, below) =
          let walked = children_walk (start + 24) end kids [] fits spans.3 below in
          elim (Bool-cases (touches (start, end) touched)) [
            | inl marked ↦ rw (spans.0, marked, walked) (into_group_done header out _)
            | inr skipped ↦
                rw
                  (
                    spans.0,
                    skipped,
                    range_bytes_within source start end
                        (omega (arith, Tiles-le source (start + 24) end kids spans.3)) fits,
                    ◌>>=◌,
                  )
                  (ap (done tt) (
                    group_copied start end (group header range kids) out fits spans
                      (free range (start, end) _ spans.0 here skipped)))
          ]

      child_walk :
          (start end : ℕ) (child : GroupChild) (out : List ℕ)
          → end ≤ length source
          → Spans source start end child
          → CoversChild patches touched child
          → Write.write_child patches source [] touched child out
            ≡ done tt (out ++ Walk.walk_child patches source child)
      child_walk start end (record_child r) out fits spans covers =
          record_walk r start end out spans.0 (omega (arith, spans.1)) fits
      child_walk start end (group_child g) out fits spans covers =
          group_walk start end g out fits spans covers

      children_walk :
          (start end : ℕ) (kids : GroupChildren) (out : List ℕ)
          → end ≤ length source
          → Tiles source start end kids
          → CoversChildren patches touched kids
          → Write.write_children patches source [] touched kids none out
            ≡ done tt (out ++ Walk.walk_children patches source kids)
      children_walk start end nil out fits tiles covers = ap (done tt) (sym (append-nil out))
      children_walk start end (cons child rest) out fits (middle, spans, tiles) (one, others) =
          rw
            (
              child_walk start middle child out
                  (omega (arith, fits, Tiles-le source middle end rest tiles)) spans one,
              ◌>>=◌,
            )
            (children_walk middle end rest _ fits tiles others
              ∙ ap (done tt) (append_assoc out _ _))

    groups_walk :
        (start end : ℕ) (gs : List Group) (out : List ℕ)
        → end ≤ length source
        → GroupsTile source start end gs
        → AllCovered patches touched gs
        → write_groups patches source [] touched gs out
          ≡ done tt (out ++ walk_groups patches source gs)
    unfolding GroupsTile write_groups walk_groups AllCovered
    groups_walk start end [] out fits tiles covers = ap (done tt) (sym (append-nil out))
    groups_walk start end (g ∷ gs) out fits (middle, spans, tiles) (one, others) =
        rw
          (
            group_walk start middle g out
                (omega (arith, fits, GroupsTile-le source middle end gs tiles)) spans one,
            ◌>>=◌,
          )
          (groups_walk middle end gs _ fits tiles others ∙ ap (done tt) (append_assoc out _ _))

-- A plugin that has these bytes as its source, and groups that tile what follows its header.
abbrev pub Standing : List ℕ → Plugin → Type 0
Standing bytes p =
    (p.source ≡ bytes)
    × (p.header_range ≡ (0, 24 + p.header.main.header.data_size))
    × (24 + p.header.main.header.data_size ≤ length bytes)
    × GroupsTile bytes (24 + p.header.main.header.data_size) (length bytes) p.groups

pub parsed-Standing :
    (decompress_zlib : List ℕ → ℕ → Result IoError (List ℕ)) (bytes : List ℕ) (ctx : GameContext)
    (p : Plugin)
    → from_bytes decompress_zlib bytes ctx ≡ ok p
    → Standing bytes p
parsed-Standing decompress_zlib bytes ctx p e =
    elim (from_bytes-GroupsTile decompress_zlib bytes ctx) [
      | inl (q, found, same, range, fits, tiles) ↦
          subst (Standing bytes) (ok_unique _ q p found e) (same, range, fits, tiles)
      | inr (e', failed) ↦ cc (e, failed)
    ]

-- In a plugin that was parsed from bytes, whichever records the patches replace: the patcher, which
-- marks the groups that hold a patched record and copies all others as a whole from the source,
-- writes for the groups what a walk over every group writes, that copies no group as a whole, makes
-- each group's header anew with the size of what it wrote, and writes each record by its patch or
-- by the bytes that it came from. No record order is registered here.
pub write_groups-walk_groups :
    (decompress_zlib : List ℕ → ℕ → Result IoError (List ℕ)) (bytes : List ℕ) (ctx : GameContext)
    (p : Plugin) (patches : Dict FormId RecordPatch) (out : List ℕ)
    → All IsByte bytes
    → from_bytes decompress_zlib bytes ctx ≡ ok p
    → write_groups patches p.source [] (mark_groups patches [] p.groups []) p.groups out
      ≡ done tt (out ++ walk_groups patches p.source p.groups)
write_groups-walk_groups decompress_zlib bytes ctx p patches out small parsed =
    subst
      (λ source.
        write_groups patches source [] (mark_groups patches [] p.groups []) p.groups out
        ≡ done tt (out ++ walk_groups patches source p.groups))
      (sym standing.0)
      (groups_walk patches bytes small (mark_groups patches [] p.groups []) _ (length bytes)
        p.groups out (omega arith) standing.3 (groups-AllCovered patches [] p.groups []))
  where
    standing : Standing bytes p
    standing = parsed-Standing decompress_zlib bytes ctx p parsed
