-- ===== src/Core/Writer/RoundTrip/Block.antt =====
-- A whole block of subrecords: what `write_subrecords` wrote, and the loop that parses it.
use bethkit.Prelude.{ℕ, suc, ◌-◌, ◌*◌, ◌^◌, ◌≤◌, ◌<◌, ◌≡◌, refl, sym, ap, ap₂, subst, ◌∙◌, arith}
use bethkit.Prelude.{List, [], ◌∷◌, ◌++◌, length, length-append, append-nil, All}
use bethkit.Prelude.{Option, none, true}
use bethkit.Prelude.Action.{done}
use bethkit.Prelude.Result.{ok}
use bethkit.Io.Cursor.{SliceCursor, slice, is_empty}
use bethkit.Io.Cursor
use bethkit.Io.Cursor.Bounds.{advance}
use bethkit.Io.Cursor.Stream.{Before, Before-advance, Before-room}
use bethkit.Core.Record.Data.{SubRecord, as_bytes}
use bethkit.Core.Record.Subrecords.{result_of, subrecords_loop, parse_subrecords}
use bethkit.Core.Record.Taken.{extended}
use bethkit.Core.Writer.Data.{WritableSubRecord, subrecord_bytes, write_subrecords}
use bethkit.Core.Writer.RoundTrip.Text.{
  IsWritable, block_bytes, write_subrecords_lem, length-subrecord_bytes,
}
use bethkit.Core.Writer.RoundTrip.Turns.{Before-split, Rounds, sr-Rounds, found_at}
use mathlib.Core.List.{map}

-- What a parsed subrecord holds.
abbrev pub content : SubRecord → WritableSubRecord
content sr = record { signature = sr.signature; bytes = as_bytes sr }

-- The loop returns subrecords that hold what was written.
record Reread (srs : List WritableSubRecord) (fuel : ℕ) (c : SliceCursor) : Type 0 where
  found : List SubRecord
  same : map content found ≡ srs
  final : SliceCursor
  runs : subrecords_loop fuel c.bytes none c ≡ done found final

loop_end :
    (fuel : ℕ) (pending : Option ℕ) (c : SliceCursor)
    → is_empty c ≡ true
    → subrecords_loop (suc fuel) c.bytes pending c ≡ done [] c
unfolding subrecords_loop
loop_end fuel pending c all_read = rw (all_read)

Before-is_empty : (c : SliceCursor) → Before c [] [] → is_empty c ≡ true
unfolding is_empty
Before-is_empty c before = ground (arith, Before-room c [] [] before)

first-Reread :
    (sr : WritableSubRecord) (srs : List WritableSubRecord) (fuel : ℕ) (c : SliceCursor)
    → (first : Rounds sr fuel c) → Reread srs first.left (advance (length (subrecord_bytes sr)) c)
    → Reread (sr ∷ srs) (suc (suc fuel)) c
first-Reread sr srs fuel c first later = record {
  found = found_at sr c.bytes first.start ∷ later.found;
  same =
      ap₂ (λ b more. record { signature = sr.signature; bytes = b } ∷ more) first.shown later.same;
  final = later.final;
  runs = first.runs ∙ ap (extended (found_at sr c.bytes first.start)) later.runs;
}

loop-block :
    (srs : List WritableSubRecord) (fuel : ℕ) (c : SliceCursor)
    → All IsWritable srs
    → Before c (block_bytes srs) []
    → 2 * length srs < fuel
    → Reread srs fuel c
unfolding block_bytes
loop-block [] fuel c writable before enough =
    subst (λ n. Reread [] n c) one
      (record {
        found = [];
        same = refl;
        final = c;
        runs = loop_end (fuel - 1) none c (Before-is_empty c before);
      })
  where
    one : suc (fuel - 1) ≡ fuel
    one = omega arith
loop-block (sr ∷ srs) fuel c writable before enough =
    subst (λ n. Reread (sr ∷ srs) n c) two
      (first-Reread sr srs (fuel - 2) c first (
        loop-block srs first.left (advance (length (subrecord_bytes sr)) c) writable.1
          (Before-advance c (subrecord_bytes sr) (block_bytes srs) [] whole)
          (omega (arith, first.enough))))
  where
    two : suc (suc (fuel - 2)) ≡ fuel
    two = omega arith

    whole : Before c (subrecord_bytes sr) (block_bytes srs ++ [])
    whole = Before-split c (subrecord_bytes sr) (block_bytes srs) [] before

    first : Rounds sr (fuel - 2) c
    first = sr-Rounds sr writable.0 (fuel - 2) c (block_bytes srs ++ []) whole

-- A subrecord of the block takes six bytes at least.
length-block_bytes :
    (srs : List WritableSubRecord) → All IsWritable srs → 2 * length srs ≤ length (block_bytes srs)
unfolding block_bytes
length-block_bytes [] writable = omega arith
length-block_bytes (sr ∷ srs) writable = ground (
  arith,
  length-append (subrecord_bytes sr) (block_bytes srs),
  length-subrecord_bytes sr writable.0,
  length-block_bytes srs writable.1,
)

-- Whatever subrecords are written, of every size up to `2 ^ 32 - 1` with the override included,
-- parsing the written block returns subrecords with the same signatures and payloads, in order.
pub write_subrecords-parse_subrecords :
    (srs : List WritableSubRecord)
    → All IsWritable srs
    → length (write_subrecords srs []) < 2 ^ 63
    → (found : List SubRecord) × (parse_subrecords (write_subrecords srs []) ≡ ok found)
      × (map content found ≡ srs)
unfolding parse_subrecords
write_subrecords-parse_subrecords srs writable small =
    (again.found, ap result_of again.runs, again.same)
  where
    buffer : List ℕ
    buffer = write_subrecords srs []

    written : buffer ≡ block_bytes srs
    written = write_subrecords_lem srs []

    before : Before (Cursor.new buffer) (block_bytes srs) []
    before = record {
      valid = record { within = omega arith; small = small };
      seen = written ∙ sym (append-nil (block_bytes srs));
    }

    again : Reread srs (suc (length buffer)) (Cursor.new buffer)
    again =
        loop-block srs (suc (length buffer)) (Cursor.new buffer) writable before
          (rw (written) (omega (arith, length-block_bytes srs writable)))
