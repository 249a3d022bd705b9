-- ===== src/Core/Writer/RoundTrip/Turns.antt =====
-- The rounds that one written subrecord takes in the loop that parses it.
use bethkit.Prelude.{ℕ, suc, ◌+◌, ◌-◌, ◌^◌, ◌≤◌, ◌<◌, ◌≡◌, refl, ap, ◌∙◌, arith}
use bethkit.Prelude.{List, ◌++◌, length, length-append, append_assoc, take-append}
use bethkit.Prelude.{Option, none, some, true, false, ltb, Bool-cases, inl, inr}
use bethkit.Io.Bytes.{to_le_bytes, length-to_le_bytes}
use bethkit.Io.Cursor.{SliceCursor, slice, is_empty}
use bethkit.Io.Cursor.Bounds.{advance}
use bethkit.Io.Cursor.Stream.{Before, Before-advance, Before-room, advance-advance}
use bethkit.Core.Signature
use bethkit.Core.Signature.{Signature, IsSignature}
use bethkit.Core.Record.Data.{SubRecord, borrowed}
use bethkit.Core.Record.Subrecords.{data_size_of, subrecord_step, subrecords_loop}
use bethkit.Core.Record.Taken.{extended}
use bethkit.Core.Writer.Data.{WritableSubRecord, subrecord_bytes}
use bethkit.Core.Writer.RoundTrip.Rounds.{subrecord_round, override_round}
use bethkit.Core.Writer.RoundTrip.Text.{
  IsWritable, short_bytes, long_bytes, header_bytes, length-header_bytes,
}

-- A subrecord is a range of the buffer, and a range shows what stands there.
abbrev pub found_at : WritableSubRecord → List ℕ → ℕ → SubRecord
found_at sr buffer start = record {
  signature = sr.signature;
  body = borrowed buffer start (start + length sr.bytes);
}

Before-slice :
    (c : SliceCursor) (xs rest : List ℕ)
    → Before c xs rest
    → slice c.pos (c.pos + length xs) c.bytes ≡ xs
Before-slice c xs rest before = rw (before.seen, spent) (take-append (length xs) xs rest refl)
  where
    spent : c.pos + length xs - c.pos ≡ length xs
    spent = omega arith

-- The rounds that one written subrecord takes, two at most.
pub record Rounds (sr : WritableSubRecord) (fuel : ℕ) (c : SliceCursor) : Type 0 where
  pub left : ℕ
  pub start : ℕ
  pub enough : fuel ≤ left
  pub shown : slice start (start + length sr.bytes) c.bytes ≡ sr.bytes
  pub runs :
      subrecords_loop (suc (suc fuel)) c.bytes none c
      ≡ extended
          (found_at sr c.bytes start)
          (subrecords_loop left c.bytes none (advance (length (subrecord_bytes sr)) c))

not_empty :
    (c : SliceCursor) (xs rest : List ℕ) → Before c xs rest → 0 < length xs → is_empty c ≡ false
unfolding is_empty
not_empty c xs rest before some_bytes = ground (arith, Before-room c xs rest before)

pub Before-split :
    (c : SliceCursor) (xs ys rest : List ℕ) → Before c (xs ++ ys) rest → Before c xs (ys ++ rest)
Before-split c xs ys rest before = record {
  valid = before.valid;
  seen = before.seen ∙ append_assoc xs ys rest;
}

loop_turn :
    (fuel : ℕ) (pending : Option ℕ) (c : SliceCursor)
    → is_empty c ≡ false
    → subrecords_loop (suc fuel) c.bytes pending c
      ≡ subrecord_step (λ p. subrecords_loop fuel c.bytes p) c.bytes pending c
unfolding subrecords_loop
loop_turn fuel pending c more = rw (more)

-- A header and a payload, whatever size the header itself gives.
turn :
    (sr : WritableSubRecord) (fuel : ℕ) (pending : Option ℕ) (size : ℕ) (c : SliceCursor)
    (rest : List ℕ)
    → IsWritable sr
    → Before c (sr.signature ++ to_le_bytes 2 size) (sr.bytes ++ rest)
    → size < 2 ^ 16
    → data_size_of pending size ≡ length sr.bytes
    → subrecords_loop (suc fuel) c.bytes pending c
      ≡ extended
          (found_at sr c.bytes (c.pos + 6))
          (subrecords_loop fuel c.bytes none (advance (6 + length sr.bytes) c))
turn sr fuel pending size c rest writable before small sized =
    loop_turn fuel pending c (not_empty c head (sr.bytes ++ rest) before six)
    ∙ subrecord_round (λ p. subrecords_loop fuel c.bytes p) pending sr.signature size sr.bytes rest
        c before writable.signed writable.plain small sized
  where
    head : List ℕ
    head = sr.signature ++ to_le_bytes 2 size

    six : 0 < length head
    six = omega (arith, length-append sr.signature (to_le_bytes 2 size), writable.signed.four)

module _ (sr : WritableSubRecord) (writable : IsWritable sr) (fuel : ℕ) (c : SliceCursor)
    (rest : List ℕ) (before : Before c (subrecord_bytes sr) rest) where
  short-Rounds : ltb (2 ^ 16 - 1) (length sr.bytes) ≡ false → Rounds sr fuel c
  short-Rounds short = record {
    left = suc fuel;
    start = c.pos + 6;
    enough = omega arith;
    shown = rw six at (
        Before-slice (advance (length head) c) sr.bytes rest
          (Before-advance c head sr.bytes rest whole));
    runs =
        turn sr (suc fuel) none (length sr.bytes) c rest writable whole (ground arith) refl
        ∙ ap
            (λ n.
              extended (found_at sr c.bytes (c.pos + 6))
                (subrecords_loop (suc fuel) c.bytes none (advance n c)))
            size;
  }
    where
      head : List ℕ
      head = header_bytes sr.signature (length sr.bytes)

      six : length head ≡ 6
      six = length-header_bytes sr.signature (length sr.bytes) writable.signed.four

      whole : Before c head (sr.bytes ++ rest)
      whole = Before-split c head sr.bytes rest (rw (short_bytes sr short) at before)

      size : 6 + length sr.bytes ≡ length (subrecord_bytes sr)
      size = rw (short_bytes sr short) (omega (arith, six, length-append head sr.bytes))

  long-Rounds : ltb (2 ^ 16 - 1) (length sr.bytes) ≡ true → Rounds sr fuel c
  long-Rounds long = record {
    left = fuel;
    start = c.pos + 10 + 6;
    enough = omega arith;
    shown = rw zero_six at (
        Before-slice (advance (length head) (advance 10 c)) sr.bytes rest
          (Before-advance (advance 10 c) head sr.bytes rest inner));
    runs =
        loop_turn (suc fuel) none c (not_empty c override _ whole (omega (arith, six)))
        ∙ override_round (λ p. subrecords_loop (suc fuel) c.bytes p) none (length sr.bytes) _ c
            whole writable.small
        ∙ turn sr fuel (some (length sr.bytes)) 0 (advance 10 c) rest writable inner (omega arith)
            refl
        ∙ ap
            (λ c'.
              extended (found_at sr c.bytes (c.pos + 10 + 6))
                (subrecords_loop fuel c.bytes none c'))
            (advance-advance 10 (6 + length sr.bytes) (length (subrecord_bytes sr)) c size);
  }
    where
      override : List ℕ
      override = header_bytes Signature.xxxx 4

      real : List ℕ
      real = to_le_bytes 4 (length sr.bytes)

      head : List ℕ
      head = header_bytes sr.signature 0

      six : length override ≡ 6
      six = length-header_bytes Signature.xxxx 4 refl

      zero_six : length head ≡ 6
      zero_six = length-header_bytes sr.signature 0 writable.signed.four

      whole : Before c override (real ++ ((head ++ sr.bytes) ++ rest))
      whole = rw (append_assoc real (head ++ sr.bytes) rest) at (
          Before-split c override (real ++ (head ++ sr.bytes)) rest
            (rw (long_bytes sr long writable.small) at before))

      past : Before (advance 6 c) real ((head ++ sr.bytes) ++ rest)
      past = rw six at (Before-advance c override real ((head ++ sr.bytes) ++ rest) whole)

      ten : Before (advance 4 (advance 6 c)) (head ++ sr.bytes) rest
      ten =
          rw (length-to_le_bytes 4 (length sr.bytes)) at
            (Before-advance (advance 6 c) real (head ++ sr.bytes) rest past)

      inner : Before (advance 10 c) head (sr.bytes ++ rest)
      inner =
          Before-split (advance 10 c) head sr.bytes rest (rw (advance-advance 6 4 10 c refl) at ten)

      size : 10 + (6 + length sr.bytes) ≡ length (subrecord_bytes sr)
      size = rw (long_bytes sr long writable.small) (
          omega (
            arith,
            six,
            zero_six,
            length-to_le_bytes 4 (length sr.bytes),
            length-append override (real ++ (head ++ sr.bytes)),
            length-append real (head ++ sr.bytes),
            length-append head sr.bytes,
          ))

  pub sr-Rounds : Rounds sr fuel c
  sr-Rounds = elim (Bool-cases (ltb (2 ^ 16 - 1) (length sr.bytes))) [
    | inl e ↦ long-Rounds e
    | inr e ↦ short-Rounds e
  ]
