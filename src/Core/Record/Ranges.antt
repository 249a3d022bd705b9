-- ===== src/Core/Record/Ranges.antt =====
-- The loop over any buffer at all, as a file on disk may hold it.
use bethkit.Prelude.{
  ℕ, zero, suc, ◌+◌, ◌-◌, ◌≤◌, ◌<◌, ◌≡◌, refl, sym, ap, ◌∙◌, ◌⊎◌, inl, inr, arith,
}
use bethkit.Prelude.{List, [], ◌∷◌, length}
use bethkit.Prelude.{Option, none, some, Bool-cases, ◌==◌}
use bethkit.Prelude.Action.{Outcome, done, fail, pure, ◌>>=◌}
use bethkit.Prelude.Result.{ok, err}
use bethkit.Prelude.Fault.{Fault, error, out_of_fuel}
use bethkit.Prelude.Keys.{bytes_eq}
use bethkit.Io.Cursor.{
  SliceCursor, Reads, slice, is_empty, read_array, read_u16, read_u32, read_slice, sub_cursor,
}
use bethkit.Io.Cursor
use bethkit.Io.Cursor.Bounds.{advance}
use bethkit.Io.Cursor.Stream.{advance-advance}
use bethkit.Core.Signature
use bethkit.Core.Signature.{Signature}
use bethkit.Core.Error.{CoreError}
use bethkit.Core.Record.Data.{SubRecord, borrowed}
use bethkit.Core.Record.Subrecords.{Parser, read_subrecord_header, read_body}
use bethkit.Core.Record.Subrecords.{
  data_size_of, subrecord_step, subrecords_loop, parse_subrecords, result_of,
}
use bethkit.Core.Record.Taken.{
  extended, bind-extended, taken, refused, read_real_size-Taken, read_subrecord_header-Taken,
  read_subrecord_header_named, read_body-Taken, read_body_ranged,
}

-- A subrecord whose header stands at `head`: its signature there, and its payload behind the six
-- bytes of the header.
record Stands (buffer : List ℕ) (sr : SubRecord) (head end : ℕ) : Type 0 where
  named : sr.signature ≡ slice head (head + 4) buffer
  ranged : sr.body ≡ borrowed buffer (head + 6) end
  forwards : head + 6 ≤ end
  within : end ≤ length buffer

-- Subrecords one behind the other, from a position on.
pub InOrder : List ℕ → ℕ → List SubRecord → Type 0
InOrder buffer from [] = Unit
InOrder buffer from (sr ∷ srs) =
    (head end : ℕ) × (from ≤ head) × Stands buffer sr head end × InOrder buffer end srs

InOrder-earlier :
    (buffer : List ℕ) (from later : ℕ) (srs : List SubRecord)
    → from ≤ later
    → InOrder buffer later srs
    → InOrder buffer from srs
unfolding InOrder
InOrder-earlier buffer from later [] behind order = tt
InOrder-earlier buffer from later (sr ∷ srs) behind (head, end, after, stands, order) =
    (head, end, omega (arith, after), stands, order)

-- What may come of the loop: subrecords in order, or an error of the program's own.
pub Sound : List ℕ → ℕ → Outcome (Fault CoreError) SliceCursor (List SubRecord) → Type 0
Sound buffer from (done srs c) = InOrder buffer from srs
Sound buffer from (fail (error e) c) = Unit
Sound buffer from (fail out_of_fuel c) = ⊥

Sound-earlier :
    (buffer : List ℕ) (from later : ℕ) (o : Outcome (Fault CoreError) SliceCursor (List SubRecord))
    → from ≤ later
    → Sound buffer later o
    → Sound buffer from o
unfolding Sound
Sound-earlier buffer from later (done srs c) behind order =
    InOrder-earlier buffer from later srs behind order
Sound-earlier buffer from later (fail (error e) c) behind sound = tt
Sound-earlier buffer from later (fail out_of_fuel c) behind sound = sound

Sound-extended :
    (buffer : List ℕ) (from head end : ℕ) (sr : SubRecord)
    (o : Outcome (Fault CoreError) SliceCursor (List SubRecord))
    → from ≤ head
    → Stands buffer sr head end
    → Sound buffer end o
    → Sound buffer from (extended sr o)
unfolding Sound InOrder
Sound-extended buffer from head end sr (done srs c) after stands order =
    (head, end, after, stands, order)
Sound-extended buffer from head end sr (fail (error e) c) after stands sound = tt
Sound-extended buffer from head end sr (fail out_of_fuel c) after stands sound = sound

-- What is assumed of the rest of the loop, which goes on six bytes further at least.
abbrev Later : (Option ℕ → Parser (List SubRecord)) → SliceCursor → Type 0
Later again c =
    (p : Option ℕ) (n : ℕ)
    → 6 ≤ n
    → c.pos + n ≤ length c.bytes
    → Sound c.bytes (c.pos + n) (again p (advance n c))

module _ (again : Option ℕ → Parser (List SubRecord)) (c : SliceCursor)
    (later : Later again c) where
  later_twice :
      (p : Option ℕ) (n : ℕ)
      → c.pos + 6 + n ≤ length c.bytes
      → Sound c.bytes (c.pos + 6 + n) (again p (advance n (advance 6 c)))
  later_twice p n fits =
      rw (advance-advance 6 n (6 + n) c refl, sums)
        (later p (6 + n) (omega arith) (omega (arith, fits)))
    where
      sums : c.pos + 6 + n ≡ c.pos + (6 + n)
      sums = omega arith

  header-Stands :
      (sig : Signature) (size n : ℕ) (sr : SubRecord)
      → read_subrecord_header c ≡ done (sig, size) (advance 6 c)
      → read_body c.bytes sig n (advance 6 c) ≡ done sr (advance n (advance 6 c))
      → c.pos + 6 + n ≤ length c.bytes
      → Stands c.bytes sr c.pos (c.pos + 6 + n)
  header-Stands sig size n sr head body fits = record {
    named =
        ap (λ r. r.signature) ranged ∙ read_subrecord_header_named c (advance 6 c) sig size head;
    ranged = ap (λ r. r.body) ranged;
    forwards = omega arith;
    within = fits;
  }
    where
      ranged : sr ≡ record { signature = sig; body = borrowed c.bytes (c.pos + 6) (c.pos + 6 + n) }
      ranged = read_body_ranged c.bytes sig n (advance 6 c) (advance n (advance 6 c)) sr body

  -- A payload of `n` bytes behind the header, and the rest of the loop.
  body-Sound :
      (sig : Signature) (size n : ℕ)
      → read_subrecord_header c ≡ done (sig, size) (advance 6 c)
      → Sound c.bytes c.pos
          ((do sr ← read_body c.bytes sig n; srs ← again none; pure (sr ∷ srs)) (advance 6 c))
  unfolding Sound
  body-Sound sig size n head = elim (read_body-Taken c.bytes sig n (advance 6 c)) [
    | taken sr eq fits ↦
        rw (eq, ◌>>=◌)
          (rw (sym (bind-extended sr (again none) (advance n (advance 6 c)))) at (
            Sound-extended c.bytes c.pos c.pos (c.pos + 6 + n) sr
              (again none (advance n (advance 6 c))) (omega arith)
              (header-Stands sig size n sr head eq fits) (later_twice none n fits)))
    | refused e c' eq ↦ rw (eq, ◌>>=◌) tt
  ]

  step-Sound : (pending : Option ℕ) → Sound c.bytes c.pos (subrecord_step again c.bytes pending c)
  unfolding subrecord_step Sound
  step-Sound pending = elim (read_subrecord_header-Taken c) [
    | taken (sig, size) eq fits ↦
        rw (eq, ◌>>=◌)
          (elim (Bool-cases (bytes_eq sig Signature.xxxx)) [
            | inl override ↦ rw (override) (elim (Bool-cases (size == 4)) [
              | inl four ↦ rw (four) (elim (read_real_size-Taken (advance 6 c)) [
                | taken real eq' fits' ↦
                    rw (eq', ◌>>=◌)
                      (Sound-earlier c.bytes c.pos (c.pos + 6 + 4) _ (omega arith)
                        (later_twice (some real) 4 fits'))
                | refused e c' eq' ↦ rw (eq', ◌>>=◌) tt
              ])
              | inr other ↦ rw (other) tt
            ])
            | inr plain ↦ rw (plain) (body-Sound sig size (data_size_of pending size) eq)
          ])
    | refused e c' eq ↦ rw (eq, ◌>>=◌) tt
  ]

loop-Sound :
    (fuel : ℕ) (pending : Option ℕ) (c : SliceCursor)
    → length c.bytes - c.pos < fuel
    → Sound c.bytes c.pos (subrecords_loop fuel c.bytes pending c)
unfolding subrecords_loop Sound InOrder
loop-Sound zero pending c enough = omega arith
loop-Sound (suc fuel) pending c enough = elim (Bool-cases (is_empty c)) [
  | inl all_read ↦ rw (all_read) tt
  | inr more ↦ rw (more) (
      step-Sound (λ p. subrecords_loop fuel c.bytes p) c
        (λ p n six fits. loop-Sound fuel p (advance n c) (omega (arith, enough))) pending)
]

result_of-Sound :
    (buffer : List ℕ) (o : Outcome (Fault CoreError) SliceCursor (List SubRecord))
    → Sound buffer 0 o
    → ((found : List SubRecord) × (result_of o ≡ ok found) × InOrder buffer 0 found)
      ⊎ ((e : CoreError) × (result_of o ≡ err (error e)))
unfolding Sound
result_of-Sound buffer (done srs c) order = inl (srs, refl, order)
result_of-Sound buffer (fail (error e) c) sound = inr (e, refl)
result_of-Sound buffer (fail out_of_fuel c) sound = elim sound [ ]

-- On any buffer at all the loop comes to an end, with an error of the program's own or with
-- subrecords that stand in the buffer one behind the other: each has its signature there, and its
-- payload is a range of the buffer, behind the six bytes of the header and in front of the next
-- subrecord.
pub parse_subrecords-InOrder :
    (buffer : List ℕ)
    → ((found : List SubRecord) × (parse_subrecords buffer ≡ ok found) × InOrder buffer 0 found)
      ⊎ ((e : CoreError) × (parse_subrecords buffer ≡ err (error e)))
unfolding parse_subrecords
parse_subrecords-InOrder buffer =
    result_of-Sound buffer _
      (loop-Sound (suc (length buffer)) none (Cursor.new buffer) (omega arith))
