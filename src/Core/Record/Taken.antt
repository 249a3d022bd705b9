-- ===== src/Core/Record/Taken.antt =====
-- What a parser takes off the cursor when it returns a value.
use bethkit.Prelude.{ℕ, ◌+◌, ◌≤◌, ◌≡◌, refl, ap, ◌∙◌, inl, inr, arith}
use bethkit.Prelude.{List, ◌∷◌, length}
use bethkit.Prelude.Action.{Outcome, done, fail, convert, Outcome-cases, pure, ◌>>=◌}
use bethkit.Prelude.Fault.{Fault, error}
use bethkit.Io.Cursor.{
  read_u32, read_i32, SliceCursor, Reads, slice, read_array, read_u16, read_slice, sub_cursor,
}
use bethkit.Io.Cursor.Bounds.{advance}
use bethkit.Io.Cursor.Stream.{advance-advance}
use bethkit.Core.Signature.{Signature}
use bethkit.Core.Error.{CoreError, io}
use bethkit.Core.Record.Data.{SubRecord, borrowed}
use bethkit.Core.Record.Subrecords.{
  Parser, reading, read_real_size, read_subrecord_header, read_body,
}

-- A parser that takes `n` bytes, or fails with an error of the program's own.
pub data Taken {A : Type 0} (n : ℕ) (m : Parser A) (c : SliceCursor) : Type 0 where
  taken : (a : A) → m c ≡ done a (advance n c) → c.pos + n ≤ length c.bytes → Taken n m c
  refused : (e : CoreError) (c' : SliceCursor) → m c ≡ fail (error e) c' → Taken n m c

reading-Taken :
    {A : Type 0} (n : ℕ) (m : Reads A) (c : SliceCursor)
    → ((a : A) (c' : SliceCursor)
        → m c ≡ done a c'
        → (c' ≡ advance n c) × (c.pos + n ≤ length c.bytes))
    → Taken n (reading m) c
reading-Taken n m c moves = elim (Outcome-cases (m c)) [
  | inl (a, c', e) ↦ taken a (rw (e, convert) (ap (done a) (moves a c' e).0)) (moves a c' e).1
  | inr (e, c', eq) ↦ refused (io e) c' (rw (eq, convert))
]

pub read_slice-Taken : (n : ℕ) (c : SliceCursor) → Taken n (reading (read_slice n)) c
unfolding read_slice
read_slice-Taken n c = reading-Taken n (read_slice n) c (λ a c' e. ground (arith, e))

pub read_real_size-Taken : (c : SliceCursor) → Taken 4 (reading read_real_size) c
unfolding read_real_size sub_cursor read_slice
read_real_size-Taken c = reading-Taken 4 read_real_size c (λ a c' e. ground (arith, e))

pub Taken-bind :
    {A B : Type 0} (n k : ℕ) (m : Parser A) (f : A → Parser B) (c : SliceCursor)
    → Taken n m c
    → ((a : A) → c.pos + n ≤ length c.bytes → Taken k (f a) (advance n c))
    → Taken (n + k) (m >>= f) c
Taken-bind n k m f c (refused e c' eq) next = refused e c' (rw (eq, ◌>>=◌))
Taken-bind n k m f c (taken a eq fits) next = elim (next a fits) [
  | taken b eq' fits' ↦
      taken b (rw (eq, ◌>>=◌) (eq' ∙ ap (done b) (advance-advance n k (n + k) c refl)))
        (omega (arith, fits'))
  | refused e c' eq' ↦ refused e c' (rw (eq, ◌>>=◌) eq')
]

pub Taken-map :
    {A B : Type 0} (n : ℕ) (m : Parser A) (f : A → B) (c : SliceCursor)
    → Taken n m c
    → Taken n (do x ← m; pure (f x)) c
Taken-map n m f c (taken a eq fits) = taken (f a) (rw (eq, ◌>>=◌)) fits
Taken-map n m f c (refused e c' eq) = refused e c' (rw (eq, ◌>>=◌))

pub read_array-Taken : (n : ℕ) (c : SliceCursor) → Taken n (reading (read_array n)) c
unfolding read_array
read_array-Taken n c = reading-Taken n (read_array n) c (λ a c' e. ground (arith, e))

pub read_u32-Taken : (c : SliceCursor) → Taken 4 (reading read_u32) c
unfolding read_u32 read_array
read_u32-Taken c = reading-Taken 4 read_u32 c (λ a c' e. ground (arith, e))

pub read_i32-Taken : (c : SliceCursor) → Taken 4 (reading read_i32) c
unfolding read_i32 read_array
read_i32-Taken c = reading-Taken 4 read_i32 c (λ a c' e. ground (arith, e))

pub read_u16-Taken : (c : SliceCursor) → Taken 2 (reading read_u16) c
unfolding read_u16 read_array
read_u16-Taken c = reading-Taken 2 read_u16 c (λ a c' e. ground (arith, e))

pub read_subrecord_header-Taken : (c : SliceCursor) → Taken 6 read_subrecord_header c
unfolding read_subrecord_header
read_subrecord_header-Taken c =
    Taken-bind 4 2 (reading (read_array 4)) _ c (read_array-Taken 4 c) (λ sig _.
      Taken-map 2 (reading read_u16) (λ size. (sig, size)) (advance 4 c)
        (read_u16-Taken (advance 4 c)))

-- The signature is the four bytes under the cursor.
pub read_subrecord_header_named :
    (c c' : SliceCursor) (sig : Signature) (size : ℕ)
    → read_subrecord_header c ≡ done (sig, size) c'
    → sig ≡ slice c.pos (c.pos + 4) c.bytes
unfolding read_subrecord_header read_u16 read_array
read_subrecord_header_named c c' sig size e = ground (arith, e)

pub read_body-Taken :
    (buffer : List ℕ) (sig : Signature) (n : ℕ) (c : SliceCursor)
    → Taken n (read_body buffer sig n) c
unfolding read_body
read_body-Taken buffer sig n c = elim (read_slice-Taken n c) [
  | taken a eq fits ↦
      taken (record { signature = sig; body = borrowed buffer c.pos (c.pos + n) }) (rw (eq, ◌>>=◌))
        fits
  | refused e c' eq ↦ refused e c' (rw (eq, ◌>>=◌))
]

pub read_body_ranged :
    (buffer : List ℕ) (sig : Signature) (n : ℕ) (c c' : SliceCursor) (sr : SubRecord)
    → read_body buffer sig n c ≡ done sr c'
    → sr ≡ record { signature = sig; body = borrowed buffer c.pos c'.pos }
unfolding read_body read_slice
read_body_ranged buffer sig n c c' sr e = ground (arith, e)

-- What a round adds in front of what the rest of the loop returns.
abbrev pub extended :
    SubRecord
    → Outcome (Fault CoreError) SliceCursor (List SubRecord)
    → Outcome (Fault CoreError) SliceCursor (List SubRecord)
extended sr (done srs c) = done (sr ∷ srs) c
extended sr (fail e c) = fail e c

pub bind-extended :
    (sr : SubRecord) (m : Parser (List SubRecord)) (c : SliceCursor)
    → (m >>= λ srs. pure (sr ∷ srs)) c ≡ extended sr (m c)
bind-extended sr m c = elim (Outcome-cases (m c)) [
  | inl (srs, c', e) ↦ rw (e, ◌>>=◌) refl
  | inr (f, c', e) ↦ rw (e, ◌>>=◌) refl
]
