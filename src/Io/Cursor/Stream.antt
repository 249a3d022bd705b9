-- ===== src/Io/Cursor/Stream.antt =====
-- The cursor as a stream: a read is described by the bytes that it takes off the rest of the slice.
-- `Parses m xs a` says that `m`, wherever the rest begins with `xs`, returns `a` and moves past them.
use bethkit.Prelude.{ℕ, ◌+◌, ◌-◌, ◌^◌, ◌<◌, ◌≡◌, refl, sym, ap, ◌∙◌, arith}
use bethkit.Prelude.{List, [], ◌++◌, length, drop, append_assoc, length-append}
use bethkit.Prelude.{length-drop, take-append, drop-append, drop-drop, some, none}
use bethkit.Prelude.Action.{Action, done, fail, pure, convert, ◌>>=◌}
use bethkit.Io.Bytes.{from_le_bytes, to_le_bytes, length-to_le_bytes, from_le_bytes-to_le_bytes}
use bethkit.Io.Cursor
use bethkit.Io.Cursor.{sub_cursor, SliceCursor, read_u16, read_u32, read_u64, read_f32}
use bethkit.Io.Cursor.{read_array, read_slice, peek_bytes}
use bethkit.Io.Cursor.Bounds.{IsValid, advance}

-- What is still to be read.
abbrev pub ahead : SliceCursor → List ℕ
ahead c = drop c.pos c.bytes

pub length-ahead : (c : SliceCursor) → length (ahead c) ≡ length c.bytes - c.pos
length-ahead c = length-drop c.pos c.bytes

-- The cursor stands before `xs`, and `rest` follows them.
pub record Before (c : SliceCursor) (xs rest : List ℕ) : Type 0 where
  pub valid : IsValid c
  pub seen : ahead c ≡ xs ++ rest

pub Before-room :
    (c : SliceCursor) (xs rest : List ℕ)
    → Before c xs rest
    → c.pos + length xs + length rest ≡ length c.bytes
Before-room c xs rest b =
    omega (arith, ap length b.seen, length-ahead c, length-append xs rest, b.valid.within)

pub Before-advance :
    (c : SliceCursor) (xs ys rest : List ℕ)
    → Before c xs (ys ++ rest)
    → Before (advance (length xs) c) ys rest
Before-advance c xs ys rest b = record {
  valid = omega (arith, Before-room c xs (ys ++ rest) b, b.valid.small);
  seen =
      sym (drop-drop (length xs) c.pos (c.pos + length xs) c.bytes refl)
      ∙ ap (drop (length xs)) b.seen
      ∙ drop-append (length xs) xs (ys ++ rest) refl;
}

abbrev pub Parses : {E A : Type 0} → Action E SliceCursor A → List ℕ → A → Type 0
Parses m xs a =
    (c : SliceCursor) (rest : List ℕ) → Before c xs rest → m c ≡ done a (advance (length xs) c)

pub advance-advance :
    (m n k : ℕ) (c : SliceCursor) → m + n ≡ k → advance n (advance m c) ≡ advance k c
advance-advance m n k c e = ground arith

pub Parses-pure : {E A : Type 0} (a : A) → Parses {E = E} (pure a) [] a
Parses-pure a c rest b = ground arith

-- One read after the other takes one text after the other.
pub Parses-bind :
    {E A B : Type 0} (m : Action E SliceCursor A) (f : A → Action E SliceCursor B) (xs ys : List ℕ)
    (a : A) (b : B)
    → Parses m xs a
    → Parses (f a) ys b
    → Parses (m >>= f) (xs ++ ys) b
Parses-bind m f xs ys a b p q c rest before =
    rw (p c (ys ++ rest) first, ◌>>=◌)
      (q (advance (length xs) c) rest (Before-advance c xs ys rest first)
        ∙ ap (done b) (advance-advance (length xs) (length ys) _ c (sym (length-append xs ys))))
  where
    first : Before c xs (ys ++ rest)
    first = record { valid = before.valid; seen = before.seen ∙ append_assoc xs ys rest }

-- `?` and `map_err` convert the error alone.
pub Parses-convert :
    {E F A : Type 0} (f : E → F) (m : Action E SliceCursor A) (xs : List ℕ) (a : A)
    → Parses m xs a
    → Parses (convert f m) xs a
Parses-convert f m xs a p c rest before = rw (p c rest before, convert)

-- A last step that reads nothing more.
pub Parses-map :
    {E A B : Type 0} (m : Action E SliceCursor A) (f : A → B) (xs : List ℕ) (a : A)
    → Parses m xs a
    → Parses (do x ← m; pure (f x)) xs (f a)
Parses-map m f xs a p c rest before = rw (p c rest before, ◌>>=◌)

pub read_slice-Parses : (n : ℕ) (xs : List ℕ) → length xs ≡ n → Parses (read_slice n) xs xs
unfolding read_slice
read_slice-Parses n xs e c rest b =
    ground (arith, Before-room c xs rest b, b.valid.small, b.seen, take-append n xs rest e)

pub read_array-Parses : (n : ℕ) (xs : List ℕ) → length xs ≡ n → Parses (read_array n) xs xs
unfolding read_array
read_array-Parses n xs e c rest b =
    ground (arith, Before-room c xs rest b, b.valid.small, b.seen, take-append n xs rest e)

-- A cursor of its own over the next bytes.
pub sub_cursor-Parses :
    (n : ℕ) (xs : List ℕ) → length xs ≡ n → Parses (sub_cursor n) xs (Cursor.new xs)
unfolding sub_cursor
sub_cursor-Parses n xs e = Parses-map (read_slice n) Cursor.new xs xs (read_slice-Parses n xs e)

-- A read of `n` bytes as a little-endian number returns the number whose bytes come next.
read_le-Parses :
    (n v : ℕ)
    → v < 256 ^ n
    → Parses (do b ← read_array n; pure (from_le_bytes b)) (to_le_bytes n v) v
read_le-Parses n v h = rw (from_le_bytes-to_le_bytes n v h) at (
    Parses-map (read_array n) from_le_bytes (to_le_bytes n v) (to_le_bytes n v)
      (read_array-Parses n (to_le_bytes n v) (length-to_le_bytes n v)))

pub read_u16-Parses : (v : ℕ) → v < 2 ^ 16 → Parses read_u16 (to_le_bytes 2 v) v
unfolding read_u16
read_u16-Parses v h = read_le-Parses 2 v h

pub read_u32-Parses : (v : ℕ) → v < 2 ^ 32 → Parses read_u32 (to_le_bytes 4 v) v
unfolding read_u32
read_u32-Parses v h = read_le-Parses 4 v h

pub read_f32-Parses : (v : ℕ) → v < 2 ^ 32 → Parses read_f32 (to_le_bytes 4 v) v
unfolding read_f32
read_f32-Parses v h = read_le-Parses 4 v h

pub read_u64-Parses : (v : ℕ) → v < 2 ^ 64 → Parses read_u64 (to_le_bytes 8 v) v
unfolding read_u64
read_u64-Parses v h = read_le-Parses 8 v h

-- A peek shows exactly what `read_slice` would return, and `none` exactly where it would fail.
pub peek_bytes-read_slice :
    (c : SliceCursor) (n : ℕ)
    → peek_bytes c n ≡ elim (read_slice n c) [ done s c' ↦ some s | fail e c' ↦ none ]
unfolding peek_bytes read_slice
peek_bytes-read_slice c n = ground arith
