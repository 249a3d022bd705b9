-- ===== src/Core/Record/Text.antt =====
-- record.rs: texts in a payload, and the source bytes of a record.
use bethkit.Prelude.{ℕ, zero, suc, ◌≡◌, refl, List, [], ◌∷◌, ◌++◌, Option, none, some}
use bethkit.Prelude.{length, take, get_or, ◌==◌, leb, ◌&&◌, if◌then◌else◌}
use bethkit.Prelude.Result.{Result, ok, err, ◌>>=◌}
use bethkit.Prelude.Fault.{Fault, error}
use bethkit.Prelude.Utf8.{is_utf8}
use bethkit.Io.Cursor.{IoError, slice}
use bethkit.Core.Signature
use bethkit.Core.Error.{CoreError, invalid_encoding, format}
use bethkit.Core.Record.Data.{SubRecord, as_bytes, Record}
use bethkit.Core.Record.Lookup.{get}

-- The loop that moves `end` in front of the trailing NULs.
unfoldable pub trim_end : List ℕ → ℕ → ℕ
trim_end bytes zero = zero
trim_end bytes (suc end) =
    let earlier = trim_end bytes end in if get_or bytes end 0 == 0 then earlier else suc end

-- A `str` is its bytes.
unfoldable pub as_zstring : SubRecord → Result CoreError (List ℕ)
unfolding trim_end
as_zstring sr =
    let trimmed = take (trim_end (as_bytes sr) (length (as_bytes sr))) (as_bytes sr) in
    if is_utf8 trimmed
    then ok trimmed
    else err (invalid_encoding (format "invalid UTF-8 in {} subrecord" sr.signature))

-- The conversion that `?` makes.
abbrev pub faulty : {A : Type 0} → Result CoreError A → Result (Fault CoreError) A
faulty (ok a) = ok a
faulty (err e) = err (error e)

-- `source.get(start..end)`
abbrev pub get_range : List ℕ → ℕ → ℕ → Option (List ℕ)
get_range source start end =
    if leb start end && leb end (length source) then some (slice start end source) else none

abbrev pub range_bytes : Option (ℕ × ℕ) → List ℕ → Option (List ℕ)
range_bytes none source = none
range_bytes (some (start, end)) source = get_range source start end

unfoldable pub source_bytes : Record → List ℕ → Option (List ℕ)
source_bytes r source = range_bytes r.source_range source

module _ (decompress_zlib : List ℕ → ℕ → Result IoError (List ℕ)) where
  unfoldable pub editor_id : Record → Result (Fault CoreError) (Option (List ℕ))
  editor_id r = do
    found ← get decompress_zlib r Signature.edid
    elim found [ none ↦ ok none | some sr ↦ (do text ← faulty (as_zstring sr); ok (some text)) ]

-- The byte in front of the end of a text is its last.
get_or-append : (xs ys : List ℕ) (y : ℕ) → get_or (xs ++ y ∷ ys) (length xs) 0 ≡ y
get_or-append [] ys y = refl
get_or-append (x ∷ xs) ys y = get_or-append xs ys y
