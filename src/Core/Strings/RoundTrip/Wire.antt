-- ===== src/Core/Strings/RoundTrip/Wire.antt =====
-- The layout that `write_to` produces, and that the directory is read back from it.
use bethkit.Prelude.{ℕ, suc, ◌+◌, ◌*◌, ◌%◌, ◌^◌, ◌<◌, ◌≡◌, refl, sym, ap, ap₂, ◌∙◌, arith}
use bethkit.Prelude.{List, [], ◌∷◌, ◌++◌, length, length-append, append_assoc, append-nil, All}
use bethkit.Prelude.SortedMap.{SortedMap}
use bethkit.Io.Bytes.{to_le_bytes, length-to_le_bytes}
use bethkit.Io.Cursor.Stream.{
  Parses, Parses-pure, Parses-bind, Parses-map, Parses-convert, read_u32-Parses,
}
use bethkit.Core.Error.{io}
use bethkit.Core.Strings.Table.{StringFileKind, EntryBytes, as_slice}
use bethkit.Core.Strings.Directory.{read_field, directory_loop}
use bethkit.Core.Strings.Write.{encode_payload, write_loop}

-- The blob, the directory behind `off` bytes of blob, and the pairs that the directory holds.
unfoldable pub blob_of : StringFileKind → SortedMap EntryBytes → List ℕ
blob_of kind [] = []
blob_of kind ((id, b) ∷ es) = encode_payload kind (as_slice b) ++ blob_of kind es

unfoldable pub pairs_of : StringFileKind → ℕ → SortedMap EntryBytes → List (ℕ × ℕ)
pairs_of kind off [] = []
pairs_of kind off ((id, b) ∷ es) =
    (id, off) ∷ pairs_of kind (off + length (encode_payload kind (as_slice b))) es

unfoldable pub directory_of : List (ℕ × ℕ) → List ℕ
directory_of [] = []
directory_of ((id, off) ∷ ps) = to_le_bytes 4 id ++ (to_le_bytes 4 off ++ directory_of ps)

pub length-pairs_of :
    (kind : StringFileKind) (off : ℕ) (es : SortedMap EntryBytes)
    → length (pairs_of kind off es) ≡ length es
unfolding pairs_of
length-pairs_of kind off [] = refl
length-pairs_of kind off ((id, b) ∷ es) =
    ap suc (length-pairs_of kind (off + length (encode_payload kind (as_slice b))) es)

pub length-directory_of : (ps : List (ℕ × ℕ)) → length (directory_of ps) ≡ length ps * 8
unfolding directory_of
length-directory_of [] = refl
length-directory_of ((id, off) ∷ ps) = omega (
  arith,
  length-directory_of ps,
  length-append (to_le_bytes 4 id) (to_le_bytes 4 off ++ directory_of ps),
  length-append (to_le_bytes 4 off) (directory_of ps),
  length-to_le_bytes 4 id,
  length-to_le_bytes 4 off,
)

-- `write_loop` appends the directory and the blob, as long as offsets fit 32 bits.
pub write_loop-wire :
    (kind : StringFileKind) (es : SortedMap EntryBytes) (directory blob : List ℕ)
    → length blob + length (blob_of kind es) < 2 ^ 32
    → write_loop kind es directory blob
      ≡ (directory ++ directory_of (pairs_of kind (length blob) es), blob ++ blob_of kind es)
unfolding write_loop blob_of pairs_of directory_of
write_loop-wire kind [] directory blob fits =
    ap₂ (λ x y. (x, y)) (sym (append-nil directory)) (sym (append-nil blob))
write_loop-wire kind ((id, b) ∷ es) directory blob fits =
    let enc = encode_payload kind (as_slice b) in
    let room : length blob % 2 ^ 32 ≡ length blob = omega arith in
    rw room (
      write_loop-wire kind es (directory ++ (to_le_bytes 4 id ++ to_le_bytes 4 (length blob)))
        (blob ++ enc) (omega (arith, length-append blob enc, length-append enc (blob_of kind es)))
      ∙ rw (length-append blob enc) (simp append_assoc))

-- A directory of `u32` pairs.
abbrev pub ArePairs : List (ℕ × ℕ) → Type 0
ArePairs ps = All (λ p. (p.0 < 2 ^ 32) × (p.1 < 2 ^ 32)) ps

pub read_field-Parses : (v : ℕ) → v < 2 ^ 32 → Parses read_field (to_le_bytes 4 v) v
unfolding read_field
read_field-Parses v h = Parses-convert io _ (to_le_bytes 4 v) v (read_u32-Parses v h)

pub directory_loop-Parses :
    (ps : List (ℕ × ℕ)) → ArePairs ps → Parses (directory_loop (length ps)) (directory_of ps) ps
unfolding directory_loop directory_of
directory_loop-Parses [] h = Parses-pure []
directory_loop-Parses ((id, off) ∷ ps) h =
    Parses-bind read_field _ (to_le_bytes 4 id) (to_le_bytes 4 off ++ directory_of ps) id _
      (read_field-Parses id h.0.0)
      (Parses-bind read_field _ (to_le_bytes 4 off) (directory_of ps) off _
        (read_field-Parses off h.0.1)
        (Parses-map (directory_loop (length ps)) _ (directory_of ps) ps
          (directory_loop-Parses ps h.1)))
