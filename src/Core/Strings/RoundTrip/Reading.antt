-- ===== src/Core/Strings/RoundTrip/Reading.antt =====
-- `from_bytes` and `parse` on what `write_to` wrote.
use bethkit.Prelude.{ℕ, ◌+◌, ◌-◌, ◌*◌, ◌^◌, ◌≤◌, ◌<◌, ◌≡◌, refl, sym, ap, ◌∙◌, arith}
use bethkit.Prelude.{
  List, [], ◌∷◌, ◌++◌, length, length-append, append_assoc, append-nil, All, drop,
}
use bethkit.Prelude.{length-drop, drop-append, drop-drop, some, min, All-append, ltb, false}
use bethkit.Prelude.Result.{ok, ◌>>=◌}
use bethkit.Prelude.SortedMap.{SortedMap, IsSorted, Above, insert_last}
use bethkit.Prelude.SortedMap
use bethkit.Io.Bytes.{to_le_bytes, length-to_le_bytes}
use bethkit.Io.Cursor.{SliceCursor, slice, checked_add}
use bethkit.Io.Cursor
use bethkit.Io.Cursor.Stream.{Before, Parses, Parses-bind}
use bethkit.Core.Strings.Table.{StringFileKind, EntryBytes, as_slice, bump, u32_max}
use bethkit.Core.Strings.Directory.{parse_directory, directory_fields, read_field}
use bethkit.Core.Strings.Payload.{read_payload, entries_loop}
use bethkit.Core.Strings.Write.{encode_payload}
use bethkit.Core.Strings.RoundTrip.Wire.{blob_of, pairs_of, directory_of}
use bethkit.Core.Strings.RoundTrip.Wire.{length-directory_of, ArePairs}
use bethkit.Core.Strings.RoundTrip.Wire.{read_field-Parses, directory_loop-Parses}
use bethkit.Core.Strings.RoundTrip.Fetch.{
  Storable, length-encode_payload_pos, read_payload-encode_payload,
}

-- A directory behind its header.
abbrev pub header_of : ℕ → ℕ → List (ℕ × ℕ) → List ℕ
header_of count size ps = to_le_bytes 4 count ++ (to_le_bytes 4 size ++ directory_of ps)

directory_fields-Parses :
    (room size : ℕ) (ps : List (ℕ × ℕ))
    → length ps < 2 ^ 32
    → size < 2 ^ 32
    → 8 + length ps * 8 ≤ room
    → ArePairs ps
    → Parses (directory_fields room) (header_of (length ps) size ps) ps
unfolding directory_fields
directory_fields-Parses room size ps many fits enough are_pairs =
    Parses-bind read_field _ (to_le_bytes 4 (length ps)) (to_le_bytes 4 size ++ directory_of ps)
      (length ps) ps (read_field-Parses (length ps) many)
      (Parses-bind read_field _ (to_le_bytes 4 size) (directory_of ps) size ps
        (read_field-Parses size fits) (rw test (directory_loop-Parses ps are_pairs)))
  where
    test : ltb room (8 + min (length ps * 8) (2 ^ 64 - 1)) ≡ false
    test = ground arith

pub length-header_of :
    (count size : ℕ) (ps : List (ℕ × ℕ)) → length (header_of count size ps) ≡ 8 + length ps * 8
length-header_of count size ps = omega (
  arith,
  length-append (to_le_bytes 4 count) (to_le_bytes 4 size ++ directory_of ps),
  length-append (to_le_bytes 4 size) (directory_of ps),
  length-to_le_bytes 4 count,
  length-to_le_bytes 4 size,
  length-directory_of ps,
)

pub parse_directory-header_of :
    (size : ℕ) (ps : List (ℕ × ℕ)) (blob : List ℕ)
    → length ps < 2 ^ 32
    → size < 2 ^ 32
    → length blob < 2 ^ 32
    → ArePairs ps
    → parse_directory (header_of (length ps) size ps ++ blob) ≡ ok ps
unfolding parse_directory
parse_directory-header_of size ps blob many fits small are_pairs = ground (
  arith,
  total,
  directory_fields-Parses (length (header ++ blob)) size ps many fits (omega (arith, total))
      are_pairs (Cursor.new (header ++ blob)) blob before,
)
  where
    header : List ℕ
    header = header_of (length ps) size ps

    total : length (header ++ blob) ≡ 8 + length ps * 8 + length blob
    total = omega (arith, length-append header blob, length-header_of (length ps) size ps)

    before : Before (Cursor.new (header ++ blob)) header blob
    before = record { valid = omega (arith, total); seen = refl }

-- What a table holds, with each entry's bytes.
abbrev pub contents : SortedMap EntryBytes → List (ℕ × List ℕ)
contents [] = []
contents ((id, b) ∷ es) = (id, as_slice b) ∷ contents es

contents-snoc :
    (m : SortedMap EntryBytes) (id : ℕ) (b : EntryBytes)
    → contents (m ++ (id, b) ∷ []) ≡ contents m ++ (id, as_slice b) ∷ []
contents-snoc [] id b = refl
contents-snoc ((j, c) ∷ m) id b = ap (λ r. (j, as_slice c) ∷ r) (contents-snoc m id b)

-- Each identifier is a `u32`, and each payload can be stored.
abbrev pub AreStorable : StringFileKind → SortedMap EntryBytes → Type 0
AreStorable kind es = All (λ e. (e.0 ≤ u32_max) × Storable kind (as_slice e.1)) es

-- The keys that are already in are below those still to come.
abbrev pub Behind : SortedMap EntryBytes → SortedMap EntryBytes → Type 0
Behind m [] = Unit {0}
Behind m ((id, b) ∷ es) = All (λ e. e.0 < id) m

Behind-next :
    (m es : SortedMap EntryBytes) (id : ℕ) (b c : EntryBytes)
    → Behind m ((id, b) ∷ es)
    → Above id es
    → Behind (m ++ (id, c) ∷ []) es
Behind-next m [] id b c behind above = tt
Behind-next m ((j, d) ∷ es) id b c behind above =
    All-append (λ e. e.0 < j) m ((id, c) ∷ []) (below m behind) (above.0, tt)
  where
    below : (m : SortedMap EntryBytes) → All (λ e. e.0 < id) m → All (λ e. e.0 < j) m
    below [] h = tt
    below (e ∷ m) h = (omega (arith, h.0, above.0), below m h.1)

checked_add_fits : (a b : ℕ) → a + b < 2 ^ 64 → checked_add a b ≡ some (a + b)
unfolding checked_add
checked_add_fits a b h = ground arith

-- The loop returns the old entries and the ones to come, in order.
unfoldable pub Loaded :
    (ℕ × ℕ → EntryBytes)
    → List ℕ
    → StringFileKind
    → ℕ
    → SortedMap EntryBytes
    → List (ℕ × ℕ)
    → SortedMap EntryBytes
    → ℕ
    → Type 0
Loaded make bytes kind blob_start m ps es next =
    (r : SortedMap EntryBytes × ℕ) × (entries_loop make bytes kind blob_start ps m next ≡ ok r)
    × (contents r.0 ≡ contents m ++ contents es)

-- The loop over the directory finds each payload of the blob. `make` may copy or keep.
module _ (make : ℕ × ℕ → EntryBytes) (bytes : List ℕ) (kind : StringFileKind) (blob_start : ℕ)
    (made : (r : ℕ × ℕ) → as_slice (make r) ≡ slice r.0 r.1 bytes)
    (small : length bytes < 2 ^ 63) where
  entries_loop_step :
      (off id : ℕ) (ps : List (ℕ × ℕ)) (m : SortedMap EntryBytes) (next : ℕ) (r : ℕ × ℕ)
      → blob_start + off < 2 ^ 64
      → read_payload bytes (blob_start + off) kind ≡ ok r
      → entries_loop make bytes kind blob_start ((id, off) ∷ ps) m next
        ≡ entries_loop make bytes kind blob_start ps (SortedMap.insert id (make r) m) (bump id next)
  unfolding entries_loop
  entries_loop_step off id ps m next r fits read =
      rw (checked_add_fits blob_start off fits, read, entries_loop, ◌>>=◌)

  pub entries_loop-blob :
      (es m : SortedMap EntryBytes) (off next : ℕ)
      → IsSorted es
      → Behind m es
      → AreStorable kind es
      → length (blob_of kind es) < 2 ^ 32
      → drop (blob_start + off) bytes ≡ blob_of kind es
      → Loaded make bytes kind blob_start m (pairs_of kind off es) es next
  unfolding Loaded pairs_of blob_of
  entries_loop-blob [] m off next s behind storable fits seen =
      ((m, next), unfold entries_loop in refl, sym (append-nil (contents m)))
  entries_loop-blob ((id, b) ∷ es) m off next s behind storable fits seen =
      let enc = encode_payload kind (as_slice b) in
      let tail = blob_of kind es in
      let both : length (enc ++ tail) ≡ length enc + length tail = length-append enc tail in
      let inside : blob_start + off < length bytes = omega (
        arith,
        ap length seen,
        both,
        length-drop (blob_start + off) bytes,
        length-encode_payload_pos kind (as_slice b),
      ) in
      let (r, read, same) =
        read_payload-encode_payload bytes (blob_start + off) kind (as_slice b) tail small
          (omega (arith, both)) storable.0.1 seen in
      let (loaded, loop, held) =
        entries_loop-blob es (m ++ (id, make r) ∷ []) (off + length enc) (bump id next) s.1
          (Behind-next m es id b (make r) behind s.0) storable.1 (omega (arith, both))
          (sym (
              drop-drop (length enc) (blob_start + off) (blob_start + (off + length enc)) bytes
                (omega arith))
            ∙ ap (drop (length enc)) seen
            ∙ drop-append (length enc) enc tail refl) in
      (
        loaded,
        entries_loop_step off id _ m next r (omega arith) read
            ∙ ap
                (λ (e : SortedMap EntryBytes).
                  entries_loop make bytes kind blob_start (pairs_of kind (off + length enc) es) e
                    (bump id next))
                (insert_last id (make r) m behind)
            ∙ loop,
        held
            ∙ ap (λ c. c ++ contents es) (contents-snoc m id (make r))
            ∙ append_assoc (contents m) _ (contents es)
            ∙ ap (λ v. contents m ++ (id, v) ∷ contents es) (made r ∙ same),
      )
