-- ===== src/Core/Strings/RoundTrip/Whole.antt =====
-- The round trip of a whole table.
use bethkit.Prelude.{ℕ, ◌+◌, ◌*◌, ◌%◌, ◌^◌, ◌<◌, ◌≡◌, refl, sym, ap, ◌∙◌, arith}
use bethkit.Prelude.{List, [], ◌∷◌, ◌++◌, length, length-append, append_assoc, drop}
use bethkit.Prelude.{drop-append}
use bethkit.Prelude.Result.{ok, ◌>>=◌}
use bethkit.Prelude.SortedMap.{SortedMap, IsSorted, Above, insert_last}
use bethkit.Prelude.SortedMap
use bethkit.Io.Bytes.{to_le_bytes}
use bethkit.Io.Cursor.{slice}
use bethkit.Core.Strings.Table.{StringFileKind, EntryBytes, as_slice, StringTable, get}
use bethkit.Core.Strings.Directory.{parse_directory}
use bethkit.Core.Strings.Payload.{from_bytes, parse, copied, kept}
use bethkit.Core.Strings.Write.{write_to, encode_payload}
use bethkit.Core.Strings.RoundTrip.Wire.{blob_of, pairs_of, directory_of, length-pairs_of}
use bethkit.Core.Strings.RoundTrip.Wire.{write_loop-wire, ArePairs}
use bethkit.Core.Strings.RoundTrip.Reading.{header_of, parse_directory-header_of, contents}
use bethkit.Core.Strings.RoundTrip.Reading.{
  AreStorable, Behind, Loaded, entries_loop-blob, length-header_of,
}
use mathlib.Core.Option

pairs_of-ArePairs :
    (kind : StringFileKind) (off : ℕ) (es : SortedMap EntryBytes)
    → AreStorable kind es
    → off + length (blob_of kind es) < 2 ^ 32
    → ArePairs (pairs_of kind off es)
unfolding pairs_of blob_of
pairs_of-ArePairs kind off [] storable fits = tt
pairs_of-ArePairs kind off ((id, b) ∷ es) storable fits =
    let enc = encode_payload kind (as_slice b) in
    let both : length (enc ++ blob_of kind es) ≡ length enc + length (blob_of kind es) =
      length-append enc (blob_of kind es) in
    (
      (omega (arith, storable.0.0), omega arith),
      pairs_of-ArePairs kind (off + length enc) es storable.1 (omega (arith, both)),
    )

-- A table that fits the format: fewer than 2 ^ 32 entries and bytes of payloads with their framing,
-- and no NUL in a payload that a NUL ends.
pub record Fits (t : StringTable) : Type 0 where
  pub sorted : IsSorted t.entries
  pub storable : AreStorable t.kind t.entries
  pub few : length t.entries < 2 ^ 32
  pub small : length (blob_of t.kind t.entries) < 2 ^ 32

module _ (t : StringTable) (fits : Fits t) where
  pairs : List (ℕ × ℕ)
  pairs = pairs_of t.kind 0 t.entries

  write_to-wire :
      write_to t
      ≡ header_of (length t.entries) (length (blob_of t.kind t.entries)) pairs
        ++ blob_of t.kind t.entries
  unfolding write_to pairs
  write_to-wire = rw (write_loop-wire t.kind t.entries [] [] (omega (arith, fits.small))) (
      rw (few, small)
        (sym (
          append_assoc (to_le_bytes 4 (length t.entries))
            (to_le_bytes 4 (length blob) ++ directory_of pairs) blob
          ∙ ap (λ r. to_le_bytes 4 (length t.entries) ++ r)
              (append_assoc (to_le_bytes 4 (length blob)) (directory_of pairs) blob))))
    where
      blob : List ℕ
      blob = blob_of t.kind t.entries

      few : length t.entries % 2 ^ 32 ≡ length t.entries
      few = omega (arith, fits.few)

      small : length blob % 2 ^ 32 ≡ length blob
      small = omega (arith, fits.small)

  -- Both readers see the directory that was written.
  parse_directory-write_to : parse_directory (write_to t) ≡ ok pairs
  unfolding pairs
  parse_directory-write_to = rw write_to-wire (parse_directory-pairs)
    where
      parse_directory-pairs :
          parse_directory (
            header_of (length t.entries) (length (blob_of t.kind t.entries)) pairs
            ++ blob_of t.kind t.entries)
          ≡ ok pairs
      parse_directory-pairs = rw (length-pairs_of t.kind 0 t.entries) at (
          parse_directory-header_of (length (blob_of t.kind t.entries)) pairs
            (blob_of t.kind t.entries) (rw (length-pairs_of t.kind 0 t.entries) fits.few) fits.small
            fits.small
            (pairs_of-ArePairs t.kind 0 t.entries fits.storable (omega (arith, fits.small))))

  Behind-nil : (es : SortedMap EntryBytes) → Behind [] es
  Behind-nil [] = tt
  Behind-nil (e ∷ es) = tt

  length-write_to : length (write_to t) ≡ 8 + length pairs * 8 + length (blob_of t.kind t.entries)
  length-write_to = rw write_to-wire (
      omega (
        arith,
        length-append (header_of (length t.entries) (length (blob_of t.kind t.entries)) pairs)
            (blob_of t.kind t.entries),
        length-header_of (length t.entries) (length (blob_of t.kind t.entries)) pairs,
      ))

  drop-write_to : drop (8 + length pairs * 8 + 0) (write_to t) ≡ blob_of t.kind t.entries
  drop-write_to = rw write_to-wire (
      drop-append (8 + length pairs * 8 + 0)
        (header_of (length t.entries) (length (blob_of t.kind t.entries)) pairs)
        (blob_of t.kind t.entries)
        (omega
          (arith, length-header_of (length t.entries) (length (blob_of t.kind t.entries)) pairs)))

  loaded :
      (make : ℕ × ℕ → EntryBytes)
      → ((r : ℕ × ℕ) → as_slice (make r) ≡ slice r.0 r.1 (write_to t))
      → Loaded make (write_to t) t.kind (8 + length pairs * 8) [] pairs t.entries 1
  unfolding pairs
  loaded make made =
      entries_loop-blob make (write_to t) t.kind (8 + length pairs * 8) made
        (omega (arith, length-write_to, fits.few, fits.small, length-pairs_of t.kind 0 t.entries))
        t.entries [] 0 1 fits.sorted (Behind-nil t.entries) fits.storable fits.small drop-write_to

get-contents : (t : StringTable) (id : ℕ) → get t id ≡ SortedMap.lookup id (contents t.entries)
unfolding get SortedMap.lookup
get-contents t id = go t.entries
  where
    go :
        (es : SortedMap EntryBytes)
        → Option.map as_slice (SortedMap.lookup id es) ≡ SortedMap.lookup id (contents es)
    go [] = refl
    go ((j, b) ∷ es) = ground (arith, go es)

-- The same kind, and the same payload under every identifier, listed in the same order.
pub record SameTable (t u : StringTable) : Type 0 where
  pub kinds : t.kind ≡ u.kind
  pub listed : contents t.entries ≡ contents u.entries
  pub looked_up : (id : ℕ) → get t id ≡ get u id

same_table :
    (t u : StringTable) → t.kind ≡ u.kind → contents t.entries ≡ contents u.entries → SameTable t u
same_table t u k e = record {
  kinds = k;
  listed = e;
  looked_up = λ id. get-contents t id ∙ ap (SortedMap.lookup id) e ∙ sym (get-contents u id);
}

-- A table that fits the format is read back by `from_bytes` with the same kind and entries.
pub from_bytes-write_to :
    (t : StringTable)
    → Fits t
    → (u : StringTable) × (from_bytes (write_to t) t.kind ≡ ok u) × SameTable u t
unfolding from_bytes Loaded
from_bytes-write_to t fits =
    let (r, loop, same) = loaded t fits (copied (write_to t)) (λ r. refl) in
    (
      record { kind = t.kind; entries = r.0; next_id = r.1 },
      rw (parse_directory-write_to t fits, ◌>>=◌) (rw (loop, ◌>>=◌)),
      same_table _ t refl same,
    )

-- `parse`, which keeps ranges of the file, reads back the same table.
pub parse-write_to :
    (t : StringTable)
    → Fits t
    → (u : StringTable) × (parse (write_to t) t.kind ≡ ok u) × SameTable u t
unfolding parse Loaded
parse-write_to t fits =
    let (r, loop, same) = loaded t fits (kept (write_to t)) (λ r. refl) in
    (
      record { kind = t.kind; entries = r.0; next_id = r.1 },
      rw (parse_directory-write_to t fits, ◌>>=◌) (rw (loop, ◌>>=◌)),
      same_table _ t refl same,
    )
