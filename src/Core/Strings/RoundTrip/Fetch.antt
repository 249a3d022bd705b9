-- ===== src/Core/Strings/RoundTrip/Fetch.antt =====
-- `read_payload` at a place where `encode_payload` wrote.
use bethkit.Prelude.{ℕ, suc, ◌+◌, ◌-◌, ◌%◌, ◌^◌, ◌<◌, ◌≡◌, ◌≢◌, refl, sym, ap, ◌∙◌, arith}
use bethkit.Prelude.{List, [], ◌∷◌, ◌++◌, length, length-append, append_assoc, All, drop, take}
use bethkit.Prelude.{length-drop, take-append, drop-append, drop-drop, if◌then◌else◌, true}
use bethkit.Prelude.Result.{ok}
use bethkit.Io.Bytes.{to_le_bytes, from_le_bytes, length-to_le_bytes, from_le_bytes-to_le_bytes}
use bethkit.Io.Cursor.{slice}
use bethkit.Core.Strings.Table.{StringFileKind, is_length_prefixed}
use bethkit.Core.Strings.Payload.{scan_nul, read_payload}
use bethkit.Core.Strings.Write.{encode_payload}

-- A payload of a NUL-terminated table holds no NUL.
abbrev pub Storable : StringFileKind → List ℕ → Type 0
Storable StringFileKind.strings p = All (λ b. b ≢ 0) p
Storable _ p = Unit

scan_nul_stops :
    (p rest : List ℕ) (end : ℕ) → All (λ b. b ≢ 0) p → scan_nul (p ++ 0 ∷ rest) end ≡ end + length p
unfolding scan_nul
scan_nul_stops [] rest end h = omega arith
scan_nul_stops (b ∷ p) rest end h = ground (arith, h.0, scan_nul_stops p rest (end + 1) h.1)

length-encode_payload :
    (kind : StringFileKind) (p : List ℕ)
    → length (encode_payload kind p) ≡ (if is_length_prefixed kind then 5 else 1) + length p
unfolding encode_payload
length-encode_payload StringFileKind.strings p = omega (arith, length-append p (0 ∷ []))
length-encode_payload _ p =
    let size = to_le_bytes 4 ((length p % 2 ^ 32 + 1) % 2 ^ 32) in
    omega (
      arith,
      length-append size (p ++ 0 ∷ []),
      length-append p (0 ∷ []),
      length-to_le_bytes 4 ((length p % 2 ^ 32 + 1) % 2 ^ 32),
    )

pub length-encode_payload_pos :
    (kind : StringFileKind) (p : List ℕ) → 0 < length (encode_payload kind p)
length-encode_payload_pos kind p = ground (arith, length-encode_payload kind p)

module _ (bytes : List ℕ) (start : ℕ) (p rest : List ℕ) where
  Fetched : StringFileKind → Type 0
  Fetched kind = (r : ℕ × ℕ) × (read_payload bytes start kind ≡ ok r) × (slice r.0 r.1 bytes ≡ p)

  fetch_terminated :
      length bytes < 2 ^ 63
      → drop start bytes ≡ p ++ 0 ∷ rest
      → All (λ b. b ≢ 0) p
      → Fetched StringFileKind.strings
  unfolding Fetched read_payload
  fetch_terminated small seen clean =
      let room : length bytes - start ≡ length p + suc (length rest) =
        omega (arith, ap length seen, length-drop start bytes, length-append p (0 ∷ rest)) in
      (
        (start, start + length p),
        ground (arith, room, seen, scan_nul_stops p rest start clean),
        ground (arith, room, seen, take-append (length p) p (0 ∷ rest) refl),
      )

  fetch_prefixed :
      (kind : StringFileKind)
      → is_length_prefixed kind ≡ true
      → length bytes < 2 ^ 63
      → length p + 5 < 2 ^ 32
      → drop start bytes ≡ to_le_bytes 4 (length p + 1) ++ (p ++ 0 ∷ rest)
      → Fetched kind
  unfolding Fetched read_payload
  fetch_prefixed kind prefixed small fits seen =
      let size = to_le_bytes 4 (length p + 1) in
      let room : length bytes - start ≡ 4 + length p + suc (length rest) = omega (
        arith,
        ap length seen,
        length-drop start bytes,
        length-append size (p ++ 0 ∷ rest),
        length-append p (0 ∷ rest),
        length-to_le_bytes 4 (length p + 1),
      ) in
      let head : take 4 (drop start bytes) ≡ size =
        ap (take 4) seen
        ∙ take-append 4 size (p ++ 0 ∷ rest) (length-to_le_bytes 4 (length p + 1)) in
      let size_read : from_le_bytes (slice start (start + 4) bytes) ≡ length p + 1 =
        ap (λ n. from_le_bytes (take n (drop start bytes)))
          (let four : start + 4 - start ≡ 4 = omega arith in four)
        ∙ ap from_le_bytes head
        ∙ from_le_bytes-to_le_bytes 4 (length p + 1) (omega arith) in
      let body : drop (start + 4) bytes ≡ p ++ 0 ∷ rest =
        sym (drop-drop 4 start (start + 4) bytes refl)
        ∙ ap (drop 4) seen
        ∙ drop-append 4 size (p ++ 0 ∷ rest) (length-to_le_bytes 4 (length p + 1)) in
      (
        (start + 4, start + 4 + length p),
        ground (arith, prefixed, room, size_read),
        ground (arith, room, body, take-append (length p) p (0 ∷ rest) refl),
      )

encode_prefixed :
    (kind : StringFileKind) (p : List ℕ)
    → is_length_prefixed kind ≡ true
    → length p + 5 < 2 ^ 32
    → encode_payload kind p ≡ to_le_bytes 4 (length p + 1) ++ (p ++ 0 ∷ [])
unfolding encode_payload
encode_prefixed kind p prefixed fits = rw (prefixed, wrap) refl
  where
    wrap : (length p % 2 ^ 32 + 1) % 2 ^ 32 ≡ length p + 1
    wrap = omega arith

fetch_encoded :
    (bytes : List ℕ) (start : ℕ) (kind : StringFileKind) (p rest : List ℕ)
    → is_length_prefixed kind ≡ true
    → length bytes < 2 ^ 63
    → length (encode_payload kind p) < 2 ^ 32
    → drop start bytes ≡ encode_payload kind p ++ rest
    → (r : ℕ × ℕ) × (read_payload bytes start kind ≡ ok r) × (slice r.0 r.1 bytes ≡ p)
unfolding Fetched
fetch_encoded bytes start kind p rest prefixed small fits seen =
    fetch_prefixed bytes start p rest kind prefixed small room (
      seen
      ∙ ap (λ t. t ++ rest) (encode_prefixed kind p prefixed room)
      ∙ append_assoc (to_le_bytes 4 (length p + 1)) (p ++ 0 ∷ []) rest
      ∙ ap (λ t. to_le_bytes 4 (length p + 1) ++ t) (append_assoc p (0 ∷ []) rest))
  where
    room : length p + 5 < 2 ^ 32
    room = ground (arith, prefixed, length-encode_payload kind p)

-- Where the blob holds what `encode_payload` wrote, `read_payload` finds the payload.
pub read_payload-encode_payload :
    (bytes : List ℕ) (start : ℕ) (kind : StringFileKind) (p rest : List ℕ)
    → length bytes < 2 ^ 63
    → length (encode_payload kind p) < 2 ^ 32
    → Storable kind p
    → drop start bytes ≡ encode_payload kind p ++ rest
    → (r : ℕ × ℕ) × (read_payload bytes start kind ≡ ok r) × (slice r.0 r.1 bytes ≡ p)
unfolding encode_payload Fetched
read_payload-encode_payload bytes start StringFileKind.strings p rest small fits clean seen =
    fetch_terminated bytes start p rest small (seen ∙ append_assoc p (0 ∷ []) rest) clean
read_payload-encode_payload bytes start kind p rest small fits clean seen =
    fetch_encoded bytes start kind p rest refl small fits seen
