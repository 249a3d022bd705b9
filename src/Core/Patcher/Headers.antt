-- ===== src/Core/Patcher/Headers.antt =====
-- patcher.rs: `write_group_header` gives back the 24 bytes that a header was parsed from.
use bethkit.Prelude.{ℕ, ◌+◌, ◌≤◌, ◌^◌, ◌≡◌, refl, sym, ap, ap₂, ◌∙◌, inl, inr, arith}
use bethkit.Prelude.{
  List, ◌++◌, append_assoc, length, All, take, drop, take-append-drop, All-take, All-drop,
  length-take, length-drop,
}
use bethkit.Prelude.Int.{ℤ, signed, pattern_of, pattern_of-signed}
use bethkit.Prelude.Action.{done}
use bethkit.Prelude.Result.{ok}
use bethkit.Io.Bytes.{
  IsByte, from_le_bytes, to_le_bytes, from_le_bytes-lt, to_le_bytes-from_le_bytes,
}
use bethkit.Io.Cursor.{slice}
use bethkit.Io.Cursor.Slices.{length-slice, slice_join, slice-IsByte}
use bethkit.Core.Signature
use bethkit.Core.Group.Data.{GroupType, GroupHeader, to_raw, from_raw, label_from_raw}
use bethkit.Core.Group.Types.{from_raw_cases}
use bethkit.Core.Group.Headers.{HeaderAt}
use bethkit.Core.Patcher.Write.{label_bytes, write_group_header}

-- The bytes of a header whose size is given.
abbrev pub header_bytes : GroupHeader → ℕ → List ℕ
header_bytes header size =
    Signature.grup
    ++ (to_le_bytes 4 size
        ++ (label_bytes header.label
            ++ (to_le_bytes 4 (pattern_of 31 (to_raw header.group_type))
                ++ (to_le_bytes 4 header.version_control ++ to_le_bytes 4 header.unknown))))

pub write_group_header-header_bytes :
    (header : GroupHeader) (size : ℕ) (out : List ℕ)
    → write_group_header header size out ≡ done tt (out ++ header_bytes header size)
unfolding write_group_header
write_group_header-header_bytes header size out = ap (done tt) (simp append_assoc)

-- Four bytes, as a number and back.
le_bytes_back :
    (bs : List ℕ) → length bs ≡ 4 → All IsByte bs → to_le_bytes 4 (from_le_bytes bs) ≡ bs
le_bytes_back bs = to_le_bytes-from_le_bytes 4 bs

signed_bytes_back :
    (w n : ℕ) (bs : List ℕ)
    → length bs ≡ n
    → 256 ^ n ≡ 2 ^ w + 2 ^ w
    → All IsByte bs
    → to_le_bytes n (pattern_of w (signed w (from_le_bytes bs))) ≡ bs
signed_bytes_back w n bs e size h =
    ap (to_le_bytes n)
      (pattern_of-signed w (from_le_bytes bs) (omega (arith, size, from_le_bytes-lt n bs e h)))
    ∙ to_le_bytes-from_le_bytes n bs e h

grid_back :
    (bs : List ℕ)
    → length bs ≡ 4
    → All IsByte bs
    → to_le_bytes 2 (pattern_of 15 (signed 15 (from_le_bytes (take 2 bs))))
        ++ to_le_bytes 2 (pattern_of 15 (signed 15 (from_le_bytes (drop 2 bs))))
      ≡ bs
grid_back bs e h =
    ap₂ (λ xs ys. xs ++ ys)
      (signed_bytes_back 15 2 (take 2 bs) (omega (arith, length-take 2 bs)) refl
        (All-take IsByte 2 bs h))
      (signed_bytes_back 15 2 (drop 2 bs) (omega (arith, length-drop 2 bs)) refl
        (All-drop IsByte 2 bs h))
    ∙ take-append-drop 2 bs

label_back :
    (bs : List ℕ) (t : GroupType)
    → length bs ≡ 4
    → All IsByte bs
    → label_bytes (label_from_raw bs t) ≡ bs
unfolding label_bytes label_from_raw
label_back bs t e h = elim t as (λ t. label_bytes (label_from_raw bs t) ≡ bs) [
  | GroupType.normal ↦ refl
  | GroupType.exterior_cell_block ↦ grid_back bs e h
  | GroupType.exterior_cell_sub_block ↦ grid_back bs e h
  | GroupType.interior_cell_block ↦ signed_bytes_back 31 4 bs e refl h
  | GroupType.interior_cell_sub_block ↦ signed_bytes_back 31 4 bs e refl h
  | _ ↦ le_bytes_back bs e h
]

type_back : (z : ℤ) (t : GroupType) → from_raw z ≡ ok t → to_raw t ≡ z
type_back z t e = elim (from_raw_cases z) [
  | inl (t', found, back) ↦ cc (e, found, back)
  | inr (refused, _) ↦ cc (e, refused)
]

-- Two texts that are slices, the second where the first ends.
meets :
    (source xs ys : List ℕ) (a b c : ℕ)
    → a ≤ b
    → b ≤ c
    → xs ≡ slice a b source
    → ys ≡ slice b c source
    → xs ++ ys ≡ slice a c source
meets source xs ys a b c h k e f = ap₂ (λ x y. x ++ y) e f ∙ slice_join a b c source h k

pub header_bytes-HeaderAt :
    (source : List ℕ) (start : ℕ) (header : GroupHeader)
    → All IsByte source
    → start + 24 ≤ length source
    → HeaderAt source start header
    → header_bytes header header.group_size ≡ slice start (start + 24) source
header_bytes-HeaderAt source start header bytes room (sig, size, label, type, version, unknown) =
    meets source _ _ start (start + 4) (start + 24) (omega arith) (omega arith) (sym sig) (
      meets source _ _ (start + 4) (start + 8) (start + 24) (omega arith) (omega arith)
        (ap (to_le_bytes 4) size ∙ back 4 8 (omega arith))
        (meets source _ _ (start + 8) (start + 12) (start + 24) (omega arith) (omega arith)
          (ap label_bytes label
            ∙ label_back _ header.group_type (long 8 12 (omega arith)) (small 8 12))
          (meets source _ _ (start + 12) (start + 16) (start + 24) (omega arith) (omega arith)
            (ap (λ z. to_le_bytes 4 (pattern_of 31 z)) (type_back _ header.group_type type)
              ∙ signed_bytes_back 31 4 _ (long 12 16 (omega arith)) refl (small 12 16))
            (meets source _ _ (start + 16) (start + 20) (start + 24) (omega arith) (omega arith)
              (ap (to_le_bytes 4) version ∙ back 16 20 (omega arith))
              (ap (to_le_bytes 4) unknown ∙ back 20 24 (omega arith))))))
  where
    long : (a b : ℕ) → (a + 4 ≡ b) × (b ≤ 24) → length (slice (start + a) (start + b) source) ≡ 4
    long a b h = length-slice (start + a) (start + b) source (omega arith) ∙ omega (arith, h)

    small : (a b : ℕ) → All IsByte (slice (start + a) (start + b) source)
    small a b = slice-IsByte (start + a) (start + b) source bytes

    back :
        (a b : ℕ)
        → (a + 4 ≡ b) × (b ≤ 24)
        → to_le_bytes 4 (from_le_bytes (slice (start + a) (start + b) source))
          ≡ slice (start + a) (start + b) source
    back a b h = le_bytes_back _ (long a b h) (small a b)
