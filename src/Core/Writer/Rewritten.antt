-- ===== src/Core/Writer/Rewritten.antt =====
-- writer.rs: what `apply_fid_remap_in_record` makes of a record, by its fields and the numbers that
-- stand in its payloads.
use bethkit.Prelude.{ℕ, ◌^◌, ◌<◌, ◌≡◌, refl, ap, ◌∙◌, List, [], ◌∷◌, ◌++◌, Option, none, some}
use bethkit.Prelude.Dict.{Dict, lookup}
use bethkit.Prelude.Keys.{nat_key}
use bethkit.Io.Bytes.{from_le_bytes, to_le_bytes, from_le_bytes-to_le_bytes}
use bethkit.Core.Writer.Data.{WritableSubRecord, WritableRecord}
use bethkit.Core.Writer.Eslify.{
  window, remap_id, remap_form_ids_in_bytes, apply_fid_remap_in_record,
}
use mathlib.Core.List.{map}

-- The numbers of four bytes that a payload consists of, and the bytes behind the last.
unfoldable pub numbers : List ℕ → List ℕ
numbers (a ∷ b ∷ c ∷ d ∷ rest) = from_le_bytes (a ∷ b ∷ c ∷ d ∷ []) ∷ numbers rest
numbers _ = []

unfoldable pub leftover : List ℕ → List ℕ
leftover (a ∷ b ∷ c ∷ d ∷ rest) = leftover rest
leftover bytes = bytes

-- Two lists of one length, related entry by entry.
abbrev pub Pairwise : {A B : Type 0} → (A → B → Type 0) → List A → List B → Type 0
Pairwise R [] [] = Unit {0}
Pairwise R [] (y ∷ ys) = ⊥
Pairwise R (x ∷ xs) [] = ⊥
Pairwise R (x ∷ xs) (y ∷ ys) = R x y × Pairwise R xs ys

Pairwise-map :
    {A B : Type 0} (R : A → B → Type 0) (f : A → B) (xs : List A)
    → ((x : A) → R x (f x))
    → Pairwise R xs (map f xs)
Pairwise-map R f [] each = tt
Pairwise-map R f (x ∷ xs) each = (each x, Pairwise-map R f xs each)

pub record IsRewrittenPayload (table : Dict ℕ ℕ) (old new : WritableSubRecord) : Type 0 where
  pub signature : new.signature ≡ old.signature
  pub renumbered : numbers new.bytes ≡ map (remap_id table) (numbers old.bytes)
  pub kept : leftover new.bytes ≡ leftover old.bytes

pub record IsRewritten (table : Dict ℕ ℕ) (old new : WritableRecord) : Type 0 where
  pub form_id : new.form_id ≡ remap_id table old.form_id
  pub signature : new.signature ≡ old.signature
  pub flags : new.flags ≡ old.flags
  pub form_version : new.form_version ≡ old.form_version
  pub payloads : Pairwise (IsRewrittenPayload table) old.subrecords new.subrecords

module _ (table : Dict ℕ ℕ) (small : (a v : ℕ) → lookup a table ≡ some v → v < 2 ^ 32) where
  numbers-window :
      (o : Option ℕ) (a b c d : ℕ) (later : List ℕ)
      → lookup (from_le_bytes (a ∷ b ∷ c ∷ d ∷ [])) table ≡ o
      → numbers (window o (a ∷ b ∷ c ∷ d ∷ []) ++ later)
        ≡ remap_id table (from_le_bytes (a ∷ b ∷ c ∷ d ∷ [])) ∷ numbers later
  unfolding numbers to_le_bytes
  numbers-window none a b c d later found = rw (found, remap_id) refl
  numbers-window (some v) a b c d later found =
      ap (λ n. n ∷ numbers later)
        (from_le_bytes-to_le_bytes 4 v (small _ v found) ∙ rw (found, remap_id) refl)

  leftover-window :
      (o : Option ℕ) (a b c d : ℕ) (later : List ℕ)
      → leftover (window o (a ∷ b ∷ c ∷ d ∷ []) ++ later) ≡ leftover later
  unfolding leftover to_le_bytes
  leftover-window none a b c d later = refl
  leftover-window (some v) a b c d later = refl

  numbers-remap :
      (bytes : List ℕ)
      → numbers (remap_form_ids_in_bytes table bytes) ≡ map (remap_id table) (numbers bytes)
  unfolding numbers remap_form_ids_in_bytes
  numbers-remap [] = refl
  numbers-remap (a ∷ []) = refl
  numbers-remap (a ∷ b ∷ []) = refl
  numbers-remap (a ∷ b ∷ c ∷ []) = refl
  numbers-remap (a ∷ b ∷ c ∷ d ∷ rest) =
      numbers-window (lookup (from_le_bytes (a ∷ b ∷ c ∷ d ∷ [])) table) a b c d
        (remap_form_ids_in_bytes table rest) refl
      ∙ ap (λ ns. remap_id table (from_le_bytes (a ∷ b ∷ c ∷ d ∷ [])) ∷ ns) (numbers-remap rest)

  leftover-remap :
      (bytes : List ℕ) → leftover (remap_form_ids_in_bytes table bytes) ≡ leftover bytes
  unfolding leftover remap_form_ids_in_bytes
  leftover-remap [] = refl
  leftover-remap (a ∷ []) = refl
  leftover-remap (a ∷ b ∷ []) = refl
  leftover-remap (a ∷ b ∷ c ∷ []) = refl
  leftover-remap (a ∷ b ∷ c ∷ d ∷ rest) =
      leftover-window (lookup (from_le_bytes (a ∷ b ∷ c ∷ d ∷ [])) table) a b c d
        (remap_form_ids_in_bytes table rest)
      ∙ leftover-remap rest

  apply-IsRewritten : (r : WritableRecord) → IsRewritten table r (apply_fid_remap_in_record table r)
  unfolding apply_fid_remap_in_record
  apply-IsRewritten r = record {
    form_id = refl;
    signature = refl;
    flags = refl;
    form_version = refl;
    payloads =
        Pairwise-map (IsRewrittenPayload table)
          (λ sr. record sr { bytes = remap_form_ids_in_bytes table sr.bytes }) r.subrecords
          (λ sr. record {
            signature = refl;
            renumbered = numbers-remap sr.bytes;
            kept = leftover-remap sr.bytes;
          });
  }

  pub map_apply-IsRewritten :
      (rs : List WritableRecord)
      → Pairwise (IsRewritten table) rs (map (apply_fid_remap_in_record table) rs)
  map_apply-IsRewritten rs =
      Pairwise-map (IsRewritten table) (apply_fid_remap_in_record table) rs apply-IsRewritten
