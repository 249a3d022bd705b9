-- ===== src/Core/Writer/Slots.antt =====
-- writer.rs: the table of `eslify` sends no two FormIDs to one slot, and only to 32-bit FormIDs.
use bethkit.Prelude.{
  ℕ, ◌+◌, ◌*◌, ◌^◌, ◌<◌, ◌≡◌, ◌≢◌, ◌⊎◌, subst, if◌then◌else◌, inl, inr, refl, sym, ap, ◌∙◌, arith,
  List, [], ◌∷◌, length, All, some, Bool-cases,
}
use mathlib.Core.Bool.{false≢true}
use bethkit.Prelude.Dict.{Dict, lookup, insert, lookup-insert}
use bethkit.Prelude.Keys.{nat_key}
use bethkit.Core.Writer.Data.{WritableRecord}
use bethkit.Core.Writer.Eslify.{remap_id, remap_loop}
use bethkit.Core.Writer.Renumber.{Slotted}

pub All-imply :
    {A : Type 0} (P Q : A → Type 0) (xs : List A) → ((x : A) → P x → Q x) → All P xs → All Q xs
All-imply P Q [] implies holds = tt
All-imply P Q (x ∷ xs) implies holds = (implies x holds.0, All-imply P Q xs implies holds.1)

-- A table whose values are below that of the `i`-th slot, and differ for different keys.
pub record IsOneToOne (esl_min i : ℕ) (remap : Dict ℕ ℕ) : Type 0 where
  pub below : (a v : ℕ) → lookup a remap ≡ some v → v < 0xFE * 2 ^ 24 + (esl_min + i)
  pub apart : (a b v : ℕ) → lookup a remap ≡ some v → lookup b remap ≡ some v → a ≡ b

pub nil-IsOneToOne : (esl_min : ℕ) → IsOneToOne esl_min 0 []
unfolding lookup
nil-IsOneToOne esl_min = record { below = λ a v h. cc; apart = λ a b v h k. cc }

insert-IsOneToOne :
    (esl_min i key : ℕ) (remap : Dict ℕ ℕ)
    → IsOneToOne esl_min i remap
    → IsOneToOne esl_min (i + 1) (insert key (0xFE * 2 ^ 24 + (esl_min + i)) remap)
insert-IsOneToOne esl_min i key remap one = record {
  below = λ a v h. ground (arith, h, found a, one.below a v);
  apart = λ a b v h k. ground (
    arith,
    h,
    k,
    found a,
    found b,
    (nat_key.same_iff a key).0,
    (nat_key.same_iff b key).0,
    one.below a v,
    one.below b v,
    one.apart a b v,
  );
}
  where
    found :
        (a : ℕ)
        → lookup a (insert key (0xFE * 2 ^ 24 + (esl_min + i)) remap)
          ≡ (if nat_key.same a key then some (0xFE * 2 ^ 24 + (esl_min + i)) else lookup a remap)
    found a = lookup-insert key a (0xFE * 2 ^ 24 + (esl_min + i)) remap

pub loop-IsOneToOne :
    (esl_min : ℕ) (rs : List WritableRecord) (i : ℕ) (remap : Dict ℕ ℕ)
    → IsOneToOne esl_min i remap
    → IsOneToOne esl_min (i + length rs) (remap_loop esl_min rs i remap)
unfolding remap_loop
loop-IsOneToOne esl_min [] i remap one = subst (λ n. IsOneToOne esl_min n remap) (omega arith) one
loop-IsOneToOne esl_min (r ∷ rs) i remap one =
    subst (λ n. IsOneToOne esl_min n (remap_loop esl_min (r ∷ rs) i remap)) (omega arith)
      (loop-IsOneToOne esl_min rs (i + 1) (insert r.form_id (0xFE * 2 ^ 24 + (esl_min + i)) remap)
        (insert-IsOneToOne esl_min i r.form_id remap one))

-- Two different FormIDs with slots have different ones.
abbrev pub AreApart : Dict ℕ ℕ → List WritableRecord → Type 0
AreApart table rs =
    All
      (λ r.
        All (λ s. (r.form_id ≡ s.form_id) ⊎ (remap_id table r.form_id ≢ remap_id table s.form_id))
          rs)
      rs

Slotted-apart :
    (esl_min n i a b : ℕ) (table : Dict ℕ ℕ)
    → IsOneToOne esl_min i table
    → Slotted esl_min n table a
    → Slotted esl_min n table b
    → (a ≡ b) ⊎ (remap_id table a ≢ remap_id table b)
Slotted-apart esl_min n i a b table one (v, at_a, _, _) (u, at_b, _, _) =
    elim (Bool-cases (nat_key.same a b)) [
      | inl same ↦ inl ((nat_key.same_iff a b).0 same)
      | inr other ↦ inr (λ e. false≢true (
          sym other
          ∙ (nat_key.same_iff a b).1 (
              one.apart a b v at_a
                (at_b ∙ ap some (sym (sent_to b u at_b) ∙ sym e ∙ sent_to a v at_a)))))
    ]
  where
    sent_to : (k w : ℕ) → lookup k table ≡ some w → remap_id table k ≡ w
    sent_to k w found = rw (found, remap_id) refl

pub Slotted-AreApart :
    (esl_min n i : ℕ) (table : Dict ℕ ℕ) (rs : List WritableRecord)
    → IsOneToOne esl_min i table
    → All (λ r. Slotted esl_min n table r.form_id) rs
    → AreApart table rs
Slotted-AreApart esl_min n i table rs one slotted =
    All-imply _ _ rs
      (λ r at_r.
        All-imply _ _ rs
          (λ s at_s. Slotted-apart esl_min n i r.form_id s.form_id table one at_r at_s) slotted)
      slotted
