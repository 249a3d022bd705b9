-- ===== src/Schema/Expression/Budget.antt =====
-- expression.rs: an evaluation takes one number of operations, whatever its budget.
use bethkit.Prelude.{
  ℕ, suc, ◌+◌, ◌≤◌, zero, ◌-◌, ◌≡◌, refl, inl, inr, Bool-cases, arith, Bool, true, false, not, leb,
  if◌then◌else◌,
}
use bethkit.Prelude.{List, [], ◌∷◌, Option, none, some, length}
use bethkit.Prelude.Int.{ℤ, int_eq}
use bethkit.Prelude.Action.{Outcome, done, fail, pure, throw, ◌>>=◌}
use bethkit.Prelude.Result.{Result, ok, err}
use bethkit.Prelude.{ltb, ◌^◌}
use bethkit.Prelude.Dict.{lookup}
use bethkit.Prelude.Keys.{bytes_key}
use bethkit.Io.Cursor.{checked_add}
use bethkit.Core.Record.Text.{get_range}
use bethkit.Schema.Error.{
  Fault, SchemaError, expression, budget_exhausted, field_unavailable, read_range_overflowed,
  read_range_exceeds,
}
use bethkit.Schema.Expression.Data.{
  EvalValue, bool, int, as_bool, as_int, EvalContext, IntegerLookupCase, Expression, Expressions,
  bool_literal, int_literal, payload_length, form_version, read_unsigned, read_field_path,
  record_signature, equal, not_equal, less_than, bit_set, and, or, negate, add, subtract, multiply,
  divide, bit_count, integer_lookup, select, nil, cons,
}
use bethkit.Schema.Expression.Evaluate
use bethkit.Schema.Expression.Evaluate.{
  Eval, known, some_or, spend, value_of, read_bytes, find_case, truth, integer, arithmetic,
  compare_values, costed, evaluate_body, evaluate,
}

-- An operation for each node and for each case of a lookup.
unfoldable mutual
  pub size : Expression → ℕ
  size (bool_literal value) = 1
  size (int_literal value) = 1
  size payload_length = 1
  size form_version = 1
  size (read_unsigned offset width) = 1
  size (read_field_path path) = 1
  size (record_signature signature) = 1
  size (equal left right) = 1 + (size left + size right)
  size (not_equal left right) = 1 + (size left + size right)
  size (less_than left right) = 1 + (size left + size right)
  size (bit_set value bit) = 1 + size value
  size (and values) = 1 + sizes values
  size (or values) = 1 + sizes values
  size (negate value) = 1 + size value
  size (add left right) = 1 + (size left + size right)
  size (subtract left right) = 1 + (size left + size right)
  size (multiply left right) = 1 + (size left + size right)
  size (divide left right) = 1 + (size left + size right)
  size (bit_count value) = 1 + size value
  size (integer_lookup value cases default) = 1 + (size value + length cases)
  size (select condition if_true if_false) = 1 + (size condition + (size if_true + size if_false))

  pub sizes : Expressions → ℕ
  sizes nil = 0
  sizes (cons value values) = size value + sizes values

abbrev pub is_exhausted : SchemaError → Bool
is_exhausted (expression budget_exhausted) = true
is_exhausted _ = false

-- The answer or the error that is left with a budget.
abbrev pub settled : {A : Type 0} → Result SchemaError A → ℕ → Outcome SchemaError ℕ A
settled (ok a) left = done a left
settled (err e) left = fail e left

-- From a budget of `n`: exhausted below `k`, and else the outcome, with what `k` operations leave.
abbrev pub charged : {A : Type 0} → ℕ → Result SchemaError A → ℕ → Outcome SchemaError ℕ A
charged k r n = if ltb n k then fail (expression budget_exhausted) 0 else settled r (n - k)

-- An outcome other than that the budget is exhausted.
abbrev pub IsGenuine : {A : Type 0} → Result SchemaError A → Type 0
IsGenuine (ok a) = Unit {0}
IsGenuine (err e) = is_exhausted e ≡ false

-- An action that takes one number of operations, `t` at most, and has one outcome, whatever the
-- budget.
abbrev pub Within : {A : Type 0} → ℕ → Eval A → Type 0
Within {A} t m =
    (k : ℕ) × (r : Result SchemaError A) × (k ≤ t) × IsGenuine r × ((n : ℕ) → m n ≡ charged k r n)

charged-after :
    {A B : Type 0} (k j : ℕ) (a : A) (r : Result SchemaError B) (m : Eval A) (f : A → Eval B)
    (n : ℕ)
    → m n ≡ charged k (ok a) n
    → f a (n - k) ≡ charged j r (n - k)
    → (m >>= f) n ≡ charged (k + j) r n
charged-after k j a r m f n first next = elim (Bool-cases (ltb n k)) [
  | inl few ↦ rw (◌>>=◌, first, few, below few) refl
  | inr enough ↦ rw (◌>>=◌, first, enough, next, level enough, left) refl
]
  where
    below : ltb n k ≡ true → ltb n (k + j) ≡ true
    below few = ground (arith, few)

    level : ltb n k ≡ false → ltb (n - k) j ≡ ltb n (k + j)
    level enough = ground (arith, enough)

    left : n - k - j ≡ n - (k + j)
    left = omega arith

charged-stopped :
    {A B : Type 0} (k : ℕ) (e : SchemaError) (m : Eval A) (f : A → Eval B) (n : ℕ)
    → m n ≡ charged k (err e) n
    → (m >>= f) n ≡ charged k (err e) n
charged-stopped k e m f n first = elim (Bool-cases (ltb n k)) [
  | inl few ↦ rw (◌>>=◌, first, few) refl
  | inr enough ↦ rw (◌>>=◌, first, enough) refl
]

Within-bind :
    {A B : Type 0} (k j t : ℕ) (m : Eval A) (f : A → Eval B)
    → k + j ≤ t
    → Within k m
    → ((a : A) → Within j (f a))
    → Within t (m >>= f)
Within-bind k j t m f sum (taken, err e, small, genuine, same) next =
    (taken, err e, omega (arith, sum, small), genuine, λ n. charged-stopped taken e m f n (same n))
Within-bind k j t m f sum (taken, ok a, small, genuine, same) next =
    let (more, r, less, genuine', same') = next a in
    (
      taken + more,
      r,
      omega (arith, sum, small, less),
      genuine',
      λ n. charged-after taken more a r m f n (same n) (same' (n - taken)),
    )

pub Within-pure : {A : Type 0} (k : ℕ) (a : A) → Within k (pure a)
Within-pure k a = (0, ok a, omega arith, tt, λ n. ground arith)

pub Within-throw :
    (A : Type 0) (k : ℕ) (e : SchemaError) → is_exhausted e ≡ false → Within {A = A} k (throw e)
Within-throw A k e other = (0, err e, omega arith, other, λ n. ground arith)

Within-spend : Within 1 spend
unfolding spend
Within-spend = (1, ok tt, omega arith, tt, λ n. ground arith)

pub Within-known_bool : (k : ℕ) (v : EvalValue) → Within k (known (as_bool v))
unfolding as_bool
Within-known_bool k (bool b) = Within-pure k b
Within-known_bool k (int z) = Within-throw _ k _ refl

pub Within-known_int : (k : ℕ) (v : EvalValue) → Within k (known (as_int v))
unfolding as_int
Within-known_int k (int z) = Within-pure k z
Within-known_int k (bool b) = Within-throw _ k _ refl

pub Within-some_or :
    {A : Type 0} (k : ℕ) (fault : Fault) (o : Option A)
    → is_exhausted (expression fault) ≡ false
    → Within k (some_or fault o)
Within-some_or k fault none other = Within-throw _ k _ other
Within-some_or k fault (some a) other = Within-pure k a

pub Within-choice :
    {A : Type 0} (k : ℕ) (b : Bool) (m m' : Eval A)
    → Within k m
    → Within k m'
    → Within k (if b then m else m')
Within-choice k true m m' first second = first
Within-choice k false m m' first second = second

Within-more : {A : Type 0} (k j : ℕ) (m : Eval A) → k ≤ j → Within k m → Within j m
Within-more k j m less (taken, r, small, genuine, same) =
    (taken, r, omega (arith, less, small), genuine, same)

Within-truth : (k : ℕ) (m : Eval EvalValue) → Within k m → Within k (truth m)
Within-truth k m within = Within-bind k 0 k m _ (omega arith) within (λ v. Within-known_bool 0 v)

Within-integer : (k : ℕ) (m : Eval EvalValue) → Within k m → Within k (integer m)
Within-integer k m within = Within-bind k 0 k m _ (omega arith) within (λ v. Within-known_int 0 v)

Within-costed : (k : ℕ) (m : Eval EvalValue) → Within k m → Within (1 + k) (costed m)
Within-costed k m within = Within-bind 1 k (1 + k) spend _ (omega arith) Within-spend (λ u. within)

Within-known :
    {A : Type 0} (r : Result SchemaError A)
    → ((e : SchemaError) → r ≡ err e → is_exhausted e ≡ false)
    → Within 0 (known r)
Within-known (ok a) other = Within-pure 0 a
Within-known (err e) other = Within-throw _ 0 e (other e refl)

value_of_other :
    (width : ℕ) (bytes : List ℕ) (e : SchemaError)
    → value_of width bytes ≡ err e
    → is_exhausted e ≡ false
unfolding value_of
value_of_other width bytes e failed = ground (arith, failed)

Within-read_bytes :
    (payload : List ℕ) (offset width : ℕ) → Within 0 (read_bytes payload offset width)
unfolding read_bytes
Within-read_bytes payload offset width =
    Within-bind 0 0 0 (some_or read_range_overflowed (checked_add offset width)) _ (omega arith)
      (Within-some_or 0 read_range_overflowed (checked_add offset width) refl)
      (λ end.
        Within-bind 0 0 0 (some_or _ (get_range payload offset end)) _ (omega arith)
          (Within-some_or 0 (read_range_exceeds offset end (length payload))
            (get_range payload offset end) refl)
          (λ bytes. Within-known (value_of width bytes) (value_of_other width bytes)))

pub Within-find_case :
    (key default : ℤ) (cases : List IntegerLookupCase)
    → Within (length cases) (find_case key cases default)
unfolding find_case
Within-find_case key default [] = Within-pure 0 (int default)
Within-find_case key default (case ∷ cases) =
    Within-bind 1 (length cases) (suc (length cases)) spend _ (omega arith) Within-spend (λ u.
      Within-choice (length cases) (int_eq case.input key) _ _
        (Within-pure (length cases) (int case.output)) (Within-find_case key default cases))

Within-arithmetic :
    (k j : ℕ) (left right : Eval EvalValue) (op : ℤ → ℤ → Option ℤ) (fault : Fault)
    → is_exhausted (expression fault) ≡ false
    → Within k left
    → Within j right
    → Within (k + j) (arithmetic left right op fault)
Within-arithmetic k j left right op fault other first second =
    Within-bind k j (k + j) (integer left) _ (omega arith) (Within-integer k left first) (λ a.
      Within-bind j 0 j (integer right) _ (omega arith) (Within-integer j right second) (λ b.
        Within-bind 0 0 0 (some_or fault (op a b)) _ (omega arith)
          (Within-some_or 0 fault (op a b) other) (λ c. Within-pure 0 (int c))))

Within-compare :
    (k j : ℕ) (left right : Eval EvalValue) (answer : Bool → Bool)
    → Within k left
    → Within j right
    → Within (k + j) (compare_values left right answer)
Within-compare k j left right answer first second =
    Within-bind k j (k + j) left _ (omega arith) first
      (λ a. Within-bind j 0 j right _ (omega arith) second (λ b. Within-pure 0 _))

-- What a first operation makes of no budget.
pub costed_none : (m : Eval EvalValue) → costed m 0 ≡ fail (expression budget_exhausted) 0
unfolding spend
costed_none m = refl

pub positive :
    (k : ℕ) (r : Result SchemaError EvalValue)
    → IsGenuine r
    → fail (expression budget_exhausted) 0 ≡ charged k r 0
    → 1 ≤ k
positive (suc k) r genuine same = omega arith
positive zero (ok a) genuine same = ground (arith, same)
positive zero (err e) genuine same = ground (arith, same, genuine)

module _ (context : EvalContext) where
  mutual
    unfolding evaluate_body size

    pub costs : (e : Expression) → Within (size e) (costed (evaluate_body context e))
    costs (bool_literal value) = Within-costed 0 _ (Within-pure 0 (bool value))
    costs (int_literal value) = Within-costed 0 _ (Within-pure 0 (int value))
    costs payload_length = Within-costed 0 _ (
        Within-choice 0 (ltb (length context.payload) (2 ^ 63)) _ _ (Within-pure 0 _)
          (Within-throw _ 0 _ refl))
    costs form_version = Within-costed 0 _ (Within-pure 0 _)
    costs (read_unsigned offset width) = Within-costed 0 _ (
        Within-bind 0 0 0 (read_bytes context.payload offset width) _ (omega arith)
          (Within-read_bytes context.payload offset width) (λ z. Within-pure 0 (int z)))
    costs (read_field_path path) = Within-costed 0 _ (
        Within-bind 0 0 0 (some_or (field_unavailable path) (lookup path context.field_values)) _
          (omega arith)
          (Within-some_or 0 (field_unavailable path) (lookup path context.field_values) refl)
          (λ z. Within-pure 0 (int z)))
    costs (record_signature signature) = Within-costed 0 _ (Within-pure 0 _)
    costs (equal left right) =
        Within-costed (size left + size right) _
          (Within-compare (size left) (size right) _ _ (λ same. same) (costs left) (costs right))
    costs (not_equal left right) =
        Within-costed (size left + size right) _
          (Within-compare (size left) (size right) _ _ not (costs left) (costs right))
    costs (less_than left right) = Within-costed (size left + size right) _ (
        Within-bind (size left) (size right) (size left + size right)
          (integer (costed (evaluate_body context left))) _ (omega arith)
          (Within-integer (size left) _ (costs left))
          (λ a.
            Within-bind (size right) 0 (size right) (integer (costed (evaluate_body context right)))
              _ (omega arith) (Within-integer (size right) _ (costs right)) (λ b. Within-pure 0 _)))
    costs (bit_set value bit) = Within-costed (size value) _ (
        Within-choice (size value) (leb 64 bit) _ _ (Within-throw _ (size value) _ refl) (
          Within-bind (size value) 0 (size value) (integer (costed (evaluate_body context value))) _
            (omega arith) (Within-integer (size value) _ (costs value)) (λ raw. Within-pure 0 _)))
    costs (and values) = Within-costed (sizes values) _ (costs_all values)
    costs (or values) = Within-costed (sizes values) _ (costs_any values)
    costs (negate value) = Within-costed (size value) _ (
        Within-bind (size value) 0 (size value) (truth (costed (evaluate_body context value))) _
          (omega arith) (Within-truth (size value) _ (costs value)) (λ b. Within-pure 0 _))
    costs (add left right) =
        Within-costed (size left + size right) _
          (Within-arithmetic (size left) (size right) _ _ _ _ refl (costs left) (costs right))
    costs (subtract left right) =
        Within-costed (size left + size right) _
          (Within-arithmetic (size left) (size right) _ _ _ _ refl (costs left) (costs right))
    costs (multiply left right) =
        Within-costed (size left + size right) _
          (Within-arithmetic (size left) (size right) _ _ _ _ refl (costs left) (costs right))
    costs (divide left right) =
        Within-costed (size left + size right) _
          (Within-arithmetic (size left) (size right) _ _ _ _ refl (costs left) (costs right))
    costs (bit_count value) = Within-costed (size value) _ (
        Within-bind (size value) 0 (size value) (integer (costed (evaluate_body context value))) _
          (omega arith) (Within-integer (size value) _ (costs value)) (λ raw. Within-pure 0 _))
    costs (integer_lookup value cases default) = Within-costed (size value + length cases) _ (
        Within-bind (size value) (length cases) (size value + length cases)
          (integer (costed (evaluate_body context value))) _ (omega arith)
          (Within-integer (size value) _ (costs value)) (λ key. Within-find_case key default cases))
    costs (select condition if_true if_false) =
        Within-costed (size condition + (size if_true + size if_false)) _ (
          Within-bind (size condition) (size if_true + size if_false)
            (size condition + (size if_true + size if_false))
            (truth (costed (evaluate_body context condition))) _ (omega arith)
            (Within-truth (size condition) _ (costs condition))
            (λ chosen.
              Within-choice (size if_true + size if_false) chosen _ _
                (Within-more (size if_true) (size if_true + size if_false) _ (omega arith)
                  (costs if_true))
                (Within-more (size if_false) (size if_true + size if_false) _ (omega arith)
                  (costs if_false))))

    pub costs_all : (es : Expressions) → Within (sizes es) (Evaluate.evaluate_all context es)
    costs_all nil = Within-pure 0 (bool true)
    costs_all (cons value values) =
        Within-bind (size value) (sizes values) (size value + sizes values)
          (truth (costed (evaluate_body context value))) _ (omega arith)
          (Within-truth (size value) _ (costs value))
          (λ holds.
            Within-choice (sizes values) (not holds) _ _ (Within-pure (sizes values) (bool false))
              (costs_all values))

    pub costs_any : (es : Expressions) → Within (sizes es) (Evaluate.evaluate_any context es)
    costs_any nil = Within-pure 0 (bool false)
    costs_any (cons value values) =
        Within-bind (size value) (sizes values) (size value + sizes values)
          (truth (costed (evaluate_body context value))) _ (omega arith)
          (Within-truth (size value) _ (costs value))
          (λ holds.
            Within-choice (sizes values) holds _ _ (Within-pure (sizes values) (bool true))
              (costs_any values))
