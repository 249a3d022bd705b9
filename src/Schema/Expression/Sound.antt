-- ===== src/Schema/Expression/Sound.antt =====
-- expression.rs, package.rs: what validation promises of an evaluation.
use bethkit.Prelude.{
  ℕ, ◌+◌, ◌-◌, ◌^◌, ◌<◌, ◌≡◌, refl, sym, subst, arith, Bool, true, false, not, ltb, leb,
  if◌then◌else◌,
}
use bethkit.Prelude.{List, [], ◌∷◌, All, Option, none, some, length, Bool-cases, inl, inr}
use mathlib.Core.Option.{some_inj}
use bethkit.Prelude.Int.{ℤ, pos, ◌+ℤ◌, ◌-ℤ◌, ◌*ℤ◌, int_eq, int_ltb}
use bethkit.Prelude.Action.{Outcome, done, fail, pure, throw, ◌>>=◌}
use bethkit.Prelude.Result.{Result, ok, err, ◌>>◌ as ◌>>?◌}
use bethkit.Prelude.Holds.{Holds, Holds-bind}
use bethkit.Prelude.Dict.{lookup}
use bethkit.Prelude.Keys.{bytes_key}
use bethkit.Io.Bytes.{IsByte}
use bethkit.Io.Cursor.{checked_add}
use bethkit.Core.Record.Text.{get_range}
use bethkit.Schema.Error.{
  Fault, SchemaError, expression, field_unavailable, read_range_overflowed, read_range_exceeds,
}
use bethkit.Schema.Expression.Data.{
  EvalValue, bool, int, as_bool, as_int, EvalContext, IntegerLookupCase, Expression, Expressions,
  bool_literal, int_literal, payload_length, form_version, read_unsigned, read_field_path,
  record_signature, equal, not_equal, less_than, bit_set, and, or, negate, add, subtract, multiply,
  divide, bit_count, integer_lookup, select, nil, cons,
}
use bethkit.Schema.Expression.Evaluate
use bethkit.Schema.Expression.Evaluate.{
  Eval, known, some_or, spend, checked, checked_div, count_ones, value_of, read_bytes, find_case,
  truth, integer, arithmetic, compare_values, costed, evaluate_body, evaluate,
}
use bethkit.Schema.Expression.Validate
use bethkit.Schema.Expression.Validate.{
  Verdict, contains_path, validate_string, validate_expression_fields,
}
use bethkit.Schema.Expression.Range.{
  IsWord, InRange, checked-IsWord, checked_div-IsWord, count_ones-IsWord, value_of-IsWord,
  get_range-IsByte,
}

abbrev pub is_unavailable : SchemaError → Bool
is_unavailable (expression (field_unavailable path)) = true
is_unavailable _ = false

-- From any budget: a value of which `P` holds, or an error other than that of a missing field.
abbrev pub Good : {A : Type 0} → (A → Type 0) → Eval A → Type 0
Good P m = (n : ℕ) → Holds (λ a s. P a) (λ e s. is_unavailable e ≡ false) (m n)

-- The literals of an expression are `i64`.
unfoldable mutual
  pub Literals : Expression → Type 0
  Literals (bool_literal value) = Unit
  Literals (int_literal value) = IsWord value
  Literals payload_length = Unit
  Literals form_version = Unit
  Literals (read_unsigned offset width) = Unit
  Literals (read_field_path path) = Unit
  Literals (record_signature signature) = Unit
  Literals (equal left right) = Literals left × Literals right
  Literals (not_equal left right) = Literals left × Literals right
  Literals (less_than left right) = Literals left × Literals right
  Literals (bit_set value bit) = Literals value
  Literals (and values) = AllLiterals values
  Literals (or values) = AllLiterals values
  Literals (negate value) = Literals value
  Literals (add left right) = Literals left × Literals right
  Literals (subtract left right) = Literals left × Literals right
  Literals (multiply left right) = Literals left × Literals right
  Literals (divide left right) = Literals left × Literals right
  Literals (bit_count value) = Literals value
  Literals (integer_lookup value cases default) =
      Literals value × All (λ case. IsWord case.output) cases × IsWord default
  Literals (select condition if_true if_false) =
      Literals condition × Literals if_true × Literals if_false

  pub AllLiterals : Expressions → Type 0
  AllLiterals nil = Unit
  AllLiterals (cons value values) = Literals value × AllLiterals values

-- The payload holds bytes, the version is a `u16`, and each visible field has an `i64`.
abbrev pub Supplies : EvalContext → List (List ℕ) → Type 0
Supplies context visible_fields =
    All IsByte context.payload
    × (context.form_version < 2 ^ 16)
    × ((path : List ℕ)
        → contains_path path visible_fields ≡ true
        → (z : ℤ) × (lookup path context.field_values ≡ some z))
    × ((path : List ℕ) (z : ℤ) → lookup path context.field_values ≡ some z → IsWord z)

Good-bind :
    {A B : Type 0} (P : A → Type 0) (Q : B → Type 0) (m : Eval A) (f : A → Eval B)
    → Good P m
    → ((a : A) → P a → Good Q (f a))
    → Good Q (m >>= f)
Good-bind P Q m f first next n =
    Holds-bind (λ a s. P a) (λ b s. Q b) (λ e s. is_unavailable e ≡ false)
      (λ e s. is_unavailable e ≡ false) m f n (first n) (λ a s holds. next a holds s)
      (λ e s other. other)

Good-pure : {A : Type 0} (P : A → Type 0) (a : A) → P a → Good P (pure a)
unfolding Holds
Good-pure P a holds n = holds

Good-throw :
    {A : Type 0} (P : A → Type 0) (e : SchemaError) → is_unavailable e ≡ false → Good P (throw e)
unfolding Holds
Good-throw P e other n = other

Good-spend : Good (λ u. Unit {0}) spend
unfolding spend Holds
Good-spend n = ground arith

Good-choice :
    {A : Type 0} (P : A → Type 0) (b : Bool) (m m' : Eval A)
    → Good P m
    → Good P m'
    → Good P (if b then m else m')
Good-choice P true m m' first second = first
Good-choice P false m m' first second = second

Good-costed : (m : Eval EvalValue) → Good InRange m → Good InRange (costed m)
Good-costed m good = Good-bind (λ u. Unit) InRange spend (λ u. m) Good-spend (λ u _. good)

Good-some_or :
    {A : Type 0} (P : A → Type 0) (fault : Fault) (o : Option A)
    → is_unavailable (expression fault) ≡ false
    → ((a : A) → o ≡ some a → P a)
    → Good P (some_or fault o)
Good-some_or P fault none other found = Good-throw P _ other
Good-some_or P fault (some a) other found = Good-pure P a (found a refl)

Good-known :
    {A : Type 0} (P : A → Type 0) (r : Result SchemaError A)
    → ((a : A) → r ≡ ok a → P a)
    → ((e : SchemaError) → r ≡ err e → is_unavailable e ≡ false)
    → Good P (known r)
Good-known P (ok a) found other = Good-pure P a (found a refl)
Good-known P (err e) found other = Good-throw P e (other e refl)

abbrev AnyBool : Bool → Type 0
AnyBool b = Unit

Good-truth : (m : Eval EvalValue) → Good InRange m → Good AnyBool (truth m)
unfolding as_bool
Good-truth m good = Good-bind InRange AnyBool m _ good (λ v holds. answer v)
  where
    answer : (v : EvalValue) → Good AnyBool (known (as_bool v))
    answer (bool b) = Good-pure AnyBool b tt
    answer (int z) = Good-throw AnyBool _ refl

Good-integer : (m : Eval EvalValue) → Good InRange m → Good IsWord (integer m)
unfolding as_int
Good-integer m good = Good-bind InRange IsWord m _ good (λ v holds. answer v holds)
  where
    answer : (v : EvalValue) → InRange v → Good IsWord (known (as_int v))
    answer (int z) holds = Good-pure IsWord z holds
    answer (bool b) holds = Good-throw IsWord _ refl

Good-arithmetic :
    (left right : Eval EvalValue) (op : ℤ → ℤ → Option ℤ) (fault : Fault)
    → is_unavailable (expression fault) ≡ false
    → ((a b c : ℤ) → op a b ≡ some c → IsWord c)
    → Good InRange left
    → Good InRange right
    → Good InRange (arithmetic left right op fault)
Good-arithmetic left right op fault other range first second =
    Good-bind IsWord InRange (integer left) _ (Good-integer left first) (λ a _.
      Good-bind IsWord InRange (integer right) _ (Good-integer right second) (λ b _.
        Good-bind IsWord InRange (some_or fault (op a b)) _
          (Good-some_or IsWord fault (op a b) other (range a b))
          (λ c holds. Good-pure InRange (int c) holds)))

Good-compare :
    (left right : Eval EvalValue) (answer : Bool → Bool)
    → Good InRange left
    → Good InRange right
    → Good InRange (compare_values left right answer)
Good-compare left right answer first second =
    Good-bind InRange InRange left _ first
      (λ a _. Good-bind InRange InRange right _ second (λ b _. Good-pure InRange _ tt))

value_of_other :
    (width : ℕ) (bytes : List ℕ) (e : SchemaError)
    → value_of width bytes ≡ err e
    → is_unavailable e ≡ false
unfolding value_of
value_of_other width bytes e failed = ground (arith, failed)

Good-read_bytes :
    (payload : List ℕ) (offset width : ℕ)
    → All IsByte payload
    → Good IsWord (read_bytes payload offset width)
unfolding read_bytes checked_add
Good-read_bytes payload offset width small =
    Good-bind (λ end. end ≡ offset + width) IsWord
      (some_or read_range_overflowed (checked_add offset width)) _
      (Good-some_or (λ end. end ≡ offset + width) read_range_overflowed (checked_add offset width)
        refl (λ end e. ground (arith, e)))
      (λ end total.
        Good-bind (λ bytes. (length bytes ≡ end - offset) × All IsByte bytes) IsWord
          (some_or _ (get_range payload offset end)) _
          (Good-some_or _ (read_range_exceeds offset end (length payload))
            (get_range payload offset end) refl
            (λ bytes found. get_range-IsByte payload bytes offset end small found))
          (λ bytes held.
            Good-known IsWord (value_of width bytes)
              (λ z e. value_of-IsWord width bytes z (omega (arith, held.0, total)) held.1 e)
              (value_of_other width bytes)))

Good-find_case :
    (key default : ℤ) (cases : List IntegerLookupCase)
    → All (λ case. IsWord case.output) cases
    → IsWord default
    → Good InRange (find_case key cases default)
unfolding find_case
Good-find_case key default [] outputs otherwise = Good-pure InRange (int default) otherwise
Good-find_case key default (case ∷ cases) outputs otherwise =
    Good-bind (λ u. Unit) InRange spend _ Good-spend
      (λ u _.
        Good-choice InRange (int_eq case.input key) _ _
          (Good-pure InRange (int case.output) outputs.0)
          (Good-find_case key default cases outputs.1 otherwise))

length-Good : (context : EvalContext) → Good InRange (evaluate_body context payload_length)
unfolding evaluate_body
length-Good context = elim (Bool-cases (ltb (length context.payload) (2 ^ 63))) [
  | inl small ↦ rw (small) (Good-pure InRange _ small)
  | inr large ↦ rw (large) (Good-throw InRange _ refl)
]

version-IsWord : (version : ℕ) → version < 2 ^ 16 → IsWord (pos version)
version-IsWord version small = ground (arith, small)

-- Two checks that pass.
both : (m n : Verdict) → (m >>? n) ≡ ok tt → (m ≡ ok tt) × (n ≡ ok tt)
both (ok u) n e = (refl, e)
both (err e) n e' = cc e'

read_field_visible :
    (visible_fields : List (List ℕ)) (expression_path path : List ℕ) (limit : ℕ)
    → validate_expression_fields visible_fields expression_path limit (read_field_path path) ≡ ok tt
    → contains_path path visible_fields ≡ true
unfolding validate_expression_fields validate_string
read_field_visible visible_fields expression_path path limit valid = ground (arith, valid)

-- A value that is there.
Good-there :
    (fault : Fault) (o : Option ℤ) (z : ℤ) → o ≡ some z → IsWord z → Good IsWord (some_or fault o)
Good-there fault none z there word = cc there
Good-there fault (some y) z there word =
    Good-pure IsWord y (subst IsWord (sym (some_inj.0 there)) word)

split_good :
    (o : Outcome SchemaError ℕ EvalValue)
    → Holds (λ a s. InRange a) (λ e s. is_unavailable e ≡ false) o
    → ((value : EvalValue) (left : ℕ) → o ≡ done value left → InRange value)
      × ((e : SchemaError) (left : ℕ) → o ≡ fail e left → is_unavailable e ≡ false)
unfolding Holds
split_good o holds = (
  λ value left e. subst (Holds (λ a s. InRange a) (λ e s. is_unavailable e ≡ false)) e holds,
  λ error left e. subst (Holds (λ a s. InRange a) (λ e s. is_unavailable e ≡ false)) e holds,
)

module _ (context : EvalContext) (visible_fields : List (List ℕ)) (expression_path : List ℕ)
    (limit : ℕ) (supplies : Supplies context visible_fields) where
  abbrev check : Expression → Verdict
  check e = validate_expression_fields visible_fields expression_path limit e

  Good-read_field_path :
      (path : List ℕ)
      → contains_path path visible_fields ≡ true
      → Good IsWord (some_or (field_unavailable path) (lookup path context.field_values))
  Good-read_field_path path visible =
      Good-there (field_unavailable path) _ (supplies.2 path visible).0 (supplies.2 path visible).1
        (supplies.3 path _ (supplies.2 path visible).1)

  mutual
    unfolding evaluate_body Literals validate_expression_fields

    sound :
        (e : Expression)
        → Literals e
        → validate_expression_fields visible_fields expression_path limit e ≡ ok tt
        → Good InRange (costed (evaluate_body context e))
    sound (bool_literal value) literals valid = Good-costed _ (Good-pure InRange (bool value) tt)
    sound (int_literal value) literals valid =
        Good-costed _ (Good-pure InRange (int value) literals)
    sound payload_length literals valid = Good-costed _ (length-Good context)
    sound form_version literals valid =
        Good-costed _ (Good-pure InRange _ (version-IsWord context.form_version supplies.1))
    sound (read_unsigned offset width) literals valid = Good-costed _ (
        Good-bind IsWord InRange (read_bytes context.payload offset width) _
          (Good-read_bytes context.payload offset width supplies.0)
          (λ z holds. Good-pure InRange (int z) holds))
    sound (read_field_path path) literals valid = Good-costed _ (
        Good-bind IsWord InRange
          (some_or (field_unavailable path) (lookup path context.field_values)) _
          (Good-read_field_path path
            (read_field_visible visible_fields expression_path path limit valid))
          (λ z holds. Good-pure InRange (int z) holds))
    sound (record_signature signature) literals valid = Good-costed _ (Good-pure InRange _ tt)
    sound (equal left right) literals valid = Good-costed _ (
        Good-compare _ _ (λ same. same) (sound left literals.0 (both _ _ valid).0)
          (sound right literals.1 (both _ _ valid).1))
    sound (not_equal left right) literals valid = Good-costed _ (
        Good-compare _ _ not (sound left literals.0 (both _ _ valid).0)
          (sound right literals.1 (both _ _ valid).1))
    sound (less_than left right) literals valid = Good-costed _ (
        Good-bind IsWord InRange (integer (costed (evaluate_body context left))) _
          (Good-integer (costed (evaluate_body context left))
            (sound left literals.0 (both _ _ valid).0))
          (λ a _.
            Good-bind IsWord InRange (integer (costed (evaluate_body context right))) _
              (Good-integer (costed (evaluate_body context right))
                (sound right literals.1 (both _ _ valid).1))
              (λ b _. Good-pure InRange (bool (int_ltb a b)) tt)))
    sound (bit_set value bit) literals valid = Good-costed _ (
        Good-choice InRange (leb 64 bit) _ _ (Good-throw InRange _ refl) (
          Good-bind IsWord InRange (integer (costed (evaluate_body context value))) _
            (Good-integer (costed (evaluate_body context value)) (sound value literals valid))
            (λ raw _. Good-pure InRange (bool (Evaluate.bit_of raw bit)) tt)))
    sound (and values) literals valid = Good-costed _ (sound_all values literals valid)
    sound (or values) literals valid = Good-costed _ (sound_any values literals valid)
    sound (negate value) literals valid = Good-costed _ (
        Good-bind AnyBool InRange (truth (costed (evaluate_body context value))) _
          (Good-truth (costed (evaluate_body context value)) (sound value literals valid))
          (λ b _. Good-pure InRange (bool (not b)) tt))
    sound (add left right) literals valid = Good-costed _ (
        Good-arithmetic _ _ _ _ refl (λ a b. checked-IsWord (a +ℤ b))
          (sound left literals.0 (both _ _ valid).0) (sound right literals.1 (both _ _ valid).1))
    sound (subtract left right) literals valid = Good-costed _ (
        Good-arithmetic _ _ _ _ refl (λ a b. checked-IsWord (a -ℤ b))
          (sound left literals.0 (both _ _ valid).0) (sound right literals.1 (both _ _ valid).1))
    sound (multiply left right) literals valid = Good-costed _ (
        Good-arithmetic _ _ _ _ refl (λ a b. checked-IsWord (a *ℤ b))
          (sound left literals.0 (both _ _ valid).0) (sound right literals.1 (both _ _ valid).1))
    sound (divide left right) literals valid = Good-costed _ (
        Good-arithmetic _ _ _ _ refl checked_div-IsWord (sound left literals.0 (both _ _ valid).0)
          (sound right literals.1 (both _ _ valid).1))
    sound (bit_count value) literals valid = Good-costed _ (
        Good-bind IsWord InRange (integer (costed (evaluate_body context value))) _
          (Good-integer (costed (evaluate_body context value)) (sound value literals valid))
          (λ raw _. Good-pure InRange (int (pos (count_ones raw))) (count_ones-IsWord raw)))
    sound (integer_lookup value cases default) literals valid = Good-costed _ (
        Good-bind IsWord InRange (integer (costed (evaluate_body context value))) _
          (Good-integer (costed (evaluate_body context value))
            (sound value literals.0 (both _ _ valid).0))
          (λ key _. Good-find_case key default cases literals.1 literals.2))
    sound (select condition if_true if_false) literals valid =
        let split = both (check condition) (check if_true >>? check if_false) valid in
        let later = both (check if_true) (check if_false) split.1 in
        Good-costed _ (
          Good-bind AnyBool InRange (truth (costed (evaluate_body context condition))) _
            (Good-truth (costed (evaluate_body context condition))
              (sound condition literals.0 split.0))
            (λ chosen _.
              Good-choice InRange chosen _ _ (sound if_true literals.1 later.0)
                (sound if_false literals.2 later.1)))

    sound_all :
        (es : Expressions)
        → AllLiterals es
        → Validate.validate_values visible_fields expression_path limit es ≡ ok tt
        → Good InRange (Evaluate.evaluate_all context es)
    sound_all nil literals valid = Good-pure InRange (bool true) tt
    sound_all (cons value values) literals valid =
        Good-bind AnyBool InRange (truth (costed (evaluate_body context value))) _
          (Good-truth (costed (evaluate_body context value))
            (sound value literals.0 (both _ _ valid).0))
          (λ holds _.
            Good-choice InRange (not holds) _ _ (Good-pure InRange (bool false) tt)
              (sound_all values literals.1 (both _ _ valid).1))

    sound_any :
        (es : Expressions)
        → AllLiterals es
        → Validate.validate_values visible_fields expression_path limit es ≡ ok tt
        → Good InRange (Evaluate.evaluate_any context es)
    sound_any nil literals valid = Good-pure InRange (bool false) tt
    sound_any (cons value values) literals valid =
        Good-bind AnyBool InRange (truth (costed (evaluate_body context value))) _
          (Good-truth (costed (evaluate_body context value))
            (sound value literals.0 (both _ _ valid).0))
          (λ holds _.
            Good-choice InRange holds _ _ (Good-pure InRange (bool true) tt)
              (sound_any values literals.1 (both _ _ valid).1))

  -- An expression that validation accepts, whose literals are `i64`, evaluated in a context that has
  -- a value for each field that validation took as visible, with all its field values `i64`, a
  -- payload of bytes and a `u16` version: on whatever budget, an integer that it answers is an
  -- `i64`, and an error that it fails with is never that of a field that has no value.
  pub evaluate-InRange :
      (e : Expression) (max_operations : ℕ)
      → Literals e
      → validate_expression_fields visible_fields expression_path limit e ≡ ok tt
      → ((value : EvalValue) (left : ℕ)
          → evaluate context e max_operations ≡ done value left
          → InRange value)
        × ((error : SchemaError) (left : ℕ)
            → evaluate context e max_operations ≡ fail error left
            → is_unavailable error ≡ false)
  unfolding evaluate
  evaluate-InRange e max_operations literals valid =
      split_good _ (sound e literals valid max_operations)
