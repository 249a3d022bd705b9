-- ===== src/Schema/Expression/Evaluate.antt =====
-- expression.rs: `Expression::evaluate`, `evaluate_inner` and `read_unsigned`. The state of an
-- action is the number of operations that remain.
use bethkit.Prelude.{
  ℕ, zero, suc, ◌+◌, ◌-◌, ◌/◌, ◌%◌, ◌^◌, Bool, true, false, not, ◌==◌, ltb, leb, if◌then◌else◌,
}
use bethkit.Prelude.{List, [], ◌∷◌, Option, none, some, length}
use bethkit.Prelude.Int.{ℤ, pos, pattern_of, ◌+ℤ◌, ◌-ℤ◌, ◌*ℤ◌, quot, int_ltb, int_eq, fits}
use bethkit.Prelude.Action.{Action, Outcome, done, fail, pure, throw, ◌>>=◌, ◌>>◌}
use bethkit.Prelude.Result.{Result, ok, err}
use bethkit.Prelude.Dict.{lookup}
use bethkit.Prelude.Keys.{bytes_eq, bytes_key}
use bethkit.Io.Bytes.{from_le_bytes}
use bethkit.Io.Cursor.{checked_add}
use bethkit.Core.Record.Text.{get_range}
use bethkit.Schema.Error.{
  Fault, SchemaError, expression, budget_exhausted, payload_length_exceeds, field_unavailable,
  bit_index_too_large, addition_overflowed, subtraction_overflowed, multiplication_overflowed,
  division_overflowed, read_range_overflowed, read_range_exceeds, unsupported_width,
  not_representable,
}
use bethkit.Schema.Expression.Data.{
  EvalValue, bool, int, as_bool, as_int, EvalContext, IntegerLookupCase, Expression, Expressions,
  bool_literal, int_literal, payload_length, form_version, read_unsigned, read_field_path,
  record_signature, equal, not_equal, less_than, bit_set, and, or, negate, add, subtract, multiply,
  divide, bit_count, integer_lookup, select, nil, cons,
}

abbrev pub Eval : Type 0 → Type 0
Eval A = Action SchemaError ℕ A

-- `?` on a result, and on an option with its error.
abbrev pub known : {A : Type 0} → Result SchemaError A → Eval A
known (ok a) = pure a
known (err e) = throw e

abbrev pub some_or : {A : Type 0} → Fault → Option A → Eval A
some_or fault none = throw (expression fault)
some_or fault (some a) = pure a

-- One operation of the budget.
unfoldable pub spend : Eval (Unit {0})
spend n = if n == 0 then fail (expression budget_exhausted) n else done tt (n - 1)

-- `i64::checked_add` and the others: the exact result, if an `i64` holds it.
abbrev pub checked : ℤ → Option ℤ
checked z = if fits 63 z then some z else none

abbrev pub checked_div : ℤ → ℤ → Option ℤ
checked_div a b = if int_eq b (pos 0) then none else checked (quot a b)

abbrev pub value_eq : EvalValue → EvalValue → Bool
value_eq (bool a) (bool b) = if a then b else not b
value_eq (int a) (int b) = int_eq a b
value_eq (bool a) (int b) = false
value_eq (int a) (bool b) = false

-- The two's complement bits of an `i64`, and how many of the lowest are set.
abbrev pub bit_of : ℤ → ℕ → Bool
bit_of z bit = pattern_of 63 z / 2 ^ bit % 2 == 1

unfoldable pub ones : ℕ → ℕ → ℕ
ones zero n = 0
ones (suc w) n = n % 2 + ones w (n / 2)

unfoldable pub count_ones : ℤ → ℕ
unfolding ones
count_ones z = ones 64 (pattern_of 63 z)

-- The `match` on the width, and the conversion to `i64`.
unfoldable pub value_of : ℕ → List ℕ → Result SchemaError ℤ
value_of width bytes =
    let value = from_le_bytes bytes in
    if width == 1
    then ok (pos value)
    else if width == 2
    then ok (pos value)
    else if width == 4
    then ok (pos value)
    else if width == 8
    then (if ltb value (2 ^ 63) then ok (pos value) else err (expression not_representable))
    else err (expression (unsupported_width width))

unfoldable pub read_bytes : List ℕ → ℕ → ℕ → Eval ℤ
unfolding value_of
read_bytes payload offset width = do
  end ← some_or read_range_overflowed (checked_add offset width)
  bytes ← some_or (read_range_exceeds offset end (length payload)) (get_range payload offset end)
  known (value_of width bytes)

-- The loop over the cases of a lookup; each costs an operation.
unfoldable pub find_case : ℤ → List IntegerLookupCase → ℤ → Eval EvalValue
find_case key [] default = pure (int default)
find_case key (case ∷ cases) default = do
  spend
  if int_eq case.input key then pure (int case.output) else find_case key cases default

-- The operand as a truth value or as an integer.
abbrev pub truth : Eval EvalValue → Eval Bool
truth m = do value ← m; known (as_bool value)

abbrev pub integer : Eval EvalValue → Eval ℤ
integer m = do value ← m; known (as_int value)

-- Two integers from left to right, and an operation whose result may not fit.
abbrev pub arithmetic :
    Eval EvalValue → Eval EvalValue → (ℤ → ℤ → Option ℤ) → Fault → Eval EvalValue
arithmetic left right op fault = do
  a ← integer left
  b ← integer right
  c ← some_or fault (op a b)
  pure (int c)

abbrev pub compare_values : Eval EvalValue → Eval EvalValue → (Bool → Bool) → Eval EvalValue
compare_values left right answer = do a ← left; b ← right; pure (bool (answer (value_eq a b)))

-- An operand, whose evaluation costs an operation of its own.
abbrev pub costed : Eval EvalValue → Eval EvalValue
costed m = do spend; m

module _ (context : EvalContext) where
  unfoldable mutual
    pub evaluate_body : Expression → Eval EvalValue
    evaluate_body (bool_literal value) = pure (bool value)
    evaluate_body (int_literal value) = pure (int value)
    evaluate_body payload_length =
        if ltb (length context.payload) (2 ^ 63)
        then pure (int (pos (length context.payload)))
        else throw (expression payload_length_exceeds)
    evaluate_body form_version = pure (int (pos context.form_version))
    evaluate_body (read_unsigned offset width) = do
      value ← read_bytes context.payload offset width
      pure (int value)
    evaluate_body (read_field_path path) = do
      value ← some_or (field_unavailable path) (lookup path context.field_values)
      pure (int value)
    evaluate_body (record_signature signature) =
        pure (bool (bytes_eq signature context.record_signature))
    evaluate_body (equal left right) =
        compare_values (costed (evaluate_body left)) (costed (evaluate_body right)) (λ same. same)
    evaluate_body (not_equal left right) =
        compare_values (costed (evaluate_body left)) (costed (evaluate_body right)) not
    evaluate_body (less_than left right) = do
      a ← integer (costed (evaluate_body left))
      b ← integer (costed (evaluate_body right))
      pure (bool (int_ltb a b))
    evaluate_body (bit_set value bit) =
        let operand = integer (costed (evaluate_body value)) in
        if leb 64 bit
        then throw (expression bit_index_too_large)
        else (do raw ← operand; pure (bool (bit_of raw bit)))
    evaluate_body (and values) = evaluate_all values
    evaluate_body (or values) = evaluate_any values
    evaluate_body (negate value) = do
      result ← truth (costed (evaluate_body value))
      pure (bool (not result))
    evaluate_body (add left right) =
        arithmetic (costed (evaluate_body left)) (costed (evaluate_body right))
          (λ a b. checked (a +ℤ b)) addition_overflowed
    evaluate_body (subtract left right) =
        arithmetic (costed (evaluate_body left)) (costed (evaluate_body right))
          (λ a b. checked (a -ℤ b)) subtraction_overflowed
    evaluate_body (multiply left right) =
        arithmetic (costed (evaluate_body left)) (costed (evaluate_body right))
          (λ a b. checked (a *ℤ b)) multiplication_overflowed
    evaluate_body (divide left right) =
        arithmetic (costed (evaluate_body left)) (costed (evaluate_body right)) checked_div
          division_overflowed
    evaluate_body (bit_count value) = do
      raw ← integer (costed (evaluate_body value))
      pure (int (pos (count_ones raw)))
    evaluate_body (integer_lookup value cases default) = do
      key ← integer (costed (evaluate_body value))
      find_case key cases default
    evaluate_body (select condition if_true if_false) =
        let taken = costed (evaluate_body if_true) in
        let otherwise = costed (evaluate_body if_false) in
        (do chosen ← truth (costed (evaluate_body condition)); if chosen then taken else otherwise)

    -- The loops of a conjunction and of a disjunction.
    pub evaluate_all : Expressions → Eval EvalValue
    evaluate_all nil = pure (bool true)
    evaluate_all (cons value values) =
        let rest = evaluate_all values in
        (do
          holds ← truth (costed (evaluate_body value))
          if not holds then pure (bool false) else rest)

    pub evaluate_any : Expressions → Eval EvalValue
    evaluate_any nil = pure (bool false)
    evaluate_any (cons value values) =
        let rest = evaluate_any values in
        (do holds ← truth (costed (evaluate_body value)); if holds then pure (bool true) else rest)

  unfoldable pub evaluate_inner : Expression → Eval EvalValue
  unfolding evaluate_body
  evaluate_inner e = costed (evaluate_body e)

  unfoldable pub evaluate : Expression → ℕ → Outcome SchemaError ℕ EvalValue
  unfolding evaluate_inner
  evaluate e max_operations = evaluate_inner e max_operations
