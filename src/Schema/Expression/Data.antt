-- ===== src/Schema/Expression/Data.antt =====
-- expression.rs: expressions, values and contexts. A boxed operand is the operand, a vector of
-- expressions a data type of its own, an `i64` an integer.
use bethkit.Prelude.{ℕ, List, Bool}
use bethkit.Prelude.Int.{ℤ}
use bethkit.Prelude.Result.{Result, ok, err}
use bethkit.Prelude.Dict.{Dict}
use bethkit.Schema.Error.{SchemaError, expression, expected_boolean, expected_integer}

pub data EvalValue : Type 0 where
  bool : Bool → EvalValue
  int : ℤ → EvalValue

unfoldable pub as_bool : EvalValue → Result SchemaError Bool
as_bool (bool value) = ok value
as_bool (int value) = err (expression expected_boolean)

unfoldable pub as_int : EvalValue → Result SchemaError ℤ
as_int (int value) = ok value
as_int (bool value) = err (expression expected_integer)

pub record EvalContext : Type 0 where
  pub payload : List ℕ
  pub field_values : Dict (List ℕ) ℤ
  pub form_version : ℕ
  pub record_signature : List ℕ

pub record IntegerLookupCase : Type 0 where
  pub input : ℤ
  pub output : ℤ

mutual
  pub data Expression : Type 0 where
    bool_literal : Bool → Expression
    int_literal : ℤ → Expression
    payload_length form_version : Expression
    read_unsigned : ℕ → ℕ → Expression
    read_field_path : List ℕ → Expression
    record_signature : List ℕ → Expression
    equal not_equal less_than : Expression → Expression → Expression
    bit_set : Expression → ℕ → Expression
    and or : Expressions → Expression
    negate : Expression → Expression
    add subtract multiply divide : Expression → Expression → Expression
    bit_count : Expression → Expression
    integer_lookup : Expression → List IntegerLookupCase → ℤ → Expression
    select : Expression → Expression → Expression → Expression

  pub data Expressions : Type 0 where
    nil : Expressions
    cons : Expression → Expressions → Expressions
