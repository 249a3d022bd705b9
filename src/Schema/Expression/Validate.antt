-- ===== src/Schema/Expression/Validate.antt =====
-- package.rs: `validate_expression_fields` and `validate_string`. A set of paths is a list, and of
-- the limits the bound on strings is taken.
use bethkit.Prelude.{ℕ, Bool, true, false, List, [], ◌∷◌, length, ltb, not, ◌||◌, if◌then◌else◌}
use bethkit.Prelude.Int.{int_ltb}
use bethkit.Prelude.Result.{Result, ok, err, ◌>>◌}
use bethkit.Prelude.Keys.{bytes_eq}
use bethkit.Schema.Error.{
  SchemaError, limit_exceeded, invalid_graph, unavailable_or_later, lookup_not_increasing,
}
use bethkit.Schema.Expression.Data.{
  IntegerLookupCase, Expression, Expressions, bool_literal, int_literal, payload_length,
  form_version, read_unsigned, read_field_path, record_signature, equal, not_equal, less_than,
  bit_set, and, or, negate, add, subtract, multiply, divide, bit_count, integer_lookup, select, nil,
  cons,
}

abbrev pub Verdict : Type 0
Verdict = Result SchemaError (Unit {0})

unfoldable pub contains_path : List ℕ → List (List ℕ) → Bool
contains_path path [] = false
contains_path path (p ∷ ps) =
    let later = contains_path path ps in if bytes_eq path p then true else later

unfoldable pub validate_string : List ℕ → ℕ → Verdict
validate_string value maximum_string_bytes =
    if ltb maximum_string_bytes (length value)
    then err (limit_exceeded (length value) maximum_string_bytes)
    else ok tt

-- `windows(2).any(..)`: two neighbours whose inputs do not ascend.
unfoldable pub out_of_order : List IntegerLookupCase → Bool
out_of_order [] = false
out_of_order (a ∷ []) = false
out_of_order (a ∷ b ∷ cases) =
    let later = out_of_order (b ∷ cases) in not (int_ltb a.input b.input) || later

module _ (visible_fields : List (List ℕ)) (expression_path : List ℕ)
    (maximum_string_bytes : ℕ) where
  unfoldable mutual
    pub validate_expression_fields : Expression → Verdict
    validate_expression_fields (bool_literal value) = ok tt
    validate_expression_fields (int_literal value) = ok tt
    validate_expression_fields payload_length = ok tt
    validate_expression_fields form_version = ok tt
    validate_expression_fields (read_unsigned offset width) = ok tt
    validate_expression_fields (record_signature signature) = ok tt
    validate_expression_fields (read_field_path path) = do
      validate_string path maximum_string_bytes
      if not (contains_path path visible_fields)
          then err (invalid_graph (unavailable_or_later expression_path path))
          else ok tt
    validate_expression_fields (equal left right) =
        validate_expression_fields left >> validate_expression_fields right
    validate_expression_fields (not_equal left right) =
        validate_expression_fields left >> validate_expression_fields right
    validate_expression_fields (less_than left right) =
        validate_expression_fields left >> validate_expression_fields right
    validate_expression_fields (add left right) =
        validate_expression_fields left >> validate_expression_fields right
    validate_expression_fields (subtract left right) =
        validate_expression_fields left >> validate_expression_fields right
    validate_expression_fields (multiply left right) =
        validate_expression_fields left >> validate_expression_fields right
    validate_expression_fields (divide left right) =
        validate_expression_fields left >> validate_expression_fields right
    validate_expression_fields (bit_set value bit) = validate_expression_fields value
    validate_expression_fields (negate value) = validate_expression_fields value
    validate_expression_fields (bit_count value) = validate_expression_fields value
    validate_expression_fields (integer_lookup value cases default) =
        validate_expression_fields value
        >> (if out_of_order cases
            then err (invalid_graph (lookup_not_increasing expression_path))
            else ok tt)
    validate_expression_fields (and values) = validate_values values
    validate_expression_fields (or values) = validate_values values
    validate_expression_fields (select condition if_true if_false) =
        validate_expression_fields condition
        >> (validate_expression_fields if_true >> validate_expression_fields if_false)

    pub validate_values : Expressions → Verdict
    validate_values nil = ok tt
    validate_values (cons value values) = validate_expression_fields value >> validate_values values
