-- ===== src/Schema/Expression/Runs.antt =====
-- Expressions at concrete inputs.
use bethkit.Prelude.{
  ℕ, suc, ◌-◌, ◌≤◌, ◌≡◌, refl, arith, List, [], ◌∷◌, some, get_elem?, length, true, false,
  Bool-cases, inl, inr,
}
use bethkit.Prelude.Int.{ℤ, pos, int_eq}
use bethkit.Prelude.Action.{done, fail}
use bethkit.Prelude.Result.{Result, ok}
use bethkit.Prelude.Dict.{lookup}
use bethkit.Prelude.Keys.{bytes_eq, bytes_key}
use bethkit.Io.Bytes.{from_le_bytes}
use bethkit.Io.Cursor.{checked_add}
use bethkit.Schema.Error.{SchemaError, expression, budget_exhausted}
use bethkit.Schema.Expression.Data.{
  EvalValue, int, EvalContext, IntegerLookupCase, Expression, int_literal, form_version,
  read_unsigned, read_field_path, less_than, integer_lookup, select, as_int, as_bool,
}
use bethkit.Schema.Expression.Evaluate.{evaluate, spend, find_case, read_bytes}
use bethkit.Schema.Expression.Budget.{IsGenuine, charged, size}
use bethkit.Schema.Expression.Least.{least, IsPaid, evaluate-Costs}
use bethkit.Schema.Expression.Validate.{
  validate_expression_fields, validate_string, contains_path, out_of_order,
}
use bethkit.Schema.Expression.Range.{IsWord, InRange}
use bethkit.Schema.Expression.Sound.{Literals, Supplies, is_unavailable, evaluate-InRange}
use bethkit.Schema.Expression.Lookup.{find_case_complete}

abbrev cases : List IntegerLookupCase
cases = record { input = pos 3; output = pos 30 } ∷ record { input = pos 7; output = pos 70 } ∷ []

abbrev chooser : Expression
chooser =
    select (less_than form_version (int_literal (pos 44))) (read_field_path (112 ∷ []))
      (integer_lookup (read_unsigned 0 1) cases (pos 1))

abbrev context : EvalContext
context = record {
  payload = 7 ∷ [];
  field_values = (112 ∷ [], pos 5) ∷ [];
  form_version = 44;
  record_signature = 71 ∷ 76 ∷ 79 ∷ 66 ∷ [];
}

abbrev visible : List (List ℕ)
visible = (112 ∷ []) ∷ []

evaluate_run : evaluate context chooser 9 ≡ done (int (pos 70)) 1
unfolding evaluate spend as_int as_bool read_bytes checked_add find_case from_le_bytes
evaluate_run = refl

short_run : evaluate context chooser 5 ≡ fail (expression budget_exhausted) 0
unfolding evaluate spend as_int as_bool
short_run = refl

evaluate-Costs_example :
    (k : ℕ) × (r : Result SchemaError EvalValue) × (k ≤ size chooser)
    × IsPaid (least chooser) k r
    × IsGenuine r
    × ((max_operations : ℕ) → evaluate context chooser max_operations ≡ charged k r max_operations)
evaluate-Costs_example = evaluate-Costs context chooser

chooser-Literals : Literals chooser
unfolding Literals
chooser-Literals = ((tt, refl), tt, (tt, (refl, (refl, tt)), refl))

chooser_valid : validate_expression_fields visible [] 16 chooser ≡ ok tt
unfolding validate_expression_fields validate_string contains_path bytes_eq out_of_order
chooser_valid = refl

only_field :
    (path : List ℕ)
    → contains_path path visible ≡ true
    → (z : ℤ) × (lookup path context.field_values ≡ some z)
unfolding contains_path lookup bytes_key
only_field path e = elim (Bool-cases (bytes_eq path (112 ∷ []))) [
  | inl same ↦ (pos 5, rw (same, lookup) refl)
  | inr other ↦ absurd (ground (arith, e, other))
]

words : (path : List ℕ) (z : ℤ) → lookup path context.field_values ≡ some z → IsWord z
unfolding lookup bytes_key
words path z e = ground (arith, e)

supplied : Supplies context visible
supplied = ((omega arith, tt), omega arith, only_field, words)

evaluate-InRange_example :
    ((value : EvalValue) (left : ℕ) → evaluate context chooser 9 ≡ done value left → InRange value)
    × ((error : SchemaError) (left : ℕ)
        → evaluate context chooser 9 ≡ fail error left
        → is_unavailable error ≡ false)
evaluate-InRange_example =
    evaluate-InRange context visible [] 16 supplied chooser 9 chooser-Literals chooser_valid

cases_ordered : out_of_order cases ≡ false
unfolding out_of_order
cases_ordered = refl

find_case_complete_example :
    ((i : ℕ) (c : IntegerLookupCase)
      → get_elem? cases i ≡ some c
      → find_case c.input cases (pos 1) 4 ≡ done (int c.output) (4 - suc i))
    × ((key : ℤ)
        → ((i : ℕ) (c : IntegerLookupCase)
            → get_elem? cases i ≡ some c
            → int_eq c.input key ≡ false)
        → find_case key cases (pos 1) 4 ≡ done (int (pos 1)) (4 - length cases))
find_case_complete_example = find_case_complete cases (pos 1) 4 cases_ordered (omega arith)
