-- ===== src/Schema/Error.antt =====
-- crates/bethkit-schema/src/error.rs: the errors, with a constructor for each text that the
-- expressions and their validation build. A `str` is its bytes.
use bethkit.Prelude.{ℕ, List, String}

-- The payload of `SchemaError::Expression`.
pub data Fault : Type 0 where
  expected_boolean : Fault
  expected_integer : Fault
  budget_exhausted : Fault
  payload_length_exceeds : Fault
  field_unavailable : List ℕ → Fault
  bit_index_too_large : Fault
  addition_overflowed : Fault
  subtraction_overflowed : Fault
  multiplication_overflowed : Fault
  division_overflowed : Fault
  read_range_overflowed : Fault
  read_range_exceeds : ℕ → ℕ → ℕ → Fault
  unsupported_width : ℕ → Fault
  not_representable : Fault

-- The payload of `SchemaError::InvalidGraph`: the path of the expression, and of the field.
pub data Graph : Type 0 where
  unavailable_or_later : List ℕ → List ℕ → Graph
  lookup_not_increasing : List ℕ → Graph
  other_graph : String → Graph

pub data SchemaError : Type 0 where
  io : String → SchemaError
  json : String → SchemaError
  cbor_decode : String → SchemaError
  cbor_encode : String → SchemaError
  invalid_magic : SchemaError
  unsupported_version : ℕ → SchemaError
  limit_exceeded : ℕ → ℕ → SchemaError
  hash_mismatch : SchemaError
  invalid_graph : Graph → SchemaError
  missing_game : String → SchemaError
  embedded_unavailable : SchemaError
  expression : Fault → SchemaError
  unclassified_callbacks : String → SchemaError
