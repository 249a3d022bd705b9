-- ===== src/Core/Error.antt =====
-- crates/bethkit-core/src/error.rs: the errors, with the texts that `format!` builds kept as a
-- template and its arguments.
use bethkit.Prelude.{ℕ, String, List}
use bethkit.Prelude.Int.{ℤ}
use bethkit.Io.Cursor.{IoError}
use bethkit.Core.Types.{FormId, Game}

pub data Message : Type 0 where
  text : String → Message
  format : String → List ℕ → Message
  -- The first argument is a signature.
  signature_format : String → List ℕ → List ℕ → Message

pub data CoreError : Type 0 where
  io : IoError → CoreError
  invalid_signature : String → List ℕ → CoreError
  invalid_group_type : ℤ → CoreError
  invalid_group_record_order : Message → CoreError
  unexpected_eof : String → CoreError
  light_form_id_overflow : FormId → CoreError
  load_order_index_full : CoreError
  light_slot_overflow : CoreError
  esl_record_limit_exceeded : ℕ → CoreError
  unsupported_game : Game → CoreError
  invalid_string_table : Message → CoreError
  missing_lstring_id : ℕ → CoreError
  localized_flag_without_tables : CoreError
  invalid_encoding : Message → CoreError
