-- ===== src/Core/Record/Answers.antt =====
-- record.rs: the parse of a record's subrecords does not run out of fuel.
use bethkit.Prelude.{ℕ, inl, inr, List, Option-cases}
use bethkit.Prelude.Result.{Result, ok, err, ◌>>=◌}
use bethkit.Prelude.Fault.{Fault, error, out_of_fuel}
use bethkit.Io.Cursor.{IoError}
use bethkit.Core.Signature.{Signature}
use bethkit.Core.Error.{CoreError}
use bethkit.Core.Record.Data.{RecordData, raw, compressed, Record}
use bethkit.Core.Record.Subrecords.{parse_subrecords, parse_decompressed, parse_block, subrecords}
use bethkit.Core.Record.Ranges.{parse_subrecords-InOrder}
use bethkit.Core.Record.Lookup.{get, get_all}

-- A result whose error, if it is one, is the program's own.
abbrev pub Answered : {A : Type 0} → Result (Fault CoreError) A → Type 0
Answered (ok a) = Unit {0}
Answered (err (error e)) = Unit {0}
Answered (err out_of_fuel) = ⊥

parse_subrecords-Answered : (buffer : List ℕ) → Answered (parse_subrecords buffer)
parse_subrecords-Answered buffer = elim (parse_subrecords-InOrder buffer) [
  | inl (found, eq, order) ↦ rw (eq) tt
  | inr (e, eq) ↦ rw (eq) tt
]

-- One step after an answer that is given.
bind-Answered :
    {A B : Type 0} (r : Result (Fault CoreError) A) (f : A → B)
    → Answered r
    → Answered (r >>= (λ a. ok (f a)))
bind-Answered (ok a) f answered = tt
bind-Answered (err (error e)) f answered = tt
bind-Answered (err out_of_fuel) f answered = answered

module _ (decompress_zlib : List ℕ → ℕ → Result IoError (List ℕ)) where
  parse_decompressed-Answered :
      (r : Result IoError (List ℕ)) → Answered (parse_decompressed decompress_zlib r)
  unfolding parse_decompressed
  parse_decompressed-Answered (ok bytes) = parse_subrecords-Answered bytes
  parse_decompressed-Answered (err e) = tt

  parse_block-Answered : (d : RecordData) → Answered (parse_block decompress_zlib d)
  unfolding parse_block
  parse_block-Answered (raw bytes) = parse_subrecords-Answered bytes
  parse_block-Answered (compressed bytes size) =
      parse_decompressed-Answered (decompress_zlib bytes size)

  pub subrecords-Answered : (r : Record) → Answered (subrecords decompress_zlib r)
  unfolding subrecords
  subrecords-Answered r = elim (Option-cases r.parsed) [
    | inl eq ↦ rw (eq) (parse_block-Answered r.block)
    | inr (cached, eq) ↦ rw (eq) tt
  ]

  pub get-Answered : (r : Record) (sig : Signature) → Answered (get decompress_zlib r sig)
  unfolding get
  get-Answered r sig = bind-Answered (subrecords decompress_zlib r) _ (subrecords-Answered r)

  pub get_all-Answered : (r : Record) (sig : Signature) → Answered (get_all decompress_zlib r sig)
  unfolding get_all
  get_all-Answered r sig = bind-Answered (subrecords decompress_zlib r) _ (subrecords-Answered r)
