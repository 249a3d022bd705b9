-- ===== src/Core/Record/Lookup.antt =====
-- record.rs: the accessors of a record that parse it on demand.
use bethkit.Prelude.{ℕ, List, [], ◌∷◌, Option, none, some, length}
use bethkit.Prelude.{if◌then◌else◌}
use bethkit.Prelude.Result.{Result, ok, err, ◌>>=◌}
use bethkit.Prelude.Fault.{Fault, error}
use bethkit.Prelude.Keys.{bytes_eq}
use bethkit.Io.Cursor.{IoError}
use bethkit.Core.Signature.{Signature}
use bethkit.Core.Error.{CoreError, io}
use bethkit.Core.Types.{GameContext, PluginKind, plugin_kind_from_flags}
use bethkit.Core.Record.Data.{SubRecord, raw, compressed, Record}
use bethkit.Core.Record.Subrecords.{subrecords}

-- `iter().find(..)` and `iter().filter(..)` by signature.
unfoldable find : Signature → List SubRecord → Option SubRecord
find sig [] = none
find sig (sr ∷ srs) =
    let later = find sig srs in if bytes_eq sr.signature sig then some sr else later

unfoldable filter : Signature → List SubRecord → List SubRecord
filter sig [] = []
filter sig (sr ∷ srs) =
    let later = filter sig srs in if bytes_eq sr.signature sig then sr ∷ later else later

unfoldable pub uncompressed_data_size : Record → ℕ
uncompressed_data_size r = elim r.block [ raw bytes ↦ length bytes | compressed bytes size ↦ size ]

unfoldable pub plugin_kind : Record → GameContext → PluginKind
plugin_kind r ctx = plugin_kind_from_flags ctx r.header.flags

module _ (decompress_zlib : List ℕ → ℕ → Result IoError (List ℕ)) where
  unfoldable pub get : Record → Signature → Result (Fault CoreError) (Option SubRecord)
  unfolding find
  get r sig = do srs ← subrecords decompress_zlib r; ok (find sig srs)

  unfoldable pub get_all : Record → Signature → Result (Fault CoreError) (List SubRecord)
  unfolding filter
  get_all r sig = do srs ← subrecords decompress_zlib r; ok (filter sig srs)

  decompressed : Result IoError (List ℕ) → Result (Fault CoreError) (List ℕ)
  decompressed (ok bytes) = ok bytes
  decompressed (err e) = err (error (io e))

  unfoldable pub raw_data : Record → Result (Fault CoreError) (List ℕ)
  unfolding decompressed
  raw_data r = elim r.block [
    | raw bytes ↦ ok bytes
    | compressed bytes size ↦ decompressed (decompress_zlib bytes size)
  ]
