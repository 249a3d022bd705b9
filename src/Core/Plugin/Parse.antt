-- ===== src/Core/Plugin/Parse.antt =====
-- plugin.rs: `PluginHeader::parse`, `Plugin::parse_bytes` and `Plugin::from_bytes`.
use bethkit.Prelude.{
  String, ℕ, zero, suc, List, [], ◌∷◌, Option, none, some, length, leb, if◌then◌else◌,
}
use bethkit.Prelude.Action.{Outcome, done, fail, pure, throw, ◌>>=◌}
use bethkit.Prelude.Result.{Result, ok, err}
use bethkit.Prelude.Fault.{Fault, error, out_of_fuel}
use bethkit.Prelude.Keys.{bytes_eq}
use bethkit.Io.Bytes.{from_le_bytes}
use bethkit.Io.Cursor
use bethkit.Io.Cursor.{IoError, SliceCursor, slice, is_empty}
use bethkit.Core.Signature
use bethkit.Core.Error.{CoreError, invalid_signature}
use bethkit.Core.Types.{FormId, GameContext, Game, header_signature, hedr_version}
use bethkit.Core.Record.Data.{SubRecord, as_bytes}
use bethkit.Core.Record.Header.{parse_header}
use bethkit.Core.Record.Lookup.{get, get_all}
use bethkit.Core.Record.Subrecords.{Parser}
use bethkit.Core.Record.Text.{as_zstring}
use bethkit.Core.Group.Data.{Group, group}
use bethkit.Core.Group.Parse
use bethkit.Core.Plugin.Data.{PluginHeader, Plugin}

-- `?` on a result.
abbrev pub returned : {A : Type 0} → Result (Fault CoreError) A → Parser A
returned (ok a) = pure a
returned (err e) = throw e

abbrev pub Hedr : Type 0
Hedr = ℕ × ℕ × FormId

-- The version, the number of records and the next object id.
unfoldable pub hedr_of : GameContext → Option SubRecord → Hedr
hedr_of ctx none = (hedr_version ctx, 0, 0)
hedr_of ctx (some hedr) =
    if leb 12 (length (as_bytes hedr))
    then (
      from_le_bytes (slice 0 4 (as_bytes hedr)),
      from_le_bytes (slice 4 8 (as_bytes hedr)),
      from_le_bytes (slice 8 12 (as_bytes hedr)),
    )
    else (hedr_version ctx, 0, 0)

-- `filter_map(|sr| sr.as_zstring().ok())`
unfoldable pub zstrings : List SubRecord → List (List ℕ)
zstrings [] = []
zstrings (sr ∷ srs) = elim (as_zstring sr) [ ok text ↦ text ∷ zstrings srs | err e ↦ zstrings srs ]

-- Not empty, or none.
abbrev nonempty : List ℕ → Option (List ℕ)
nonempty [] = none
nonempty (b ∷ bs) = some (b ∷ bs)

unfoldable pub description_of : Option SubRecord → Option (List ℕ)
description_of none = none
description_of (some snam) = elim (as_zstring snam) [ ok text ↦ nonempty text | err e ↦ none ]

abbrev pub ranged : ℕ → ℕ → Group → Group
ranged start end (group header source_range kids) = group header (some (start, end)) kids

-- The `while` loop over the top-level groups.
unfoldable pub parse_groups : ℕ → Parser (List Group)
parse_groups zero c = fail out_of_fuel c
parse_groups (suc fuel) c =
    if is_empty c
    then done [] c
    else (do
      g ← Parse.parse
      end ← (λ c'. done c'.pos c')
      groups ← parse_groups fuel
      pure (ranged c.pos end g ∷ groups))
        c

-- The text of the expected signature.
abbrev expected_signature : GameContext → String
expected_signature ctx = elim ctx.game [ Game.morrowind ↦ "TES3" | _ ↦ "TES4" ]

-- The plugin of what was parsed.
abbrev pub assembled :
    List ℕ
    → GameContext
    → Outcome (Fault CoreError) SliceCursor (PluginHeader × (ℕ × ℕ) × List Group)
    → Result (Fault CoreError) Plugin
assembled bytes ctx (fail e c) = err e
assembled bytes ctx (done parsed c) = ok (record {
  source = bytes;
  ctx = ctx;
  header = parsed.0;
  header_range = parsed.1;
  groups = parsed.2;
})

module _ (decompress_zlib : List ℕ → ℕ → Result IoError (List ℕ)) where
  unfoldable pub parse_plugin_header : GameContext → Parser PluginHeader
  unfolding hedr_of zstrings description_of
  parse_plugin_header ctx = do
    main ← parse_header
    if bytes_eq main.header.signature (header_signature ctx)
        then (do
          hedr ← returned (get decompress_zlib main Signature.hedr)
          masts ← returned (get_all decompress_zlib main Signature.mast)
          snam ← returned (get decompress_zlib main Signature.snam)
          pure (record {
            main = main;
            hedr_version = (hedr_of ctx hedr).0;
            record_count = (hedr_of ctx hedr).1;
            next_object_id = (hedr_of ctx hedr).2;
            masters = zstrings masts;
            description = description_of snam;
          }))
        else throw (error (invalid_signature (expected_signature ctx) main.header.signature))

  unfoldable pub parse_bytes : GameContext → Parser (PluginHeader × (ℕ × ℕ) × List Group)
  unfolding parse_plugin_header parse_groups
  parse_bytes ctx = do
    header_start ← (λ c. done c.pos c)
    header ← parse_plugin_header ctx
    header_end ← (λ c. done c.pos c)
    groups ← (λ c. parse_groups (suc (length c.bytes)) c)
    pure (header, (header_start, header_end), groups)

  unfoldable pub from_bytes : List ℕ → GameContext → Result (Fault CoreError) Plugin
  unfolding parse_bytes
  from_bytes bytes ctx = assembled bytes ctx (parse_bytes ctx (Cursor.new bytes))
