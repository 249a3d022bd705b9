-- ===== src/Core/Plugin/Tiles.antt =====
-- The header record and the top-level groups of a parsed plugin tile the file.
use bethkit.Prelude.{
  ℕ, zero, suc, ◌+◌, ◌-◌, ◌≤◌, ◌<◌, ◌≡◌, refl, ap, subst, ◌∙◌, inl, inr, ◌⊎◌, arith,
}
use bethkit.Prelude.{List, [], ◌∷◌, length, none, some, Bool-cases, true}
use bethkit.Prelude.Action.{Outcome, done, fail, ◌>>=◌}
use bethkit.Prelude.Result.{Result, ok, err}
use bethkit.Prelude.Fault.{Fault, error, out_of_fuel}
use bethkit.Prelude.Fine.{Fine, Fine-bind}
use bethkit.Prelude.Keys.{bytes_eq}
use bethkit.Io.Cursor
use bethkit.Io.Cursor.{IoError, SliceCursor, is_empty}
use bethkit.Io.Cursor.Bounds.{advance}
use bethkit.Core.Signature
use bethkit.Core.Signature.{Signature}
use bethkit.Core.Error.{CoreError}
use bethkit.Core.Types.{GameContext, header_signature}
use bethkit.Core.Record.Header.{parse_header}
use bethkit.Core.Record.Subrecords.{Parser}
use bethkit.Core.Record.Answers.{Answered, get-Answered, get_all-Answered}
use bethkit.Core.Record.Lookup.{get, get_all}
use bethkit.Core.Group.Data.{Group, group}
use bethkit.Core.Group.Parse
use bethkit.Core.Group.Moves.{Moved, parse_header-Fine}
use bethkit.Core.Group.Tiles.{Tiles, SpansGroup, Whole, parse-Whole}
use bethkit.Core.Plugin.Data.{PluginHeader, Plugin}
use bethkit.Core.Plugin.Parse.{
  returned, ranged, parse_plugin_header, parse_groups, assembled, parse_bytes, from_bytes,
}

-- Top-level groups one behind the other, each with the range that it came from.
unfoldable pub GroupsTile : List ℕ → ℕ → ℕ → List Group → Type 0
GroupsTile source start end [] = start ≡ end
GroupsTile source start end (g ∷ gs) =
    (middle : ℕ) × SpansGroup source (some (start, middle)) start middle g
    × GroupsTile source middle end gs

ranged-SpansGroup :
    (source : List ℕ) (start end : ℕ) (g : Group)
    → SpansGroup source none start end g
    → SpansGroup source (some (start, end)) start end (ranged start end g)
unfolding Tiles
ranged-SpansGroup source start end (group header source_range kids) spans =
    (refl, spans.1, spans.2, spans.3)

abbrev Rest : SliceCursor → List Group → SliceCursor → Type 0
Rest c gs c' =
    (c' ≡ record { bytes = c.bytes; pos = length c.bytes })
    × GroupsTile c.bytes c.pos (length c.bytes) gs

Whole-Rest :
    (c d e : SliceCursor) (g : Group) (gs : List Group)
    → Whole c g d
    → Rest d gs e
    → Rest c (ranged c.pos d.pos g ∷ gs) e
unfolding GroupsTile
Whole-Rest c d e g gs (reached, room, spans) (ended, tiles) = (
  ended ∙ ap (λ b. record { bytes = b; pos = length b }) same,
  (
    d.pos,
    ranged-SpansGroup c.bytes c.pos d.pos g spans,
    subst (λ b. GroupsTile b d.pos (length b) gs) same tiles,
  ),
)
  where
    same : d.bytes ≡ c.bytes
    same = ap (λ x. x.bytes) reached.0

at_end-Rest : (c : SliceCursor) → c.pos ≤ length c.bytes → is_empty c ≡ true → Rest c [] c
unfolding is_empty GroupsTile
at_end-Rest c valid all_read = ground arith

parse_groups-Rest :
    (fuel : ℕ) (c : SliceCursor)
    → c.pos ≤ length c.bytes
    → length c.bytes - c.pos < fuel
    → Fine (Rest c) (parse_groups fuel c)
unfolding parse_groups Fine GroupsTile
parse_groups-Rest zero c valid enough = omega arith
parse_groups-Rest (suc fuel) c valid enough = elim (Bool-cases (is_empty c)) [
  | inl all_read ↦ rw (all_read) (at_end-Rest c valid all_read)
  | inr more ↦ rw (more) (
      Fine-bind (Whole c) (Rest c) Parse.parse _ c (parse-Whole c valid) (λ g d whole.
        Fine-bind (Rest d) (Rest c) (parse_groups fuel) _ d
          (parse_groups-Rest fuel d (omega (arith, whole.0.2, ap (λ x. length x.bytes) whole.0.0))
            (omega (arith, whole.1, ap (λ x. length x.bytes) whole.0.0)))
          (λ gs e rest. Whole-Rest c d e g gs whole rest)))
]

returned-Fine :
    {A : Type 0} (r : Result (Fault CoreError) A) (c : SliceCursor)
    → Answered r
    → Fine (λ a c'. c' ≡ c) (returned r c)
unfolding Fine
returned-Fine (ok a) c answered = refl
returned-Fine (err (error e)) c answered = tt
returned-Fine (err out_of_fuel) c answered = answered

-- An answer that changes nothing of the cursor, and then the rest.
returned_bind :
    {A B : Type 0} (P : B → SliceCursor → Type 0) (r : Result (Fault CoreError) A)
    (f : A → Parser B) (c : SliceCursor)
    → Answered r
    → ((a : A) → Fine P (f a c))
    → Fine P ((returned r >>= f) c)
returned_bind P r f c answered next =
    Fine-bind (λ a c'. c' ≡ c) P (returned r) f c (returned-Fine r c answered)
      (λ a c' same. rw (same) (next a))

-- The cursor has moved by the header record.
abbrev Headed : SliceCursor → PluginHeader → SliceCursor → Type 0
Headed c header c' = Moved c (24 + header.main.header.data_size) c'

abbrev Parsed : SliceCursor → PluginHeader × (ℕ × ℕ) × List Group → SliceCursor → Type 0
Parsed c (header, range, groups) c' =
    (range ≡ (c.pos, c.pos + (24 + header.main.header.data_size)))
    × (c.pos + (24 + header.main.header.data_size) ≤ length c.bytes)
    × GroupsTile c.bytes (c.pos + (24 + header.main.header.data_size)) (length c.bytes) groups

-- What was parsed stands where the header record ends.
abbrev Placed : List ℕ → PluginHeader × (ℕ × ℕ) × List Group → ℕ → Type 0
Placed bytes parsed end =
    (parsed.1 ≡ (0, end)) × (end ≤ length bytes) × GroupsTile bytes end (length bytes) parsed.2

verdict :
    (bytes : List ℕ) (ctx : GameContext)
    (o : Outcome (Fault CoreError) SliceCursor (PluginHeader × (ℕ × ℕ) × List Group))
    → Fine (Parsed (Cursor.new bytes)) o
    → ((p : Plugin) × (assembled bytes ctx o ≡ ok p)
        × (p.source ≡ bytes)
        × (p.header_range ≡ (0, 24 + p.header.main.header.data_size))
        × (24 + p.header.main.header.data_size ≤ length bytes)
        × GroupsTile bytes (24 + p.header.main.header.data_size) (length bytes) p.groups)
      ⊎ ((e : CoreError) × (assembled bytes ctx o ≡ err (error e)))
unfolding Fine
verdict bytes ctx (fail (error e) c) fine = inr (e, refl)
verdict bytes ctx (fail out_of_fuel c) fine = elim fine [ ]
verdict bytes ctx (done parsed c) fine = inl (
  record {
    source = bytes;
    ctx = ctx;
    header = parsed.0;
    header_range = parsed.1;
    groups = parsed.2;
  },
  refl,
  refl,
  placed.0,
  placed.1,
  placed.2,
)
  where
    placed : Placed bytes parsed (24 + parsed.0.main.header.data_size)
    placed = subst (Placed bytes parsed) (omega arith) fine

module _ (decompress_zlib : List ℕ → ℕ → Result IoError (List ℕ)) where
  parse_plugin_header-Headed :
      (ctx : GameContext) (c : SliceCursor)
      → Fine (Headed c) (parse_plugin_header decompress_zlib ctx c)
  unfolding parse_plugin_header Fine
  parse_plugin_header-Headed ctx c =
      Fine-bind (λ r d. Moved c (24 + r.header.data_size) d) _ parse_header _ c
        (parse_header-Fine c)
        (λ main d moved. elim (Bool-cases (bytes_eq main.header.signature (header_signature ctx))) [
          | inr other ↦ rw (other) tt
          | inl same ↦ rw (same) (
              returned_bind (Headed c) (get decompress_zlib main Signature.hedr) _ d
                (get-Answered decompress_zlib main Signature.hedr)
                (λ hedr.
                  returned_bind (Headed c) (get_all decompress_zlib main Signature.mast) _ d
                    (get_all-Answered decompress_zlib main Signature.mast)
                    (λ masts.
                      returned_bind (Headed c) (get decompress_zlib main Signature.snam) _ d
                        (get-Answered decompress_zlib main Signature.snam) (λ snam. moved))))
        ])

  parse_bytes-Parsed :
      (ctx : GameContext) (c : SliceCursor) → Fine (Parsed c) (parse_bytes decompress_zlib ctx c)
  unfolding parse_bytes Fine
  parse_bytes-Parsed ctx c =
      Fine-bind (Headed c) (Parsed c) (parse_plugin_header decompress_zlib ctx) _ c
        (parse_plugin_header-Headed ctx c)
        (λ header d moved. rw (moved.0) (
          Fine-bind (Rest (advance (24 + header.main.header.data_size) c)) (Parsed c)
            (parse_groups (suc (length c.bytes))) _ (advance (24 + header.main.header.data_size) c)
            (parse_groups-Rest (suc (length c.bytes))
              (advance (24 + header.main.header.data_size) c) moved.1 (omega arith))
            (λ groups e rest. (refl, moved.1, rest.1))))

  -- Whatever bytes it is given and whatever the decompression answers, the parser of a plugin comes
  -- to an end: with an error of the program's own, or with a plugin that keeps the bytes, whose
  -- header record starts at the first byte and has the range of its own size, and whose top-level
  -- groups tile the rest of the file up to its last byte, each with the range that it came from, and
  -- so do the children of each group inside it.
  pub from_bytes-GroupsTile :
      (bytes : List ℕ) (ctx : GameContext)
      → ((p : Plugin) × (from_bytes decompress_zlib bytes ctx ≡ ok p)
          × (p.source ≡ bytes)
          × (p.header_range ≡ (0, 24 + p.header.main.header.data_size))
          × (24 + p.header.main.header.data_size ≤ length bytes)
          × GroupsTile bytes (24 + p.header.main.header.data_size) (length bytes) p.groups)
        ⊎ ((e : CoreError) × (from_bytes decompress_zlib bytes ctx ≡ err (error e)))
  unfolding from_bytes
  from_bytes-GroupsTile bytes ctx =
      verdict bytes ctx (parse_bytes decompress_zlib ctx (Cursor.new bytes))
        (parse_bytes-Parsed ctx (Cursor.new bytes))
