-- ===== src/Core/Patcher/WriteTo.antt =====
-- patcher_header.rs: `write_updated`; patcher.rs: `write_to`.
use Prim.Native.Nat.{bit_and, bit_or}
use bethkit.Prelude.{ℕ, ◌-◌, ◌^◌, List, [], ◌∷◌, ◌++◌, Option, none, some, Bool, true, false, not}
use bethkit.Prelude.{◌&&◌, ◌||◌, length, leb, ltb, ◌==◌, take, drop, if◌then◌else◌}
use bethkit.Prelude.Action.{Action, convert, pure, throw, ◌>>=◌, ◌>>◌}
use bethkit.Prelude.Result.{Result, ok, err, ◌>>=◌ as ◌>>?◌}
use bethkit.Prelude.Fault.{Fault, error}
use bethkit.Prelude.Keys.{bytes_eq}
use bethkit.Io.Bytes.{from_le_bytes, to_le_bytes}
use bethkit.Io.Cursor.{IoError, slice}
use bethkit.Core.Types.{RecordFlags, flag_compressed}
use bethkit.Core.Error.{CoreError, invalid_encoding, text}
use bethkit.Core.Record.Lookup.{raw_data}
use bethkit.Core.Record.Text.{get_range}
use bethkit.Core.Plugin.Data.{Plugin}
use bethkit.Core.Patcher.Data.{PluginHeaderPatch, PluginPatcher}
use bethkit.Core.Patcher.Marks.{Touched, present, mark_groups}
use bethkit.Core.Patcher.Payload.{required, updated_payload}
use bethkit.Core.Patcher.Write.{write_all, write_groups}

abbrev pub Emitting : Type 0 → Type 0
Emitting A = Action (Fault CoreError) (List ℕ) A

-- `?` on a result.
abbrev pub answer : {A : Type 0} → Result (Fault CoreError) A → Emitting A
answer (ok a) = pure a
answer (err e) = throw e

-- `filter(|bytes| bytes.len() >= 24)`
abbrev pub of_header_size : Option (List ℕ) → Option (List ℕ)
of_header_size none = none
of_header_size (some bytes) = if leb 24 (length bytes) then some bytes else none

abbrev pub mask : Option RecordFlags → RecordFlags
mask none = 0
mask (some flags) = flags

-- `flags & !cleared` on 32 bits.
abbrev pub without : RecordFlags → RecordFlags → RecordFlags
without flags cleared = bit_and flags (2 ^ 32 - 1 - cleared)

unfoldable pub patched_flags : Option PluginHeaderPatch → RecordFlags → RecordFlags
patched_flags none flags = flags
patched_flags (some patch) flags =
    without (bit_or flags (mask patch.flags_set)) (mask patch.flags_clear)

abbrev pub is_empty : {A : Type 0} → List A → Bool
is_empty [] = true
is_empty (x ∷ xs) = false

module _ (decompress_zlib : List ℕ → ℕ → Result IoError (List ℕ)) where
  -- The payload and the flags: an unchanged compressed payload stays as it is.
  unfoldable pub kept_or_plain :
      Plugin → List ℕ → List ℕ → RecordFlags → Result (Fault CoreError) (List ℕ × RecordFlags)
  kept_or_plain plugin source payload flags =
      if not (bit_and flags flag_compressed == 0)
        && bit_and plugin.header.main.header.flags flag_compressed == flag_compressed
      then raw_data decompress_zlib plugin.header.main >>? (λ raw.
        if bytes_eq payload raw
        then ok (drop 24 source, flags)
        else ok (payload, without flags flag_compressed))
      else ok (payload, without flags flag_compressed)

  unfoldable pub write_updated : Plugin → Option PluginHeaderPatch → Emitting (Unit {0})
  unfolding updated_payload patched_flags kept_or_plain
  write_updated plugin patch = do
    source ← answer (
        required
          (of_header_size (get_range plugin.source plugin.header_range.0 plugin.header_range.1))
          "plugin header source range")
    payload ← answer (updated_payload decompress_zlib plugin patch)
    (body, flags) ← answer (
        kept_or_plain plugin source payload
          (patched_flags patch (from_le_bytes (slice 8 12 source))))
    if ltb (length body) (2 ^ 32)
        then (do
          write_all (
              take 4 source
              ++ (to_le_bytes 4 (length body) ++ (to_le_bytes 4 flags ++ slice 12 24 source)))
          write_all body)
        else throw (error (invalid_encoding (text "plugin header exceeds u32 size")))

  -- The header: rebuilt when something was replaced, a copy otherwise.
  unfoldable pub write_header : PluginPatcher → Touched → Emitting (Unit {0})
  unfolding write_updated
  write_header p touched =
      if present p.header_patch || not (is_empty touched)
      then write_updated p.plugin p.header_patch
      else (do
        header_bytes ← answer (
            required (get_range p.plugin.source p.plugin.header_range.0 p.plugin.header_range.1)
              "plugin header source range")
        write_all header_bytes)

  unfoldable pub write_to : PluginPatcher → Emitting (Unit {0})
  unfolding write_header write_groups
  write_to p =
      if is_empty p.patches && (is_empty p.group_orders && not (present p.header_patch))
      then write_all p.plugin.source
      else (do
        write_header p (mark_groups p.patches p.group_orders p.plugin.groups [])
        convert error (
            write_groups p.patches p.plugin.source p.group_orders
              (mark_groups p.patches p.group_orders p.plugin.groups []) p.plugin.groups))
