-- ===== src/Core/Patcher/Payload.antt =====
-- patcher_header.rs: `updated_payload`, `append_masters` and `append_string`.
use bethkit.Prelude.{
  String, ℕ, ◌+◌, ◌-◌, List, [], ◌∷◌, ◌++◌, Option, none, some, Bool, true, false, not,
}
use bethkit.Prelude.{◌&&◌, length, leb, max, take, drop, if◌then◌else◌}
use bethkit.Prelude.Result.{Result, ok, err, ◌>>=◌}
use bethkit.Prelude.Fault.{Fault, error}
use bethkit.Prelude.Keys.{bytes_eq}
use bethkit.Io.Bytes.{to_le_bytes}
use bethkit.Io.Cursor.{IoError}
use bethkit.Core.Signature
use bethkit.Core.Signature.{Signature}
use bethkit.Core.Error.{CoreError, invalid_encoding, unexpected_eof, text}
use bethkit.Core.Record.Data.{SubRecord, borrowed, owned}
use bethkit.Core.Record.Subrecords.{subrecords}
use bethkit.Core.Record.Lookup.{raw_data}
use bethkit.Core.Record.Text.{get_range}
use bethkit.Core.Plugin.Data.{Plugin}
use bethkit.Core.Writer.Data.{write_subrecord}
use bethkit.Core.Patcher.Data.{PluginHeaderPatch}
use bethkit.Core.Patcher.Marks.{present}
use bethkit.Core.Patcher.Totals.{Totals, count_all}

unfoldable pub append_string : Signature → List ℕ → List ℕ → List ℕ
append_string sig value output =
    write_subrecord (record { signature = sig; bytes = value ++ 0 ∷ [] }) output

abbrev pub eight_zeros : List ℕ
eight_zeros = 0 ∷ 0 ∷ 0 ∷ 0 ∷ 0 ∷ 0 ∷ 0 ∷ 0 ∷ []

unfoldable pub append_masters : List (List ℕ) → List ℕ → List ℕ
unfolding append_string
append_masters [] output = output
append_masters (master ∷ masters) output = append_masters masters (
    write_subrecord (record { signature = Signature.data_sig; bytes = eight_zeros })
      (append_string Signature.mast master output))

-- The variables of the loop over the subrecords.
pub record Progress : Type 0 where
  pub output : List ℕ
  pub offset : ℕ
  pub seen_hedr : Bool
  pub seen_masters : Bool
  pub seen_description : Bool
  pub follows_master : Bool

abbrev pub Step : Type 0
Step = Result (Fault CoreError) Progress

-- Eight bytes of the frame, four behind the start of its payload, are replaced.
unfoldable pub with_counters : ℕ → List ℕ → Totals → Result (Fault CoreError) (List ℕ)
with_counters payload_offset frame totals =
    if leb (payload_offset + 12) (length frame)
    then ok (
        take (payload_offset + 4) frame
        ++ (to_le_bytes 4 totals.record_count
            ++ (to_le_bytes 4 totals.next_id ++ drop (payload_offset + 12) frame)))
    else err (error (invalid_encoding (text "HEDR is shorter than 12 bytes")))

-- `expect` on a value whose presence was tested.
abbrev pub given : {A : Type 0} → A → Option A → A
given otherwise none = otherwise
given otherwise (some a) = a

-- What a frame contributes, by its signature and by what was seen before.
unfoldable pub take_frame :
    Totals → Option (List (List ℕ)) → Option (List ℕ) → Signature → ℕ → List ℕ → Progress → Step
unfolding with_counters append_masters append_string
take_frame totals masters description sig payload_offset frame s =
    let master_data = s.follows_master && bytes_eq sig Signature.data_sig in
    let follows = bytes_eq sig Signature.mast in
    let s' = record s { follows_master = follows } in
    if bytes_eq sig Signature.hedr && not s.seen_hedr
    then (do
      updated ← with_counters payload_offset frame totals
      ok (record s' { output = s.output ++ updated; seen_hedr = true }))
    else if follows && present masters
    then (if not s.seen_masters
        then ok
            (record s' { output = append_masters (given [] masters) s.output; seen_masters = true })
        else ok s')
    else if master_data && present masters
    then ok s'
    else if bytes_eq sig Signature.snam && (present description && not s.seen_description)
    then ok (record s' {
      output = append_string Signature.snam (given [] description) s.output;
      seen_description = true;
    })
    else ok (record s' { output = s.output ++ frame })

-- `ok_or`
abbrev pub required : {A : Type 0} → Option A → String → Result (Fault CoreError) A
required none context = err (error (unexpected_eof context))
required (some a) context = ok a

-- `start.checked_sub(offset)`
abbrev pub checked_sub : ℕ → ℕ → Option ℕ
checked_sub a b = if leb b a then some (a - b) else none

-- One round of the loop.
unfoldable pub take_subrecord :
    Totals → Option (List (List ℕ)) → Option (List ℕ) → List ℕ → SubRecord → Progress → Step
unfolding take_frame
take_subrecord totals masters description original sr s = elim sr.body [
  | owned bytes ↦
      err (error (invalid_encoding (text "plugin header subrecord has no original byte range")))
  | borrowed buffer start end ↦ (do
    frame ← required (get_range original s.offset end) "plugin header subrecord frame"
    payload_offset ← required (checked_sub start s.offset) "plugin header subrecord payload"
    take_frame totals masters description sr.signature payload_offset frame
        (record s { offset = end }))
]

unfoldable pub take_subrecords :
    Totals → Option (List (List ℕ)) → Option (List ℕ) → List ℕ → List SubRecord → Progress → Step
unfolding take_subrecord
take_subrecords totals masters description original [] s = ok s
take_subrecords totals masters description original (sr ∷ srs) s = do
  s' ← take_subrecord totals masters description original sr s
  take_subrecords totals masters description original srs s'

abbrev pub started : Progress
started = record {
  output = [];
  offset = 0;
  seen_hedr = false;
  seen_masters = false;
  seen_description = false;
  follows_master = false;
}

-- What was asked for and not yet written, and the rest of the payload.
unfoldable pub completed : Option (List (List ℕ)) → Option (List ℕ) → List ℕ → Progress → List ℕ
unfolding append_masters append_string
completed masters description original s =
    let described =
      if present description && not s.seen_description
      then append_string Signature.snam (given [] description) s.output
      else s.output in
    let mastered =
      if present masters && not s.seen_masters
      then append_masters (given [] masters) described
      else described in
    mastered ++ drop s.offset original

abbrev pub masters_of : Option PluginHeaderPatch → Option (List (List ℕ))
masters_of none = none
masters_of (some patch) = patch.masters

abbrev pub description_of_patch : Option PluginHeaderPatch → Option (List ℕ)
description_of_patch none = none
description_of_patch (some patch) = patch.description

module _ (decompress_zlib : List ℕ → ℕ → Result IoError (List ℕ)) where
  unfoldable pub updated_payload :
      Plugin → Option PluginHeaderPatch → Result (Fault CoreError) (List ℕ)
  unfolding take_subrecords completed
  updated_payload plugin patch = do
    totals ←
        count_all (length (given plugin.header.masters (masters_of patch))) plugin.groups
          (max plugin.header.next_object_id 0x801)
    original ← raw_data decompress_zlib plugin.header.main
    srs ← subrecords decompress_zlib plugin.header.main
    s ← take_subrecords totals (masters_of patch) (description_of_patch patch) original srs started
    if not s.seen_hedr
        then err (error (invalid_encoding (text "plugin header has no HEDR subrecord")))
        else ok (completed (masters_of patch) (description_of_patch patch) original s)
