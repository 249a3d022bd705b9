-- ===== src/Core/Plugin/Runs.antt =====
-- A plugin at a concrete input: a header with its HEDR, and a group with two records.
use bethkit.Prelude.Keys
use bethkit.Prelude.Int
use bethkit.Io.Cursor
use bethkit.Io.Bytes
use bethkit.Core.Types
use bethkit.Core.Record.Subrecords
use bethkit.Core.Record.Lookup
use bethkit.Core.Record.Header
use bethkit.Core.Plugin.Parse
use bethkit.Core.Group.Parse as GroupParse
use bethkit.Core.Group.Data
use bethkit.Prelude.{ℕ, ◌+◌, ◌≤◌, ◌≡◌, ◌⊎◌, refl, List, [], ◌∷◌, ◌++◌, length, none, some}
use bethkit.Prelude.Result.{Result, ok, err}
use bethkit.Prelude.Fault.{error}
use bethkit.Io.Cursor.{IoError, decompress}
use bethkit.Core.Error.{CoreError}
use bethkit.Core.Types.{Game, GameContext}
use bethkit.Core.Record.Data.{Record, raw}
use bethkit.Core.Group.Data.{Group, group, record_child, nil, cons, normal, signature}
use bethkit.Core.Plugin.Data.{Plugin, find_record}
use bethkit.Core.Plugin.Parse.{from_bytes}
use bethkit.Core.Plugin.Tiles.{GroupsTile, from_bytes-GroupsTile}

-- Nothing is compressed here.
abbrev pub no_zlib : List ℕ → ℕ → Result IoError (List ℕ)
no_zlib bytes size = err (decompress "no zlib")

abbrev pub sse : GameContext
sse = record { game = Game.skyrim_se }

abbrev pub hedr_bytes : List ℕ
hedr_bytes = 72 ∷ 69 ∷ 68 ∷ 82 ∷ 12 ∷ 0 ∷ 154 ∷ 153 ∷ 217 ∷ 63 ∷ 3 ∷ 0 ∷ 0 ∷ 0 ∷ 1 ∷ 8 ∷ 0 ∷ 0 ∷ []

abbrev pub head_bytes : List ℕ
head_bytes =
    84 ∷ 69 ∷ 83 ∷ 52 ∷ 18 ∷ 0 ∷ 0 ∷ 0 ∷ 0 ∷ 0 ∷ 0 ∷ 0 ∷ 0 ∷ 0 ∷ 0 ∷ 0 ∷ 0 ∷ 0 ∷ 0 ∷ 0 ∷ 44 ∷ 0 ∷ 0
    ∷ 0 ∷ hedr_bytes

-- A GLOB record without a payload.
abbrev pub glob_bytes : ℕ → List ℕ
glob_bytes id =
    71 ∷ 76 ∷ 79 ∷ 66 ∷ 0 ∷ 0 ∷ 0 ∷ 0 ∷ 0 ∷ 0 ∷ 0 ∷ 0 ∷ id ∷ 8 ∷ 0 ∷ 0 ∷ 0 ∷ 0 ∷ 0 ∷ 0 ∷ 44 ∷ 0 ∷ 0
    ∷ 0 ∷ []

abbrev pub group_bytes : List ℕ
group_bytes =
    71
      ∷ 82
      ∷ 85
      ∷ 80
      ∷ 72
      ∷ 0
      ∷ 0
      ∷ 0
      ∷ 71
      ∷ 76
      ∷ 79
      ∷ 66
      ∷ 0
      ∷ 0
      ∷ 0
      ∷ 0
      ∷ 0
      ∷ 0
      ∷ 0
      ∷ 0
      ∷ 0
      ∷ 0
      ∷ 0
      ∷ 0
      ∷ glob_bytes 0
    ++ glob_bytes 1

abbrev pub file_bytes : List ℕ
file_bytes = head_bytes ++ group_bytes

abbrev pub main_record : Record
main_record = record {
  header = record {
    signature = 84 ∷ 69 ∷ 83 ∷ 52 ∷ [];
    data_size = 18;
    flags = 0;
    form_id = 0;
    version_control = 0;
    form_version = 44;
    unknown = 0;
  };
  source_range = none;
  block = raw hedr_bytes;
  parsed = none;
}

abbrev pub glob : ℕ → ℕ → Record
glob id start = record {
  header = record {
    signature = 71 ∷ 76 ∷ 79 ∷ 66 ∷ [];
    data_size = 0;
    flags = 0;
    form_id = id;
    version_control = 0;
    form_version = 44;
    unknown = 0;
  };
  source_range = some (start, start + 24);
  block = raw [];
  parsed = none;
}

abbrev pub globs : Group
globs =
    group
      (record {
        group_size = 72;
        label = signature (71 ∷ 76 ∷ 79 ∷ 66 ∷ []);
        group_type = normal;
        version_control = 0;
        unknown = 0;
      })
      (some (42, 114)) (cons (record_child (glob 2048 66)) (cons (record_child (glob 2049 90)) nil))

abbrev pub the_plugin : Plugin
the_plugin = record {
  source = file_bytes;
  ctx = sse;
  header = record {
    main = main_record;
    hedr_version = 1071225242;
    record_count = 3;
    next_object_id = 2049;
    masters = [];
    description = none;
  };
  header_range = (0, 42);
  groups = globs ∷ [];
}

pub from_bytes_run : from_bytes no_zlib file_bytes sse ≡ ok the_plugin
unfolding from_bytes Header.parse_header Header.parse_record_header Cursor.read_array
    Cursor.read_u32 Cursor.read_u16 Keys.bytes_eq Cursor.read_slice Header.block_of
    Types.header_signature Lookup.get Subrecords.subrecords Subrecords.parse_subrecords
    Subrecords.subrecords_loop Cursor.is_empty Subrecords.subrecord_step
    Subrecords.read_subrecord_header Data.from_raw Data.label_from_raw GroupParse.after_loop
    GroupParse.parse GroupParse.parse_child GroupParse.parse_children GroupParse.parse_fields
    GroupParse.parse_group_header GroupParse.parse_with Parse.description_of Parse.hedr_of
    Parse.parse_bytes Parse.parse_groups Parse.parse_plugin_header Parse.zstrings Lookup.get_all
    Subrecords.parse_block Subrecords.read_body Types.hedr_version Bytes.from_le_bytes
    Cursor.checked_add Cursor.peek_bytes Cursor.read_i32 Int.signed
from_bytes_run = refl

find_run : find_record the_plugin 2049 ≡ some (glob 2049 90)
unfolding find_record
find_run = refl

from_bytes-GroupsTile_example :
    ((p : Plugin) × (from_bytes no_zlib file_bytes sse ≡ ok p)
      × (p.source ≡ file_bytes)
      × (p.header_range ≡ (0, 24 + p.header.main.header.data_size))
      × (24 + p.header.main.header.data_size ≤ length file_bytes)
      × GroupsTile file_bytes (24 + p.header.main.header.data_size) (length file_bytes) p.groups)
    ⊎ ((e : CoreError) × (from_bytes no_zlib file_bytes sse ≡ err (error e)))
from_bytes-GroupsTile_example = from_bytes-GroupsTile no_zlib file_bytes sse
