-- ===== src/Lib.antt =====
-- bethkit: reading and writing the plugin, string-table and archive formats of Bethesda games.
--
-- Io models crates/bethkit-io. Io/Cursor is crates/bethkit-io/src/cursor.rs, the bounds-checked
-- cursor that every parser goes through: its `&mut self` methods are actions on the record
-- SliceCursor, which return the state beside the value or the error. Io/Bytes is the little-endian
-- encoding of integers.
--
-- Core models crates/bethkit-core, and its files stand for those of crates/bethkit-core/src:
-- * Core/Types is types.rs (FormIDs, plugin kinds, games) and Core/Error error.rs.
-- * Core/LoadOrder is load_order.rs (LoadOrder::push, LoadOrder::resolve).
-- * Core/Strings is strings.rs: Table has the operations in memory, Directory and Payload the
--   parsers, Write the serialiser.
-- * Core/Record is record.rs: Header has RecordHeader::parse and Record::parse_header, Subrecords
--   the loop of parse_subrecords with its XXXX override, Lookup the accessors.
-- * Core/Group is group.rs: Parse has Group::parse and parse_children, Iterate the iterators.
-- * Core/Plugin is plugin.rs: Parse has PluginHeader::parse, Plugin::parse_bytes and
--   Plugin::from_bytes, Data the lookups.
-- * Core/Patcher is patcher.rs and patcher_header.rs: Data and Order have the methods that register
--   edits, Marks mark_touched and mark_reordered, Write the groups, Totals and Payload
--   updated_payload, WriteTo write_updated and PluginPatcher::write_to. Walk is what the output is
--   compared with, and Accepted and Counts are about reorder_group_records and the loop over groups.
-- * Core/Cache is cache.rs: Data has PluginCache::add and the lookups, EditorIds the search by
--   EditorID, Index what the two indexes hold.
-- * Core/Writer is writer.rs, and Record::from_writable of record.rs: Data has subrecords and
--   records, Groups the groups, Plugin PluginWriter and its TES4 record, Eslify
--   PluginWriter::eslify and the rewriting of FormIDs.
--
-- Schema models crates/bethkit-schema: Schema/Expression/Evaluate is the evaluator of
-- crates/bethkit-schema/src/expression.rs, whose state is the number of operations that remain, and
-- Schema/Expression/Validate is validate_expression_fields of crates/bethkit-schema/src/package.rs.
--
-- Bsa models crates/bethkit-bsa: Bsa/Hash is crates/bethkit-bsa/src/hash.rs, Crc is about hash_fo4,
-- Sdbm and Words about hash_tes4_file and Split about split_name_ext.
--
-- The parsers read through Io/Cursor, groups parse their records through Core/Record, and the writer
-- is compared with the parsers of the bytes that it writes.
--
-- Bytes are numbers below 256, a `usize` is a number below 2 ^ 64 and a slice has fewer than 2 ^ 63
-- bytes, as the language guarantees. A borrowed slice is the range that it covers. Casts keep their
-- remainder, and so does the one sum of hash_tes4_file that is not written as wrapping. Hash maps are association lists with one entry for a key (Prelude/Dict), and B-tree
-- maps ascending association lists (Prelude/SortedMap). Loops are structural, over a list or over
-- the count that the file announces, but for five, which run on fuel. The loop over subrecords has
-- one unit for each byte of the buffer and one more, and a round takes six bytes at least. So has
-- the loop over a plugin's groups, and a group takes 24 bytes at least. The loop of updated_payload
-- has one unit for each group of the tree and one more, and a round takes a group off the stack.
-- Group::parse has one unit for each byte of the slice and one more, and each child and each level
-- of nesting takes 24 bytes. The loop of RecordsIter takes one round for each child and one for each
-- vector of children. A record's cells that cache a parsed or decompressed block are left out: each
-- call computes what the cell would hold.
--
-- Parameters: the language's Unicode `to_lowercase` is an argument of the load order and of the
-- cache, which also takes the string of bytes that are valid UTF-8, and the zlib decompression is an
-- argument of the accessors of a record and of all that uses them.
--
-- Not modelled: opening, mapping and writing files, decompression and text decoding (third-party
-- code), the stack of WritableRecordIter (writer.rs), whose list of records iter_writable_records
-- is, the C bindings, the packages and
-- models of the schema crate, the semantic crate, and the archives themselves.
pub mod Prelude
pub mod Io
pub mod Core
pub mod Bsa
pub mod Schema
