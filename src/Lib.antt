-- ===== src/Lib.antt =====
-- hcdb, an LSM-tree key-value store: a write-ahead log, a memtable, sorted tables on disk with
-- bloom filters, and snapshots that pin sequence numbers.
--
-- How the program fits together. db.Put gives a write a sequence number, packs it with the kind
-- of the write into an internal key, appends it to the log and inserts it in the memtable. A full
-- memtable is flushed to a table; compaction merges tables of similar size. A read looks for the
-- newest version that its snapshot can see, in the memtable and then in the tables. Opening the
-- store replays the log. A server reads commands in the RESP format from a connection, runs them on
-- the store and writes the replies.
--
-- Which file models which part:
--   Config               config/config.go
--   Base.Key             internal/base/internal.go, lookup.go: InternalKey and its trailer
--   Base.Watermark       internal/base/watermark.go: Begin, Done, Floor
--   Wal.Record           wal/wal_types.go, append.go: Entry and the bytes of a record
--   Wal.Log              wal/append.go, operators.go, sync.go, open.go: Append, Put, Delete, Sync
--   Wal.Replay           wal/replay.go: Replay
--   FaultInjection       faultinjection/faulty_writer.go
--   Bloom                bloomfilter/*.go: Add, MightContain, Serialize, Deserialize
--   Sstable.Block        sstable/block.go: encodeBlock, decodeBlock
--   Sstable.Index        sstable/index.go: encodeIndex, decodeIndex, the footer, searchIndex
--   Sstable.Sort         sstable/sort_entries.go: SortEntries
--   Sstable.Table        sstable/writer.go, write_from_entries.go, write_block_collector.go,
--                        reader.go, block_iterator.go: a whole table, written and read back
--   Sstable.Iterator     sstable/iterator.go, and Lookup of sstable.go
--   Sstable.Disk         the files that Flush and WriteSSTableFromBlockEntries leave
--   Memtable             memtable/memtable.go, iterator.go: Get, Put, Delete, Ascend, NewIterator
--   Cache                cache/*.go: the LRU and its shards
--   Db                   db/db.go: rebuildMemtable
--   Db.Store             db/operations.go, types.go, db.go: reads, writes, snapshots, the flush
--   Db.Open              db/db.go: Open; sstable/reader.go: OpenAllInDir
--   Db.Scan              db/iterator.go: ScanAt and Next; memtable/iterator.go: the position
--   Compaction.Group     compaction/is_similar_size.go, group_by_similar_size.go
--   Compaction.Merge     compaction/merge.go: mergeIterators
--   Compaction.Compact   compaction/compact.go: Compact; merge.go: mergeGroup
--   Resp                 resp/*.go: the values of the protocol, Read and Write
--   Server               server/dispatch.go, and handleConn of server.go; Server.Stored joins it to
--                        the store
-- Prelude holds the shared notation and lemmas. Binary and Bufio model what the code uses of Go's
-- standard library: encoding/binary, bytes.Compare, io.ReadFull, hash/crc32, hash/fnv, and
-- bufio.Writer over an io.Writer. The io.Writer is an interface, a record of operations and the
-- laws of io.Writer's contract; FaultInjection is one instance of it. sort.Slice is a Sorter, a
-- record with the laws of sorting, as it need not be stable; insertion is one instance. Versions is
-- the specification of a read at a snapshot, which the code that answers reads is compared with.
-- The B-tree of the memtable, a library, is a record of its three operations with the laws that its
-- documentation states; a list in order is one instance. What the operating system answers to the
-- store is a record (Os, OpenOs), and so is the database that the server talks to (Database).
--
-- Correspondence. A []byte is a list of natural numbers. A machine integer is a natural number
-- with its wrap-around written out (`% 2 ^ w`); an int64 offset is not negative. A file is its
-- bytes. State that a method mutates is passed in and returned. An operation that can fail returns
-- an Option or a Result. A run-time panic is an error of its own kind (is_panic); it ends the
-- callers as nothing in the program recovers from one. A map is an association list. Messages that are printed are left out.
--
-- Loops and fuel. A Go range loop is structural recursion. Replay, searchIndex and
-- groupBySimilarSize run on fuel. A round of Replay that goes on takes at least four bytes of the
-- file, so its length and one are enough; a round of searchIndex leaves fewer entries, so their
-- number is enough; a round of groupBySimilarSize takes one table off. The loop of
-- bufio.Writer.Write ends within two rounds. The loops of a table's iterator take one entry in a
-- round: the entries that are left are enough, and Db gives them the length of the file. Read of
-- resp takes a byte or goes one array deeper, so twice the length of the input and one are enough;
-- handleConn takes at least one byte for a command, so the length of its input and one are enough.
-- Every round of a scan's loops takes an entry off a source, so the entries within the scan are
-- enough, and one more for the walk to its end; container/heap is a list in the order of Less, which
-- orders any two items.
--
-- Not modelled. The floating point of findOptimalParamsValues: the size of a filter and the number
-- of its hashes are parameters. Which call of the operating system fails while a table is written
-- (one parameter says whether the table is there), and the rename and fsync of atomicInstall. The
-- block cache as part of reading a block: Cache models it alone, and Open does not make one.
-- The limits of memory and of the stack. Listening, accepting, the set of live connections and cmd.
-- The default case of resp's write, for a value that no code makes.
pub mod Prelude
pub mod Binary
pub mod Bufio
pub mod FaultInjection
pub mod Config
pub mod Base
pub mod Wal
pub mod Bloom
pub mod Sstable
pub mod Versions
pub mod Memtable
pub mod Cache
pub mod Db
pub mod Compaction
pub mod Resp
pub mod Server
