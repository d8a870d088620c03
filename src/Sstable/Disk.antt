-- ===== src/Sstable/Disk.antt =====
-- sstable/writer.go and write_from_entries.go: a table with its file, and the errors of the
-- operating system on the way to it. Either writer that meets one removes its temporary file.
use hcdb.Prelude.{List, Option, none, some, Result, ok, err, Error}
use hcdb.Binary.{Bytes}
use hcdb.Bloom.{BloomFilter}
use hcdb.Sstable.Block.{BlockEntry}
use hcdb.Sstable.Table.{SsTable, flush_table, write_from_block_entries}

-- An SSTable, with the bytes of the file at FilePath, which nothing writes to again.
pub record DiskTable : Type 0 where
  pub file_path : Bytes
  pub file : Bytes
  pub sst : SsTable

abbrev pub installed : Bytes → Bytes × SsTable → DiskTable
installed path (file, sst) = record { file_path = path; file = file; sst = sst }

-- `failure` is the first error that a call of the operating system returns.
unfoldable pub flush_to : Option Error → Bytes → BloomFilter → List BlockEntry → Result DiskTable
flush_to none path bloom entries = ok (installed path (flush_table bloom entries))
flush_to (some e) path bloom entries = err e

unfoldable pub write_to : Option Error → Bytes → BloomFilter → List BlockEntry → Result DiskTable
write_to none path bloom entries = ok (installed path (write_from_block_entries bloom entries))
write_to (some e) path bloom entries = err e
