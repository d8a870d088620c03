-- ===== src/Config.antt =====
-- config/config.go: the limits and thresholds. The two floating-point inputs of the bloom filter's
-- size are not here: see Bloom.
use hcdb.Prelude.{ℕ, ◌*◌}

abbrev pub max_key_length : ℕ
max_key_length = 1024

abbrev pub max_value_length : ℕ
max_value_length = 1048576

abbrev pub default_memtable_flush_size : ℕ
default_memtable_flush_size = 4 * 1024 * 1024

abbrev pub default_block_size : ℕ
default_block_size = 4096

abbrev pub default_sync_threshold : ℕ
default_sync_threshold = 10

abbrev pub default_compaction_threshold : ℕ
default_compaction_threshold = 4

abbrev pub default_similar_size_ratio : ℕ
default_similar_size_ratio = 2
