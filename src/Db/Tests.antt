-- ===== src/Db/Tests.antt =====
-- The theorem on the recovery of the memtable at concrete inputs.
use hcdb.Prelude.{◌≤◌, ◌≡◌, refl, arith, List, [], ◌∷◌, ◌++◌, All, some, none, drop}
use hcdb.Binary.{Bytes}
use hcdb.Binary.Uint.{put_uint, uint}
use hcdb.Base.Key.{
  SeqNum, decode_internal_key, seq_num, trailer_seq_num, kind, trailer_kind, seq_num_max,
}
use hcdb.Wal.Record.{Entry, IsStorable, write_data_buff, total_length, record_bytes}
use hcdb.Wal.Replay.Torn.{log, IsTorn, torn}
use hcdb.Memtable.{Item, BTree, get, ascend, insert_ordered, at_or_after}
use hcdb.Memtable.Seek.{IsOrdered}
use hcdb.Db.{Rebuilt, rebuild_memtable}
use hcdb.Db.Rebuild.{IsIncreasing, last_version, answer_of_entry, rebuild_memtable-get}

abbrev list_tree : BTree
list_tree = record {
  Tree = List Item;
  new_tree = [];
  replace_or_insert = insert_ordered;
  ascend_tree = λ t. t;
  ascend_greater_or_equal = at_or_after;
  ascend_new = refl;
  ascend_insert = λ x t. refl;
  ascend_pivot = λ pivot t. refl;
}

-- Set `k` to two bytes, then delete it.
abbrev set_entry : Entry
set_entry = record { key = 107 ∷ 1 ∷ 1 ∷ 0 ∷ 0 ∷ 0 ∷ 0 ∷ 0 ∷ 0 ∷ []; value = 118 ∷ 118 ∷ [] }

abbrev delete_entry : Entry
delete_entry = record { key = 107 ∷ 0 ∷ 2 ∷ 0 ∷ 0 ∷ 0 ∷ 0 ∷ 0 ∷ 0 ∷ []; value = [] }

abbrev two_writes : List Entry
two_writes = set_entry ∷ delete_entry ∷ []

two_writes-IsStorable : All IsStorable two_writes
two_writes-IsStorable = (
  record { key_fits = omega arith; value_fits = omega arith },
  (record { key_fits = omega arith; value_fits = omega arith }, tt),
)

two_writes-IsIncreasing : IsIncreasing 0 two_writes
unfolding decode_internal_key uint seq_num trailer_seq_num kind trailer_kind
two_writes-IsIncreasing = (omega arith, (omega arith, (omega arith, (omega arith, tt))))

abbrev half_length : Bytes
half_length = 23 ∷ 0 ∷ []

half_length-IsTorn : IsTorn half_length
unfolding record_bytes write_data_buff total_length put_uint
half_length-IsTorn =
    torn set_entry 23 (0 ∷ []) 0 (drop 3 (record_bytes set_entry)) two_writes-IsStorable.0 refl

rebuild_memtable-get_example :
    (r : Rebuilt list_tree) × (rebuild_memtable list_tree (log two_writes ++ half_length) ≡ some r)
    × IsOrdered (ascend list_tree r.mem)
    × All (λ y. seq_num (decode_internal_key y.key) ≤ r.max_seq) (ascend list_tree r.mem)
    × ((k : Bytes) (s : SeqNum)
        → s ≤ seq_num_max
        → get list_tree k s r.mem ≡ answer_of_entry (last_version k s none two_writes))
rebuild_memtable-get_example =
    rebuild_memtable-get list_tree two_writes half_length two_writes-IsStorable half_length-IsTorn
      two_writes-IsIncreasing
