-- ===== src/Server/Tests.antt =====
-- The theorems on the server at concrete inputs: a list as the database, and a small store.
use hcdb.Prelude.{
  ℕ, ◌-◌, ◌≤◌, ◌≡◌, refl, ap, arith, List, [], ◌∷◌, ◌++◌, length, take, take-length, none, some,
  Option, ok, err, eof, leb, ◌&&◌, map, if◌then◌else◌, false, All,
}
use hcdb.Binary.{Bytes, bytes, bytes_equal}
use hcdb.Bufio.{Writer, write, flush, write_loop, write_round}
use hcdb.Resp.{
  Value, Values, integer, bulk_string, array, no_values, value, count, encode, encode_all,
  write_value, write_reply,
}
use hcdb.Resp.Decimal.{
  pos, format_nat, format_loop, parse_int, parse_nat, parse_digits, is_digit, positive, negative,
}
use hcdb.Resp.Reader.{
  read, read_value, read_values, read_with, read_typed, read_line, read_string, strip_line,
  read_bulk, read_array, make_slice, number,
}
use hcdb.Binary.Reader.{read_full}
use hcdb.Resp.Shape.{Fits}
use hcdb.Server.{
  Database, do_del, del_loop, dispatch, texts, run_command, do_set, do_get, handle_conn, serve_loop,
}
use hcdb.Server.Stored.{store_database}
use hcdb.Base.Key.{seq_num}
use hcdb.Base.Watermark.{new_watermark}
use hcdb.Bloom.{new_bloom_filter}
use hcdb.Wal.Log.{LogFile}
use hcdb.Memtable.{Item, BTree, insert_ordered, at_or_after}
use hcdb.Sstable.Sort.{insertion_sorter}
use hcdb.Db.Store.{Store, Os}
use hcdb.Server.Serves.{stream, run_all, handle_conn_serves}

abbrev Pairs : Type 0
Pairs = List (Bytes × Bytes)

find : Bytes → Pairs → Option Bytes
find key [] = none
find key ((k, v) ∷ pairs) = let rest = find key pairs in if bytes_equal k key then some v else rest

without : Bytes → Pairs → Pairs
without key [] = []
without key ((k, v) ∷ pairs) =
    let rest = without key pairs in if bytes_equal k key then rest else (k, v) ∷ rest

abbrev pairs_db : Database
pairs_db = record {
  State = Pairs;
  get = find;
  put = λ k v d. (none, (k, v) ∷ d);
  delete = λ k d. (none, without k d);
  scan = λ lower upper d. ok d;
  error_text = λ e. bytes "failed";
}

abbrev stored : Pairs
stored = (bytes "a", bytes "1") ∷ (bytes "b", bytes "2") ∷ []

-- One key twice, and one that is not there.
del_counts_once :
    (do_del pairs_db (bytes "a" ∷ bytes "z" ∷ bytes "a" ∷ []) stored).0 ≡ integer (pos 1)
unfolding do_del del_loop find without bytes_equal
del_counts_once = refl

abbrev upper : ℕ → ℕ
upper c = if leb b'a' c && leb c b'z' then c - 32 else c

abbrev memory_le : (p : Bytes) → length p ≤ length p
memory_le p = omega arith

memory_content_after : (p s : Bytes) → s ++ p ≡ s ++ take (length p) p
memory_content_after p s = ap (λ (l : Bytes). s ++ l) (rw take-length)

abbrev memory : Writer
memory = record {
  State = Bytes;
  write_to = λ p s. record { count = length p; error = none; after = s ++ p };
  content = λ s. s;
  count_le = λ p s. memory_le p;
  count_eq = λ p s e. refl;
  content_after = λ p s. memory_content_after p s;
}

abbrev list_tree : BTree
list_tree = record {
  Tree = List Item;
  new_tree = [];
  replace_or_insert = insert_ordered;
  ascend_tree = λ t. t;
  ascend_greater_or_equal = at_or_after;
  ascend_new = refl;
  ascend_insert = λ x t. refl;
  ascend_pivot = λ pivot t. refl;
}

abbrev log_file : LogFile
log_file = record { writer = memory; fsync = λ s. (none, s); content_fsync = λ s. refl }

abbrev calm : Os log_file
calm = record {
  flush_error = none;
  flush_path = bytes "1";
  truncate = λ s. (none, []);
  seek = λ s. (none, s);
  disk = record {
    file_size = λ t. length t.file;
    merged_path = λ ts. bytes "2";
    write_error = λ p. none;
    remove_error = λ p. none;
    bloom = new_bloom_filter 24 3;
    sorter = insertion_sorter;
  };
}

abbrev one_item : Item
one_item = record { key = 97 ∷ 1 ∷ 1 ∷ 0 ∷ 0 ∷ 0 ∷ 0 ∷ 0 ∷ 0 ∷ []; value = 7 ∷ [] }

-- A store with a value under one key.
abbrev small_store : Store (List Item) Bytes
small_store = record {
  wal = record { buf_writer = record { buffer = []; error = none; under = [] }; put_counter = 0 };
  memtable = record { tree = one_item ∷ []; size = 10 };
  sstables = [];
  seq_num = 1;
  watermark = new_watermark;
}

abbrev small_db : Database
small_db = store_database list_tree log_file calm 9 (λ e. bytes "failed")

abbrev words : List Bytes → Values
words [] = no_values
words (w ∷ ws) = value (bulk_string w) (words ws)

abbrev two_commands : List Value
two_commands =
    array (words (bytes "set" ∷ bytes "k" ∷ bytes "v" ∷ []))
    ∷ array (words (bytes "GET" ∷ bytes "k" ∷ []))
    ∷ []

two_commands-Fits : All Fits two_commands
unfolding count
two_commands-Fits = (
  (omega arith, (omega arith, (omega arith, (omega arith, tt)))),
  ((omega arith, (omega arith, (omega arith, tt))), tt),
)

all_taken :
    (handle_conn pairs_db (map upper) memory (stream two_commands ++ []) [] []).0.error ≡ none
unfolding handle_conn serve_loop stream encode encode_all count format_nat format_loop read
    read_value read_values read_with read_typed read_line read_string strip_line read_bulk
    read_array make_slice number read_full parse_int parse_nat parse_digits is_digit positive
    negative dispatch texts run_command do_set do_get find bytes_equal write_reply write_value write
    write_loop write_round flush
all_taken = refl

nothing_more : read [] ≡ err eof
unfolding read read_value read_with read_line read_string
nothing_more = refl

handle_conn_serves_example :
    let (b, last, panicked) =
      handle_conn pairs_db (map upper) memory (stream two_commands ++ []) [] [] in
    (b.under ≡ [] ++ stream (run_all pairs_db (map upper) two_commands []).0)
    × (last ≡ (run_all pairs_db (map upper) two_commands []).1)
    × (panicked ≡ false)
handle_conn_serves_example =
    handle_conn_serves pairs_db (map upper) memory two_commands [] eof [] [] two_commands-Fits
      nothing_more all_taken
