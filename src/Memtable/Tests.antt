-- ===== src/Memtable/Tests.antt =====
-- The theorems on the memtable at concrete inputs, over a list as the tree.
use hcdb.Prelude.{◌<◌, ◌≤◌, ◌≡◌, refl, arith, List, [], ◌∷◌, leb, ◌&&◌, if◌then◌else◌, some, All}
use hcdb.Binary.{Bytes, bytes_equal}
use hcdb.Binary.Uint.{uint}
use hcdb.Binary.Compare.{bytes_compare}
use hcdb.Base.Key.{
  SeqNum, key_found, make_internal_key, encode_new, kind_set, decode_internal_key, seq_num,
  trailer_seq_num, kind, trailer_kind, internal_compare,
}
use hcdb.Versions.{newest_version}
use hcdb.Memtable.{
  Item, BTree, MemTable, insert_ordered, at_or_after, answer_of, get, put, ascend, new_iterator,
}
use hcdb.Memtable.Seek.{IsOrdered, item_key, get-newest_version}
use hcdb.Memtable.Put.{put-get}
use hcdb.Memtable.Scan.{select, in_scan, new_iterator_scan}

abbrev list_tree : BTree
list_tree = record {
  Tree = List Item;
  new_tree = [];
  replace_or_insert = insert_ordered;
  ascend_tree = λ t. t;
  ascend_greater_or_equal = at_or_after;
  ascend_new = refl;
  ascend_insert = λ x t. refl;
  ascend_pivot = λ pivot t. refl;
}

-- Two versions of `a`, a Set at 5 and a Delete at 3, and `b` set at 4.
abbrev three_versions : MemTable (List Item)
three_versions = record {
  tree =
      record { key = 97 ∷ 1 ∷ 5 ∷ 0 ∷ 0 ∷ 0 ∷ 0 ∷ 0 ∷ 0 ∷ []; value = 7 ∷ [] }
      ∷ record { key = 97 ∷ 0 ∷ 3 ∷ 0 ∷ 0 ∷ 0 ∷ 0 ∷ 0 ∷ 0 ∷ []; value = [] }
      ∷ record { key = 98 ∷ 1 ∷ 4 ∷ 0 ∷ 0 ∷ 0 ∷ 0 ∷ 0 ∷ 0 ∷ []; value = 8 ∷ [] }
      ∷ [];
  size = 29;
}

three_versions-IsOrdered : IsOrdered (ascend list_tree three_versions)
unfolding ascend decode_internal_key uint internal_compare bytes_compare kind trailer_kind
three_versions-IsOrdered = record {
  sorted = ((λ r. absurd (cc r), (λ r. absurd (cc r), tt)), ((λ r. absurd (cc r), tt), (tt, tt)));
  kinds = (omega arith, (omega arith, (omega arith, tt)));
}

three_versions_older :
    All (λ y. seq_num (decode_internal_key y.key) < 6) (ascend list_tree three_versions)
unfolding ascend decode_internal_key uint seq_num trailer_seq_num
three_versions_older = (omega arith, (omega arith, (omega arith, tt)))

get-newest_version_example :
    get list_tree (97 ∷ []) 4 three_versions
    ≡ answer_of (newest_version item_key (97 ∷ []) 4 (ascend list_tree three_versions))
get-newest_version_example =
    get-newest_version list_tree (97 ∷ []) 4 three_versions (omega arith) three_versions-IsOrdered

put-get_example :
    let after =
      put list_tree (encode_new (make_internal_key (98 ∷ []) 6 kind_set)) (9 ∷ []) three_versions in
    IsOrdered (ascend list_tree after)
    × ((k : Bytes) (s : SeqNum)
        → s ≤ 72057594037927935
        → get list_tree k s after ≡ (
            if bytes_equal (98 ∷ []) k && leb 6 s
            then (9 ∷ [], key_found)
            else get list_tree k s three_versions))
put-get_example =
    put-get list_tree three_versions (98 ∷ []) (9 ∷ []) 6 (omega arith) three_versions-IsOrdered
      three_versions_older

new_iterator_scan_example :
    new_iterator list_tree (97 ∷ []) (some (97 ∷ [])) 4 three_versions
    ≡ select (in_scan (97 ∷ []) (some (97 ∷ [])) 4) (ascend list_tree three_versions)
new_iterator_scan_example =
    new_iterator_scan list_tree (97 ∷ []) (some (97 ∷ [])) 4 three_versions (omega arith)
      three_versions-IsOrdered
