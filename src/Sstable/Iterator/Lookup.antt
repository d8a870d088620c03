-- ===== src/Sstable/Iterator/Lookup.antt =====
-- Lookup (sstable/sstable.go).
use hcdb.Prelude.{
  ℕ, ◌≤◌, ◌<◌, ◌≡◌, ◌≢◌, refl, sym, subst, ap, ◌∙◌, arith, List, [], ◌∷◌, ◌++◌, length, take, drop,
  Bool, ◌==◌, if◌then◌else◌, true, false, Option, none, some, inl, inr, Bool-cases, All, ok, err,
  Error, Result, ◌>>=◌, get_elem?, Ordering, Option-cases, Ordering-cases, length-append,
}
use hcdb.Binary.{Bytes, bytes_equal, bytes_equal→eq}
use hcdb.Binary.Compare.{bytes_compare}
use hcdb.Base.Key.{
  SeqNum, KeyLookup, key_absent, key_found, key_deleted, InternalKey, decode_internal_key,
  internal_compare, kind, kind_delete, kind_max, seq_num_max,
}
use hcdb.Base.Key.Order.{key_compare-lt_trans, key_compare-eq, key_compare-flip}
use hcdb.Bloom.{might_contain}
use hcdb.Versions.{is_version, newest_version}
use hcdb.Versions.Newest.{IsSorted, All-map, none_read}
use hcdb.Memtable.{Item, item_compare, less, encode_search_key}
use hcdb.Memtable.Seek.{pivot_of, passed_over, lands_on, other_hidden, other_user_behind}
use hcdb.Sstable.Block.{BlockEntry}
use hcdb.Sstable.Index.{search_index, first_key_at}
use hcdb.Sstable.Index.Search.{counted, search_index_lem}
use hcdb.Sstable.Sort.{entry_key}
use hcdb.Sstable.Table.{SsTable, user_key_of}
use hcdb.Sstable.Table.Blocks.{Block, blocks_entries}
use hcdb.Sstable.Iterator.{
  Iterator, current, current_key, first_block, encode_search_key_at, load_block, found_at,
  new_iterator, lookup,
}
use hcdb.Sstable.Iterator.Readable.{IsInRange, left, readable, advance-left}
use hcdb.Sstable.Iterator.Seeks.{
  drop_while, is_before, is_invisible, start_block, unset, seek_key_of, Opens, opened, failed,
  new_iterator-Opens,
}
use hcdb.Sstable.Iterator.Blocks.{
  IsStrict, IsBlocks, readable-IsBlocks, IsBlocks-drop, blocks_entries-split, IsStrict-IsAscending,
  before_block, IsBlocks-reads,
}

-- What Lookup says of an entry that it found, or of none.
unfoldable pub entry_answer : Option BlockEntry → Bytes × KeyLookup
entry_answer none = ([], key_absent)
entry_answer (some e) =
    if kind (decode_internal_key e.key) == kind_delete
    then ([], key_deleted)
    else (e.value, key_found)

-- The first entry, if it has the user key.
abbrev pub head_version : Bytes → List BlockEntry → Option BlockEntry
head_version k [] = none
head_version k (e ∷ es) =
    if bytes_equal (decode_internal_key e.key).user_key k then some e else none

found_at-current :
    (k : Bytes) (it : Iterator)
    → it.valid ≡ true
    → found_at k it
      ≡ entry_answer (if bytes_equal (current_key it).user_key k then some (current it) else none)
unfolding found_at entry_answer
found_at-current k it valid = ground (arith, valid)

pub found_at-left :
    (file : Bytes) (sst : SsTable) (k : Bytes) (it : Iterator)
    → IsInRange it
    → found_at k it ≡ entry_answer (head_version k (left file sst it))
unfolding found_at left entry_answer
found_at-left file sst k it h = elim (Bool-cases it.valid) [
  | inr invalid ↦ rw (found_at, left, invalid) refl
  | inl valid ↦
      let step = (advance-left file sst it valid h).steps in rw (step) (found_at-current k it valid)
]

abbrev pub as_item : BlockEntry → Item
as_item e = record { key = e.key; value = e.value }

pub is_before-less :
    (k : Bytes) (s : SeqNum) (e : BlockEntry)
    → is_before (seek_key_of k s) e ≡ less (as_item e) (pivot_of k s)
unfolding is_before less item_compare encode_search_key_at encode_search_key
is_before-less k s e = refl

other_heads :
    (k : Bytes) (test : BlockEntry → Bool) (es : List BlockEntry)
    → All (λ (e : BlockEntry). bytes_equal (decode_internal_key e.key).user_key k ≡ false) es
    → head_version k (drop_while test es) ≡ none
unfolding drop_while
other_heads k test [] h = refl
other_heads k test (e ∷ es) h = elim (Bool-cases (test e)) [
  | inl passed ↦ rw (drop_while, passed) (other_heads k test es h.1)
  | inr stays ↦ rw (drop_while, stays) (rw h.0 refl)
]

shown_version :
    (k : Bytes) (s : SeqNum) (e : BlockEntry)
    → is_version k s e.key ≡ true
    → is_invisible s e ≡ false
unfolding is_version is_invisible
shown_version k s e h = ground (arith, h)

-- On entries in order the two loops find the newest visible version.
pub head_version-newest_version :
    (k : Bytes) (s : SeqNum) (es : List BlockEntry)
    → s ≤ seq_num_max
    → All (λ (e : BlockEntry). kind (decode_internal_key e.key) ≤ kind_max) es
    → IsSorted entry_key es
    → head_version k (drop_while (is_invisible s) (drop_while (is_before (seek_key_of k s)) es))
      ≡ newest_version entry_key k s es
unfolding drop_while newest_version
head_version-newest_version k s [] le kinds sorted = refl
head_version-newest_version k s (e ∷ es) le kinds sorted =
    elim (Bool-cases (less (as_item e) (pivot_of k s))) [
      | inl before ↦
          rw
            (
              drop_while,
              is_before-less k s e,
              before,
              newest_version,
              passed_over k s (as_item e) le kinds.0 before,
            )
            (head_version-newest_version k s es le kinds.1 sorted.1)
      | inr landed ↦ elim (Bool-cases (bytes_equal (decode_internal_key e.key).user_key k)) [
        | inl same ↦
            let here = lands_on k s (as_item e) le kinds.0 landed same in
            rw
              (
                drop_while,
                is_before-less k s e,
                landed,
                drop_while,
                shown_version k s e here,
                newest_version,
                here,
              )
              (rw same refl)
        | inr other ↦
            let others : All
                (λ (y : BlockEntry). bytes_equal (decode_internal_key y.key).user_key k ≡ false)
                (e ∷ es) =
              (
                other,
                All-map entry_key
                    (λ y. other_user_behind k s (as_item e) (as_item y) le landed other) es
                    sorted.0,
              ) in
            rw (drop_while, is_before-less k s e, landed)
              (other_heads k (is_invisible s) (e ∷ es) others
                ∙ sym (
                    none_read entry_key k s (e ∷ es)
                      (All-map entry_key (λ y. other_hidden k s (as_item y)) (e ∷ es) others)))
      ]
    ]

-- The table has these entries: in blocks that can be read, in order, of kind Set or Delete, and in
-- the filter.
pub record IsTable (file : Bytes) (sst : SsTable) (es : List BlockEntry) : Type 0 where
  pub blocks : List Block
  pub in_blocks : es ≡ blocks_entries blocks
  pub reads : IsBlocks file sst.index blocks
  pub strict : IsStrict es
  pub kinds : All (λ (e : BlockEntry). kind (decode_internal_key e.key) ≤ kind_max) es
  pub filtered : All (λ e. might_contain sst.bloom (user_key_of e) ≡ true) es

strict_sorted :
    (x y : BlockEntry)
    → internal_compare bytes_compare (decode_internal_key x.key) (decode_internal_key y.key)
      ≡ Ordering.lt
    → internal_compare bytes_compare (decode_internal_key y.key) (decode_internal_key x.key)
      ≢ Ordering.lt
strict_sorted x y h back =
    ground
      (arith, key_compare-flip (decode_internal_key x.key) (decode_internal_key y.key), h, back)

pub IsStrict-IsSorted : (es : List BlockEntry) → IsStrict es → IsSorted entry_key es
IsStrict-IsSorted [] h = tt
IsStrict-IsSorted (e ∷ es) h =
    (All-map entry_key (strict_sorted e) es h.0, IsStrict-IsSorted es h.1)

drop_while-append :
    (test : BlockEntry → Bool) (xs ys : List BlockEntry)
    → All (λ e. test e ≡ true) xs
    → drop_while test (xs ++ ys) ≡ drop_while test ys
unfolding drop_while
drop_while-append test [] ys h = refl
drop_while-append test (x ∷ xs) ys h = rw (drop_while, h.0) (drop_while-append test xs ys h.1)

not_filtered :
    (k : Bytes) (s : SeqNum) (sst : SsTable) (e : BlockEntry)
    → might_contain sst.bloom k ≡ false
    → might_contain sst.bloom (user_key_of e) ≡ true
    → is_version k s e.key ≡ false
unfolding is_version
not_filtered k s sst e denied passes = elim (Bool-cases (bytes_equal (user_key_of e) k)) [
  | inr other ↦ rw (is_version, other) refl
  | inl same ↦ absurd (
      cc (
        denied,
        passes,
        ap (λ u. might_contain sst.bloom u) (bytes_equal→eq (user_key_of e) k same),
      ))
]

module _ (file : Bytes) (sst : SsTable) (k : Bytes) where
  abbrev pub answer_from : Result Iterator → Result (Bytes × KeyLookup)
  answer_from r = do it ← r; ok (found_at k it)

  pub opened_answer :
      (left_over : List BlockEntry) (first r : Result Iterator)
      → ((e : Error) → first ≡ err e → ⊥)
      → Opens file sst left_over first r
      → answer_from r ≡ ok (entry_answer (head_version k left_over))
  opened_answer left_over first r reads (opened it e range) =
      ap (λ a. ok a)
        (found_at-left file sst k it range ∙ ap (λ l. entry_answer (head_version k l)) e)
  opened_answer left_over first r reads (failed e fails) = absurd (reads e fails)

module _ (file : Bytes) (sst : SsTable) (es : List BlockEntry) (t : IsTable file sst es) (k : Bytes)
    (s : SeqNum) where
  -- What sorts before a key at or before the sought one is passed over.
  below :
      (first : InternalKey) (e : BlockEntry)
      → internal_compare bytes_compare first (seek_key_of k s) ≢ Ordering.gt
      → internal_compare bytes_compare (decode_internal_key e.key) first ≡ Ordering.lt
      → is_before (seek_key_of k s) e ≡ true
  unfolding is_before
  below first e le lt =
      let mine = decode_internal_key e.key in
      let same : internal_compare bytes_compare mine (seek_key_of k s) ≡ Ordering.lt =
        elim (Ordering-cases (internal_compare bytes_compare first (seek_key_of k s))) [
          | inl less_than ↦ key_compare-lt_trans mine first (seek_key_of k s) lt less_than
          | inr (inl eq) ↦
              subst (λ c. internal_compare bytes_compare mine c ≡ Ordering.lt)
                (key_compare-eq first (seek_key_of k s) eq) lt
          | inr (inr gt) ↦ absurd (le gt)
        ] in
      rw (is_before, same) refl

  -- The search skips only blocks that the loop would have passed over.
  skipped :
      (r : Option ℕ)
      → (counted r ≤ length sst.index)
      → ((i : ℕ)
          → i < length sst.index
          → i < counted r
          → internal_compare bytes_compare (first_key_at sst.index i) (seek_key_of k s)
            ≢ Ordering.gt)
      → All
          (λ e. is_before (seek_key_of k s) e ≡ true)
          (blocks_entries (take (first_block r) t.blocks))
  skipped none range h = tt
  skipped (some i) range h =
      All-map entry_key (λ e. below (first_key_at sst.index i) e (h i (omega arith) (omega arith)))
        (blocks_entries (take i t.blocks))
        (before_block file i sst.index t.blocks t.reads (subst IsStrict t.in_blocks t.strict)
          (omega arith))

  abbrev start : ℕ
  start = start_block file sst k s

  entries_split : es ≡ blocks_entries (take start t.blocks) ++ blocks_entries (drop start t.blocks)
  entries_split = t.in_blocks ∙ blocks_entries-split start t.blocks

  abbrev pub rest_entries : List BlockEntry
  rest_entries = readable file (drop start sst.index)

  rest_of_blocks : rest_entries ≡ blocks_entries (drop start t.blocks)
  rest_of_blocks =
      readable-IsBlocks file (drop start sst.index) (drop start t.blocks)
        (IsBlocks-drop file start sst.index t.blocks t.reads)

  fewer_left : length rest_entries ≤ length es
  fewer_left = omega (
    arith,
    ap (λ (l : List BlockEntry). length l) rest_of_blocks,
    ap (λ (l : List BlockEntry). length l) entries_split,
    length-append (blocks_entries (take start t.blocks)) (blocks_entries (drop start t.blocks)),
  )

  before_rest :
      drop_while (is_before (seek_key_of k s)) rest_entries
      ≡ drop_while (is_before (seek_key_of k s)) es
  before_rest =
      let found = search_index_lem sst.index (encode_search_key_at k s) (
        IsStrict-IsAscending file sst.index t.blocks t.reads
          (subst IsStrict t.in_blocks t.strict)) in
      ap (drop_while (is_before (seek_key_of k s))) rest_of_blocks
      ∙ sym (
          drop_while-append (is_before (seek_key_of k s)) (blocks_entries (take start t.blocks))
            (blocks_entries (drop start t.blocks))
            (skipped (search_index sst.index (encode_search_key_at k s)) found.0
              (λ i range lt. (found.1 i range).0 lt)))
      ∙ ap (drop_while (is_before (seek_key_of k s))) (sym entries_split)

  first_reads :
      (it : Iterator) (e : Error) → it.block_idx ≡ start → load_block file sst it ≡ err e → ⊥
  unfolding load_block
  first_reads it e at fails = elim (Option-cases (get_elem? sst.index it.block_idx)) [
    | inl past ↦ absurd (cc (rw (load_block, past) at fails))
    | inr (idx, here) ↦
        (let (b, reads) = IsBlocks-reads file sst.index t.blocks it.block_idx idx t.reads here in
          absurd (cc (rw (load_block, here, reads) at fails)))
  ]

  -- The iterator that NewIterator returns, and what it has left.
  pub record Starts (fuel : ℕ) : Type 0 where
    pub it : Iterator
    pub starts : new_iterator file sst fuel k s ≡ ok it
    pub left_over :
        left file sst it ≡ drop_while (is_invisible s) (drop_while (is_before (seek_key_of k s)) es)
    pub in_range : IsInRange it

  opened-Starts :
      (fuel : ℕ) (rest : List BlockEntry) (first : Result Iterator)
      → drop_while (is_invisible s) (drop_while (is_before (seek_key_of k s)) es) ≡ rest
      → ((e : Error) → first ≡ err e → ⊥)
      → (r : Result Iterator) → Opens file sst rest first r
      → new_iterator file sst fuel k s ≡ r
      → Starts fuel
  opened-Starts fuel rest first same reads _ (opened it e range) is = record {
    it = it;
    starts = is;
    left_over = e ∙ sym same;
    in_range = range;
  }
  opened-Starts fuel rest first same reads _ (failed e fails) is = absurd (reads e fails)

  pub new_iterator-Starts : (fuel : ℕ) → length es ≤ fuel → Starts fuel
  new_iterator-Starts fuel enough =
      opened-Starts fuel
        (drop_while (is_invisible s) (drop_while (is_before (seek_key_of k s)) rest_entries))
        (load_block file sst (unset file sst k s))
        (ap (λ l. drop_while (is_invisible s) l) (sym before_rest))
        (λ e. first_reads (unset file sst k s) e refl) (new_iterator file sst fuel k s)
        (new_iterator-Opens file sst fuel k s (omega (arith, enough, fewer_left))) refl

  -- A table whose blocks can be read and hold these entries, in strict order, of kind Set or Delete, with the user key of each in the filter, and fuel for that many rounds. A Lookup returns no error and answers with the first entry that is a version of the user key and that the snapshot sees: its value, that it is a tombstone, or that there is none.
  pub lookup-newest_version :
      (fuel : ℕ)
      → s ≤ seq_num_max
      → length es ≤ fuel
      → lookup file sst fuel k s ≡ ok (entry_answer (newest_version entry_key k s es))
  unfolding lookup entry_answer
  lookup-newest_version fuel le enough = elim (Bool-cases (might_contain sst.bloom k)) [
    | inr absent ↦
        rw
          (
            lookup,
            absent,
            none_read entry_key k s es
                (All-map entry_key (λ e. not_filtered k s sst e absent) es t.filtered),
          )
          refl
    | inl passes ↦
        rw (lookup, passes)
          (opened_answer file sst k
              (drop_while (is_invisible s) (drop_while (is_before (seek_key_of k s)) rest_entries))
              (load_block file sst (unset file sst k s)) (new_iterator file sst fuel k s)
              (λ e. first_reads (unset file sst k s) e refl)
              (new_iterator-Opens file sst fuel k s (omega (arith, enough, fewer_left)))
            ∙ ap (λ l. ok (entry_answer (head_version k (drop_while (is_invisible s) l))))
                before_rest
            ∙ ap (λ o. ok (entry_answer o))
                (head_version-newest_version k s es le t.kinds (IsStrict-IsSorted es t.strict)))
  ]
