-- ===== src/Db/Open/Reopen.antt =====
-- A store that is written to, lost, and opened again (db/db.go, operations.go, wal/*.go).
use hcdb.Prelude.{
  suc, ◌+◌, ◌≤◌, ◌<◌, ◌≡◌, refl, sym, ap, ◌∙◌, arith, List, [], ◌∷◌, ◌++◌, length, All, All-left,
  ltb, none, some, ok, false, length-append,
}
use hcdb.Config.{default_memtable_flush_size, default_sync_threshold}
use hcdb.Binary.{Bytes}
use hcdb.Base.Key.{SeqNum, seq_num_max, size, make_internal_key, kind_set, kind_delete}
use hcdb.Base.Key.Codec.{length-encode_new}
use hcdb.Wal.Record.{Entry, IsStorable}
use hcdb.Wal.Log.{LogFile}
use hcdb.Wal.Log.Durable.{acknowledged_loss}
use hcdb.Memtable
use hcdb.Memtable.{BTree, MemTable}
use hcdb.Db.{Rebuilt, rebuild_memtable}
use hcdb.Db.Store.{Store, Os, get_at, max_seq_num_in_tables}
use hcdb.Db.Open.{OpenOs, open_entries, open_all_in_dir, opened_store, open_store}
use hcdb.Db.Open.Runs.{
  Write, set, remove, IsAllowed, total_weight, entry_of, entries_of, run_writes, new_store, rebuilt,
  went_on, write_to, run_writes-Ran,
}

entry_of-IsStorable : (seq : SeqNum) (w : Write) → IsAllowed w → IsStorable (entry_of seq w)
unfolding size make_internal_key
entry_of-IsStorable seq (set key value) h = record {
  key_fits = omega (arith, length-encode_new (make_internal_key key seq kind_set));
  value_fits = h.1;
}
entry_of-IsStorable seq (remove key) h = record {
  key_fits = omega (arith, length-encode_new (make_internal_key key seq kind_delete));
  value_fits = omega arith;
}

entries_of-IsStorable :
    (seq : SeqNum) (ws : List Write) → All IsAllowed ws → All IsStorable (entries_of seq ws)
unfolding entries_of
entries_of-IsStorable seq [] h = tt
entries_of-IsStorable seq (w ∷ ws) h =
    (entry_of-IsStorable (seq + 1) w h.0, entries_of-IsStorable (seq + 1) ws h.1)

-- Some first records are those of the first writes.
record Parts (seq : SeqNum) (ws : List Write) (kept lost : List Entry) : Type 0 where
  front : List Write
  back : List Write
  split : ws ≡ front ++ back
  records : kept ≡ entries_of seq front
  as_many : length back ≡ length lost

length-entries_of : (seq : SeqNum) (ws : List Write) → length (entries_of seq ws) ≡ length ws
unfolding entries_of
length-entries_of seq [] = refl
length-entries_of seq (w ∷ ws) = ap suc (length-entries_of (seq + 1) ws)

entries_of-Parts :
    (seq : SeqNum) (ws : List Write) (kept lost : List Entry)
    → entries_of seq ws ≡ kept ++ lost
    → Parts seq ws kept lost
unfolding entries_of
entries_of-Parts seq ws [] lost e = record {
  front = [];
  back = ws;
  split = refl;
  records = refl;
  as_many = sym (length-entries_of seq ws) ∙ ap (λ (l : List Entry). length l) e;
}
entries_of-Parts seq [] (k ∷ kept) lost e = absurd (cc)
entries_of-Parts seq (w ∷ ws) (k ∷ kept) lost e =
    let p = entries_of-Parts (seq + 1) ws kept lost (cc) in
    record {
      front = w ∷ p.front;
      back = p.back;
      split = ap (λ l. w ∷ l) p.split;
      records = cc (e, p.records);
      as_many = p.as_many;
    }

not_below_zero : (n : SeqNum) → ltb n 0 ≡ false
not_below_zero n = ground arith

module _ (b : BTree) (f : LogFile) (os : Os f) where
  run_front :
      (front back : List Write) (db after : Store b.Tree f.State)
      → run_writes b f os (front ++ back) db ≡ some after
      → (mid : Store b.Tree f.State) × (run_writes b f os front db ≡ some mid)
  unfolding run_writes
  run_front [] back db after ran = (db, refl)
  run_front (w ∷ front) back db after ran =
      let (mid, first, later) =
        went_on b f os (write_to b f os w db) (run_writes b f os (front ++ back)) after ran in
      let (last, ends) = run_front front back mid after later in (last, rw (run_writes, first) ends)

  -- Open on a store that never flushed: no table is there.
  opens :
      (again : OpenOs f) (s : f.State) (r : Rebuilt b)
      → again.mkdir_error ≡ none
      → again.wal_error ≡ none
      → again.read_dir ≡ ok []
      → rebuild_memtable b (f.content s) ≡ some r
      → open_store b f again s ≡ ok (opened_store b f again s r [] 0)
  unfolding open_store open_all_in_dir open_entries max_seq_num_in_tables
  opens again s r made there empty rebuilds = rw (open_store, made, there, rebuilds, empty) refl

  total_weight-append :
      (front back : List Write)
      → total_weight (front ++ back) ≡ total_weight front + total_weight back
  unfolding total_weight
  total_weight-append [] back = omega arith
  total_weight-append (w ∷ front) back = omega (arith, total_weight-append front back)

  opened_seq :
      (again : OpenOs f) (s : f.State) (r : Rebuilt b)
      → (opened_store b f again s r [] 0).seq_num ≡ r.max_seq
  unfolding opened_store
  opened_seq again s r = rw (not_below_zero r.max_seq) refl

  -- The same answers to every read at a snapshot.
  reads_alike :
      (db opened : Store b.Tree f.State)
      → opened.memtable ≡ db.memtable
      → opened.sstables ≡ db.sstables
      → (key : Bytes) (snapshot : SeqNum)
      → get_at b f key snapshot opened ≡ get_at b f key snapshot db
  unfolding get_at
  reads_alike db opened same_mem same_tables key snapshot = cc (same_mem, same_tables)

  -- A new store takes writes that stay below the flush size, and none of them returns an error. The process then stops, and the file of the log is opened again; the directory holds no table, and no call of the operating system fails. Open succeeds. The opened store has the memtable, the sequence number and the answers to reads that the store had after the first writes, where fewer than DEFAULT_SYNC_THRESHOLD of the last writes are left out.
  pub open_store-run_writes :
      (s : f.State) (ws : List Write) (last : Store b.Tree f.State) (again : OpenOs f)
      → f.content s ≡ []
      → All IsAllowed ws
      → length ws ≤ seq_num_max
      → total_weight ws < default_memtable_flush_size
      → run_writes b f os ws (new_store b f os s) ≡ some last
      → again.mkdir_error ≡ none
      → again.wal_error ≡ none
      → again.read_dir ≡ ok []
      → (front : List Write) × (back : List Write) × (before : Store b.Tree f.State)
        × (opened : Store b.Tree f.State) × (ws ≡ front ++ back)
        × (length back < default_sync_threshold)
        × (run_writes b f os front (new_store b f os s) ≡ some before)
        × (open_store b f again last.wal.buf_writer.under ≡ ok opened)
        × (opened.memtable ≡ before.memtable)
        × (opened.seq_num ≡ before.seq_num)
        × ((key : Bytes) (snapshot : SeqNum)
            → get_at b f key snapshot opened ≡ get_at b f key snapshot before)
  unfolding opened_store rebuild_memtable Memtable.new_mem_table
  open_store-run_writes s ws last again none_yet allowed few_seqs room ran made there no_tables =
      let start = new_store b f os s in
      let file = last.wal.buf_writer.under in
      let whole = run_writes-Ran b f os ws start last (omega arith) allowed (omega arith) ran in
      let (kept, lost, split, few, replays) =
        acknowledged_loss f s (entries_of 0 ws) last.wal none_yet
          (entries_of-IsStorable 0 ws allowed) whole.logged in
      let p = entries_of-Parts 0 ws kept lost split in
      let (before, ran_front) = run_front p.front p.back start last (rw p.split at ran) in
      let shorter = ap (λ (l : List Write). length l) p.split in
      let lighter = ap total_weight p.split in
      let part =
        run_writes-Ran b f os p.front start before
          (omega (arith, shorter, length-append p.front p.back))
          (All-left IsAllowed p.front p.back (rw p.split at allowed))
          (omega (arith, lighter, total_weight-append p.front p.back)) ran_front in
      let r = rebuilt b f os before in
      let rebuilds : rebuild_memtable b (f.content file) ≡ some r =
        rw (rebuild_memtable, replays, p.records) (ap some part.replays) in
      let opened = opened_store b f again file r [] 0 in
      (
        p.front,
        p.back,
        before,
        opened,
        p.split,
        omega (arith, few, p.as_many),
        ran_front,
        opens again file r made there no_tables rebuilds,
        refl,
        opened_seq again file r,
        reads_alike before opened refl (sym part.same_tables),
      )
