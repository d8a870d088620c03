-- ===== src/Wal/Log/Crash.antt =====
-- The log when its file fails (wal/append.go, wal/operators.go, wal/replay.go).
use hcdb.Prelude.{
  ℕ, ◌+◌, ◌≡◌, refl, sym, List, [], ◌∷◌, ◌++◌, leb, some, All, All-left, append-nil, append_assoc,
  ◌⊎◌, Bool-cases, inl, inr,
}
use hcdb.Binary.{Bytes}
use hcdb.Binary.Uint.{put_uint}
use hcdb.Binary.Crc.{checksum_ieee}
use hcdb.Bufio.{BufWriter, is_nil, write, flush}
use hcdb.Bufio.Follows.{Follows, Follows-failed, flush-Follows, write-Follows}
use hcdb.Config.{default_sync_threshold}
use hcdb.Wal.Record.{Entry, IsStorable, write_data_buff, total_length, record_bytes}
use hcdb.Wal.Replay.{replay}
use hcdb.Wal.Replay.Torn.{log, IsTorn, clean, torn, replay-log}
use hcdb.Wal.Log.{
  LogFile, Wal, LogWriter, and_then, append, sync, count_put, write_entry, open_wal, write_all,
}

-- A prefix of a log is the log of some first entries, with a torn tail.
pub record LogPrefix (c : Bytes) (es : List Entry) : Type 0 where
  pub kept : List Entry
  pub lost : List Entry
  pub tail : Bytes
  pub split : es ≡ kept ++ lost
  pub content : c ≡ log kept ++ tail
  pub is_torn : IsTorn tail

-- Of two prefixes of one list one is a prefix of the other.
compare_prefixes :
    (xs ys us vs : Bytes)
    → xs ++ ys ≡ us ++ vs
    → ((mid : Bytes) × (xs ≡ us ++ mid) × (vs ≡ mid ++ ys))
      ⊎ ((x : ℕ) × (mid : Bytes) × (us ≡ xs ++ (x ∷ mid)))
compare_prefixes [] ys [] vs e = inl ([], refl, sym e)
compare_prefixes [] ys (u ∷ us) vs e = inr (u, us, refl)
compare_prefixes (x ∷ xs) ys [] vs e = inl (x ∷ xs, refl, sym e)
compare_prefixes (x ∷ xs) ys (u ∷ us) vs e = elim (compare_prefixes xs ys us vs (cc)) [
  | inl (mid, p, q) ↦ inl (mid, cc, q)
  | inr (y, mid, p) ↦ inr (y, mid, cc)
]

pub prefix_of_log :
    (es : List Entry) (c rest : Bytes) → All IsStorable es → c ++ rest ≡ log es → LogPrefix c es
prefix_of_log [] [] rest h e = record {
  kept = [];
  lost = [];
  tail = [];
  split = refl;
  content = refl;
  is_torn = clean;
}
prefix_of_log [] (x ∷ c) rest h e = absurd (cc)
prefix_of_log (r ∷ es) [] rest h e = record {
  kept = [];
  lost = r ∷ es;
  tail = [];
  split = refl;
  content = refl;
  is_torn = clean;
}
prefix_of_log (r ∷ es) (x ∷ c) rest h e =
    elim (compare_prefixes (x ∷ c) rest (record_bytes r) (log es) e) [
      | inl (mid, p, q) ↦
          (let l = prefix_of_log es mid rest h.1 (sym q) in
            record {
              kept = r ∷ l.kept;
              lost = l.lost;
              tail = l.tail;
              split = cc l.split;
              content = cc (p, l.content, append_assoc (record_bytes r) (log l.kept) l.tail);
              is_torn = l.is_torn;
            })
      | inr (y, mid, p) ↦ record {
        kept = [];
        lost = r ∷ es;
        tail = x ∷ c;
        split = refl;
        content = refl;
        is_torn = torn r x c y mid h.0 p;
      }
    ]

pub log-append : (es fs : List Entry) → log (es ++ fs) ≡ log es ++ log fs
log-append [] fs = refl
log-append (e ∷ es) fs = rw (log-append es fs, append_assoc (record_bytes e))

module _ (f : LogFile) where
  abbrev pub Writes : Bytes → BufWriter f.State → Type 0
  Writes = Follows f.writer

  and_then-Writes :
      (t p : Bytes) (b : BufWriter f.State) (next : LogWriter f → LogWriter f)
      → Writes t b
      → (Writes t b → Writes (t ++ p) (next b))
      → Writes (t ++ p) (and_then f b next)
  and_then-Writes t p b next h go = elim (Bool-cases (is_nil b.error)) [
    | inl fine ↦ rw fine (go h)
    | inr failed ↦ rw failed (Follows-failed f.writer t p b failed h)
  ]

  -- Append hands over the whole record, or there is an error.
  pub append-Writes :
      (t : Bytes) (e : Entry) (b : BufWriter f.State)
      → Writes t b
      → Writes (t ++ record_bytes e) (append f e b)
  unfolding append record_bytes
  append-Writes t e b h =
      let d = write_data_buff e in
      let size = put_uint 4 (total_length d) in
      let crc = put_uint 4 (checksum_ieee d) in
      let write_crc = λ (b : LogWriter f). write f.writer crc b in
      let write_data = λ (b : LogWriter f). and_then f (write f.writer d b) write_crc in
      let b₁ = write f.writer size b in
      let b₂ = write f.writer d b₁ in
      rw (← append_assoc t size (d ++ crc)) (
        and_then-Writes (t ++ size) (d ++ crc) b₁ write_data (write-Follows f.writer t size b h)
          λ h₁. rw (← append_assoc (t ++ size) d crc) (
            and_then-Writes ((t ++ size) ++ d) crc b₂ write_crc
              (write-Follows f.writer (t ++ size) d b₁ h₁)
              λ h₂. write-Follows f.writer ((t ++ size) ++ d) crc b₂ h₂))

  pub sync-Writes : (t : Bytes) (b : BufWriter f.State) → Writes t b → Writes t (sync f b).1
  unfolding sync
  sync-Writes t b h =
      let b' = flush f.writer b in
      let g = flush-Follows f.writer t b h in
      elim (Bool-cases (is_nil b'.error)) [
        | inl fine ↦
            rw (sync, fine)
              (record {
                rest = g.rest;
                whole = cc (g.whole, f.content_fsync b'.under);
                exact = g.exact;
              })
        | inr failed ↦ rw (sync, failed) g
      ]

  count_put-Writes :
      (t : Bytes) (w : Wal f.State) → Writes t w.buf_writer → Writes t (count_put f w).1.buf_writer
  unfolding count_put
  count_put-Writes t w h = elim (Bool-cases (leb default_sync_threshold (w.put_counter + 1))) [
    | inr below ↦ rw (count_put, below) h
    | inl due ↦ elim (Bool-cases (is_nil (sync f w.buf_writer).0)) [
      | inl fine ↦ rw (count_put, due, fine) (sync-Writes t w.buf_writer h)
      | inr failed ↦ rw (count_put, due, failed) (sync-Writes t w.buf_writer h)
    ]
  ]

  pub write_entry-Writes :
      (t : Bytes) (e : Entry) (w : Wal f.State)
      → Writes t w.buf_writer
      → Writes (t ++ record_bytes e) (write_entry f e w).1.buf_writer
  unfolding write_entry
  write_entry-Writes t e w h =
      let b = append f e w.buf_writer in
      let g = append-Writes t e w.buf_writer h in
      elim (Bool-cases (is_nil b.error)) [
        | inl fine ↦
            rw (write_entry, fine)
              (count_put-Writes (t ++ record_bytes e) (record w { buf_writer = b }) g)
        | inr failed ↦ rw (write_entry, failed) g
      ]

  pub write_all-Writes :
      (t : Bytes) (es : List Entry) (w : Wal f.State)
      → Writes t w.buf_writer
      → Writes (t ++ log es) (write_all f es w).buf_writer
  unfolding write_all
  write_all-Writes t [] w h = rw append-nil h
  write_all-Writes t (e ∷ es) w h =
      rw (← append_assoc t (record_bytes e) (log es)) (
        write_all-Writes (t ++ record_bytes e) es (write_entry f e w).1
          (write_entry-Writes t e w h))

pub open_wal-Writes :
    (f : LogFile) (s : f.State) → f.content s ≡ [] → Writes f [] (open_wal f s).buf_writer
unfolding open_wal
open_wal-Writes f s empty = record {
  rest = [];
  whole = cc (empty, append-nil (f.content s));
  exact = λ e. refl;
}

-- Entries are written to an empty log, with any errors of the file on the way. Whatever bytes have then reached the file, its replay ends and returns some first entries of those, in order and unchanged, and cuts the file to exactly their records.
pub crash_recovery :
    (f : LogFile) (s : f.State) (es : List Entry)
    → f.content s ≡ []
    → All IsStorable es
    → (kept lost : List Entry) × (es ≡ kept ++ lost)
      × (replay (f.content (write_all f es (open_wal f s)).buf_writer.under)
          ≡ some (record { entries = kept; file = log kept }))
crash_recovery f s es empty h =
    let g = write_all-Writes f [] es (open_wal f s) (open_wal-Writes f s empty) in
    let p =
      prefix_of_log es (f.content (write_all f es (open_wal f s)).buf_writer.under) g.rest h
        (sym g.whole) in
    (
      p.kept,
      p.lost,
      p.split,
      rw p.content (
          replay-log p.kept p.tail (All-left IsStorable p.kept p.lost (rw p.split at h)) p.is_torn),
    )
