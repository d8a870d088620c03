-- ===== src/Wal/Log/Durable.antt =====
-- How much of what was acknowledged a crash can lose (wal/operators.go, wal/sync.go).
use hcdb.Prelude.{
  ◌+◌, ◌<◌, ◌≡◌, refl, sym, ap, arith, List, [], ◌∷◌, ◌++◌, length, leb, none, some, All,
  append-nil, append_assoc, Bool-cases, inl, inr, length-append, All-left, All-right,
  append-cancel_left, subst,
}
use hcdb.Binary.{Bytes}
use hcdb.Binary.Uint.{put_uint}
use hcdb.Binary.Crc.{checksum_ieee}
use hcdb.Bufio.{BufWriter, is_nil, write, flush}
use hcdb.Bufio.Follows.{flush_content}
use hcdb.Bufio.Grows.{Grows, write-Grows}
use hcdb.Config.{default_sync_threshold}
use hcdb.Wal.Record.{Entry, IsStorable, write_data_buff, total_length, record_bytes}
use hcdb.Wal.Replay.{replay}
use hcdb.Wal.Replay.Torn.{log, replay-log}
use hcdb.Wal.Log.{LogFile, Wal, append, sync, count_put, write_entry, open_wal, acknowledged}
use hcdb.Wal.Log.Crash.{
  Writes, append-Writes, sync-Writes, LogPrefix, prefix_of_log, log-append, open_wal-Writes,
}

module _ (f : LogFile) where
  append-Grows :
      (c : Bytes) (e : Entry) (b : BufWriter f.State)
      → Grows f.writer c b.under
      → Grows f.writer c (append f e b).under
  unfolding append
  append-Grows c e b g =
      let d = write_data_buff e in
      let b₁ = write f.writer (put_uint 4 (total_length d)) b in
      let g₁ = write-Grows f.writer c (put_uint 4 (total_length d)) b g in
      let b₂ = write f.writer d b₁ in
      let g₂ = write-Grows f.writer c d b₁ g₁ in
      elim (Bool-cases (is_nil b₁.error)) [
        | inr failed ↦ rw (append, failed) g₁
        | inl fine ↦ elim (Bool-cases (is_nil b₂.error)) [
          | inr failed ↦ rw (append, fine, failed) g₂
          | inl fine' ↦
              rw (append, fine, fine') (write-Grows f.writer c (put_uint 4 (checksum_ieee d)) b₂ g₂)
        ]
      ]

  -- The entries es were acknowledged. All but the last put_counter of them are whole on the file.
  pub record IsDurable (es : List Entry) (w : Wal f.State) : Type 0 where
    pub synced : List Entry
    pub newer : List Entry
    pub split : es ≡ synced ++ newer
    pub counted : length newer ≡ w.put_counter
    pub below : w.put_counter < default_sync_threshold
    pub on_file : Grows f.writer (log synced) w.buf_writer.under
    pub follows : Writes f (log es) w.buf_writer
    pub fine : w.buf_writer.error ≡ none

  -- A Sync without an error puts all that was handed over on the file.
  sync_content :
      (t : Bytes) (b : BufWriter f.State)
      → Writes f t b
      → (sync f b).0 ≡ none
      → f.content (sync f b).1.under ≡ t
  unfolding sync
  sync_content t b h e = elim (Bool-cases (is_nil (flush f.writer b).error)) [
    | inl fine ↦ rw (sync, fine, f.content_fsync) (flush_content f.writer t b h (ground arith))
    | inr failed ↦ absurd (ground arith)
  ]

  sync_fine : (b : BufWriter f.State) → (sync f b).0 ≡ none → (sync f b).1.error ≡ none
  unfolding sync
  sync_fine b e = ground arith

  count_put-IsDurable :
      (es synced newer : List Entry) (w : Wal f.State)
      → es ≡ synced ++ newer
      → length newer ≡ w.put_counter + 1
      → w.put_counter < default_sync_threshold
      → Grows f.writer (log synced) w.buf_writer.under
      → Writes f (log es) w.buf_writer
      → w.buf_writer.error ≡ none
      → (count_put f w).0 ≡ none
      → IsDurable es (count_put f w).1
  unfolding count_put
  count_put-IsDurable es synced newer w split counted below on_file follows fine e =
      elim (Bool-cases (leb default_sync_threshold (w.put_counter + 1))) [
        | inr early ↦
            rw (count_put, early)
              (record {
                synced = synced;
                newer = newer;
                split = split;
                counted = counted;
                below = ground arith;
                on_file = on_file;
                follows = follows;
                fine = fine;
              })
        | inl due ↦ elim (Bool-cases (is_nil (sync f w.buf_writer).0)) [
          | inr failed ↦ absurd (ground arith)
          | inl done ↦
              let nil : (sync f w.buf_writer).0 ≡ none = ground arith in
              rw (count_put, due, done)
                (record {
                  synced = es;
                  newer = [];
                  split = sym (append-nil es);
                  counted = refl;
                  below = omega arith;
                  on_file = record {
                    added = [];
                    grown =
                        cc (sync_content (log es) w.buf_writer follows nil, append-nil (log es));
                  };
                  follows = sync-Writes f (log es) w.buf_writer follows;
                  fine = sync_fine w.buf_writer nil;
                })
        ]
      ]

  log-last : (es : List Entry) (e : Entry) → log (es ++ (e ∷ [])) ≡ log es ++ record_bytes e
  log-last es e = rw (log-append es (e ∷ []), append-nil (record_bytes e))

  write_entry-IsDurable :
      (es : List Entry) (e : Entry) (w : Wal f.State)
      → IsDurable es w
      → (write_entry f e w).0 ≡ none
      → IsDurable (es ++ (e ∷ [])) (write_entry f e w).1
  unfolding write_entry
  write_entry-IsDurable es e w d x =
      let b = append f e w.buf_writer in
      elim (Bool-cases (is_nil b.error)) [
        | inr failed ↦ absurd (ground arith)
        | inl fine ↦
            rw (write_entry, fine)
              (count_put-IsDurable (es ++ (e ∷ [])) d.synced (d.newer ++ (e ∷ []))
                (record w { buf_writer = b }) (cc (d.split, append_assoc d.synced d.newer (e ∷ [])))
                (omega (arith, length-append d.newer (e ∷ []), d.counted)) d.below
                (append-Grows (log d.synced) e w.buf_writer d.on_file)
                (rw log-last (append-Writes f (log es) e w.buf_writer d.follows)) (ground arith)
                (rw (write_entry, fine) at x))
      ]

  acknowledged-IsDurable :
      (done es : List Entry) (w w' : Wal f.State)
      → IsDurable done w
      → acknowledged f es w ≡ some w'
      → IsDurable (done ++ es) w'
  unfolding acknowledged
  acknowledged-IsDurable done [] w w' d e =
      let same : w ≡ w' = cc in subst (λ v. IsDurable (done ++ []) v) same (rw append-nil d)
  acknowledged-IsDurable done (r ∷ es) w w' d e = elim (Bool-cases (is_nil (write_entry f r w).0)) [
    | inr failed ↦ absurd (ground arith)
    | inl fine ↦ rw (← append_assoc done (r ∷ []) es) (
        acknowledged-IsDurable (done ++ (r ∷ [])) es (write_entry f r w).1 w'
          (write_entry-IsDurable done r w d (ground arith)) (ground arith))
  ]

  open_wal-IsDurable : (s : f.State) → f.content s ≡ [] → IsDurable [] (open_wal f s)
  unfolding open_wal
  open_wal-IsDurable s none_yet = record {
    synced = [];
    newer = [];
    split = refl;
    counted = refl;
    below = omega arith;
    on_file = record { added = []; grown = none_yet };
    follows = open_wal-Writes f s none_yet;
    fine = refl;
  }

  -- What is on the file, as first entries and a torn tail.
  durable_prefix :
      (es : List Entry) (w : Wal f.State)
      → All IsStorable es
      → IsDurable es w
      → (p : LogPrefix (f.content w.buf_writer.under) es) × (length p.lost < default_sync_threshold)
  durable_prefix es w h d =
      let rest = d.follows.rest in
      let added = d.on_file.added in
      let same : added ++ rest ≡ log d.newer =
        append-cancel_left (log d.synced) (added ++ rest) (log d.newer) (
          cc (
            d.follows.whole,
            d.on_file.grown,
            d.split,
            log-append d.synced d.newer,
            append_assoc (log d.synced) added rest,
          )) in
      let p =
        prefix_of_log d.newer added rest (All-right IsStorable d.synced d.newer (rw d.split at h))
          same in
      (
        record {
          kept = d.synced ++ p.kept;
          lost = p.lost;
          tail = p.tail;
          split = cc (d.split, p.split, append_assoc d.synced p.kept p.lost);
          content = cc (
            d.on_file.grown,
            p.content,
            log-append d.synced p.kept,
            append_assoc (log d.synced) (log p.kept) p.tail,
          );
          is_torn = p.is_torn;
        },
        omega (
          arith,
          d.counted,
          d.below,
          ap (λ (l : List Entry). length l) p.split,
          length-append p.kept p.lost,
        ),
      )

-- Entries are written to an empty log, and every call returns no error. If the process then stops, the replay of the file returns those entries in order except for fewer than DEFAULT_SYNC_THRESHOLD of the last ones.
pub acknowledged_loss :
    (f : LogFile) (s : f.State) (es : List Entry) (w : Wal f.State)
    → f.content s ≡ []
    → All IsStorable es
    → acknowledged f es (open_wal f s) ≡ some w
    → (kept lost : List Entry) × (es ≡ kept ++ lost)
      × (length lost < default_sync_threshold)
      × (replay (f.content w.buf_writer.under) ≡ some (record { entries = kept; file = log kept }))
acknowledged_loss f s es w none_yet h acked =
    let d =
      acknowledged-IsDurable f [] es (open_wal f s) w (open_wal-IsDurable f s none_yet) acked in
    let (p, few) = durable_prefix f es w h d in
    (
      p.kept,
      p.lost,
      p.split,
      few,
      rw p.content (
          replay-log p.kept p.tail (All-left IsStorable p.kept p.lost (rw p.split at h)) p.is_torn),
    )
