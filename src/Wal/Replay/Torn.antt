-- ===== src/Wal/Replay/Torn.antt =====
-- A record that was cut short by a crash, and the whole log (wal/append.go, wal/replay.go).
use hcdb.Prelude.{
  ℕ, zero, suc, ◌-◌, ◌≤◌, ◌<◌, ◌≡◌, inl, inr, refl, ap, ◌∙◌, arith, List, [], ◌∷◌, ◌++◌, length,
  length-append, append-nil, append_assoc, take-append, All, ltb, ◌==◌, if◌then◌else◌, some, err,
  eof, unexpected_eof, Bool-cases,
}
use hcdb.Binary.{Bytes}
use hcdb.Binary.Uint.{put_uint, length-put_uint}
use hcdb.Binary.Reader.{read_full, read_uint, read_full_short, read_uint-put_uint}
use hcdb.Binary.Crc.{checksum_ieee}
use hcdb.Wal.Record.{Entry, IsStorable, write_data_buff, total_length, record_bytes}
use hcdb.Wal.Replay.{finished, corrupt, read_record_body, read_record, replay_loop, replay}
use hcdb.Wal.Replay.Recovery.{length-write_data_buff, total_length_lem, read_record-record_bytes}

-- What is left of a proper prefix after its first part.
prefix_rest :
    (us vs front back : Bytes)
    → us ++ vs ≡ front ++ back
    → length us ≤ length front
    → (mid : Bytes) × (front ≡ us ++ mid) × (vs ≡ mid ++ back)
prefix_rest [] vs front back e h = (front, refl, e)
prefix_rest (u ∷ us) vs [] back e h = absurd (omega arith)
prefix_rest (u ∷ us) vs (f ∷ front) back e h =
    let (mid, p, q) = prefix_rest us vs front back (cc) (omega arith) in (mid, cc, q)

read_uint_short :
    (k : ℕ) (r : Bytes)
    → length r < k
    → read_uint k r ≡ (if length r == 0 then err eof else err unexpected_eof)
unfolding read_uint
read_uint_short k r h = ground (arith, read_full_short k r h)

torn_length : (r : Bytes) → 0 < length r → length r < 4 → read_record r ≡ corrupt
unfolding read_record
torn_length r h k = ground (arith, read_uint_short 4 r k)

torn_body : (n : ℕ) (r : Bytes) → length r < n → read_record_body n r ≡ corrupt
unfolding read_record_body
torn_body n r h = ground (arith, read_full_short n r h)

-- A record cut short is never taken for a record or for the end of the log.
pub torn_record :
    (e : Entry) (front : Bytes) (x : ℕ) (back : Bytes)
    → IsStorable e
    → record_bytes e ≡ front ++ (x ∷ back)
    → 0 < length front
    → read_record front ≡ corrupt
unfolding read_record record_bytes
torn_record e front x back h split nonempty =
    let d = write_data_buff e in
    let n = total_length d in
    elim (Bool-cases (ltb (length front) 4)) [
      | inl short ↦ torn_length front nonempty (ground (arith, short))
      | inr long ↦
          let (mid, p, q) =
            prefix_rest (put_uint 4 n) (d ++ put_uint 4 (checksum_ieee d)) front (x ∷ back) split
              (ground (arith, length-put_uint 4 n, long)) in
          rw
            (
              p,
              read_record,
              read_uint-put_uint 4 n mid
                  (omega (arith, total_length_lem e h, h.key_fits, h.value_fits)),
            )
            (torn_body n mid (
              omega (
                arith,
                ap length q,
                length-append mid (x ∷ back),
                length-append d (put_uint 4 (checksum_ieee d)),
                length-put_uint 4 (checksum_ieee d),
                length-write_data_buff e,
                total_length_lem e h,
              )))
    ]

-- The log of some entries: their records, one after the other.
abbrev pub log : List Entry → Bytes
log [] = []
log (e ∷ es) = record_bytes e ++ log es

-- The tail that a crash leaves: nothing, or a part of one more record.
pub data IsTorn : Bytes → Type 0 where
  clean : IsTorn []
  torn :
      (e : Entry) (b : ℕ) (front : Bytes) (x : ℕ) (back : Bytes)
      → IsStorable e
      → record_bytes e ≡ (b ∷ front) ++ (x ∷ back)
      → IsTorn (b ∷ front)

pub read_record-nil : read_record [] ≡ finished
unfolding read_record read_uint read_full
read_record-nil = refl

-- The round on a torn tail stops, and what is kept ends where the tail starts.
stops :
    (whole r : Bytes) (es : List Entry) (fuel : ℕ)
    → IsTorn r
    → replay_loop (suc fuel) (whole ++ r) r es ≡ some (record { entries = es; file = whole })
unfolding replay_loop
stops whole r es fuel clean = rw (replay_loop, read_record-nil, append-nil)
stops whole r es fuel (torn e b front x back h split) =
    let tail : Bytes = b ∷ front in
    let cut : length (whole ++ tail) - length tail ≡ length whole =
      omega (arith, length-append whole tail) in
    rw (replay_loop, torn_record e tail x back h split (omega arith), cut, take-append whole tail)

goes_on :
    (whole rest : Bytes) (es : List Entry) (e : Entry) (fuel : ℕ)
    → IsStorable e
    → replay_loop (suc fuel) whole (record_bytes e ++ rest) es
      ≡ replay_loop fuel whole rest (es ++ (e ∷ []))
unfolding replay_loop
goes_on whole rest es e fuel h = rw (replay_loop, read_record-record_bytes e rest h)

replay_loop-log :
    (es more : List Entry) (whole tail : Bytes) (fuel : ℕ)
    → All IsStorable more
    → IsTorn tail
    → length more < fuel
    → replay_loop fuel (whole ++ (log more ++ tail)) (log more ++ tail) es
      ≡ some (record { entries = es ++ more; file = whole ++ log more })
replay_loop-log es [] whole tail (suc fuel) h t lt =
    rw (append-nil es, append-nil whole) (stops whole tail es fuel t)
replay_loop-log es (e ∷ more) whole tail (suc fuel) h t lt =
    rw (append_assoc (record_bytes e) (log more) tail) (
      goes_on (whole ++ (record_bytes e ++ (log more ++ tail))) (log more ++ tail) es e fuel h.0
      ∙ (simp append_assoc at (
          replay_loop-log (es ++ (e ∷ [])) more (whole ++ record_bytes e) tail fuel h.1 t
            (omega arith))))
replay_loop-log es more whole tail zero h t lt = absurd (omega arith)

length-record_bytes : (e : Entry) → 4 ≤ length (record_bytes e)
unfolding record_bytes
length-record_bytes e = simp (length-append, length-put_uint) (omega arith)

length-log : (es : List Entry) → length es ≤ length (log es)
length-log [] = omega arith
length-log (e ∷ es) =
    omega (arith, length-append (record_bytes e) (log es), length-log es, length-record_bytes e)

-- A log of storable entries, followed by nothing or by a part of one more record, replays to exactly those entries, and the file is cut to exactly their records. The loop has fuel enough.
pub replay-log :
    (es : List Entry) (tail : Bytes)
    → All IsStorable es
    → IsTorn tail
    → replay (log es ++ tail) ≡ some (record { entries = es; file = log es })
unfolding replay
replay-log es tail h t =
    replay_loop-log [] es [] tail (suc (length (log es ++ tail))) h t
      (omega (arith, length-append (log es) tail, length-log es))
