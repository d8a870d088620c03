-- ===== src/Wal/Replay/Sound.antt =====
-- Replay on any file at all (wal/replay.go).
use hcdb.Prelude.{
  ℕ, zero, suc, ◌-◌, ◌≤◌, ◌<◌, ◌≡◌, ◌≢◌, inl, inr, refl, ap, arith, List, [], ◌∷◌, ◌++◌, length,
  take, length-append, append-nil, append_assoc, take-append, All, some, Result-cases, eof,
}
use hcdb.Binary.{Bytes}
use hcdb.Binary.Reader.{
  read_full, read_uint, read_full-append, read_full_takes, read_uint_takes, read_uint-append,
  read_uint_eof,
}
use hcdb.Wal.Record.{Entry, IsStorable}
use hcdb.Wal.Replay.Torn.{read_record-nil}
use hcdb.Wal.Replay.{
  Round, finished, corrupt, entry, parse_key_value, parse_data, check_record, read_record_body,
  read_record, Replayed, replay_loop, replay,
}

-- A piece of the file that a round reads as the entry e, whatever follows it.
pub record IsPiece (piece : Bytes) (e : Entry) : Type 0 where
  pub reads : (rest : Bytes) → read_record (piece ++ rest) ≡ entry e rest
  pub long : 4 ≤ length piece
  pub storable : IsStorable e

parse_key_value-IsStorable :
    (kl vl : ℕ) (r : Bytes) (e : Entry) → parse_key_value kl vl r ≡ some e → IsStorable e
unfolding parse_key_value
parse_key_value-IsStorable kl vl r e h = elim (Result-cases (read_full kl r)) [
  | inr (x, p) ↦ ground arith
  | inl ((key, r'), p) ↦ elim (Result-cases (read_full vl r')) [
    | inr (x, q) ↦ ground arith
    | inl ((value, r''), q) ↦
        ground (arith, (read_full_takes kl r p).1, (read_full_takes vl r' q).1)
  ]
]

parse_data-IsStorable : (d : Bytes) (e : Entry) → parse_data d ≡ some e → IsStorable e
unfolding parse_data
parse_data-IsStorable d e h = elim (Result-cases (read_uint 4 d)) [
  | inr (x, p) ↦ ground arith
  | inl ((kl, r), p) ↦ elim (Result-cases (read_uint 4 r)) [
    | inr (x, q) ↦ ground arith
    | inl ((vl, r'), q) ↦ parse_key_value-IsStorable kl vl r' e (ground arith)
  ]
]

check_record_rest :
    (b rest rest' s : Bytes) (e : Entry)
    → check_record b rest ≡ entry e rest'
    → (rest' ≡ rest) × (check_record b s ≡ entry e s) × IsStorable e
unfolding check_record
check_record_rest b rest rest' s e h =
    ground (arith, parse_data-IsStorable (take (length b - 4) b) e)

read_record_body_piece :
    (n : ℕ) (r rest : Bytes) (e : Entry)
    → read_record_body n r ≡ entry e rest
    → (buf : Bytes) × (r ≡ buf ++ rest)
      × ((s : Bytes) → read_record_body n (buf ++ s) ≡ entry e s)
      × IsStorable e
unfolding read_record_body
read_record_body_piece n r rest e h = elim (Result-cases (read_full n r)) [
  | inr (x, p) ↦ absurd (ground arith)
  | inl ((buf, r'), p) ↦
      let (whole, size) = read_full_takes n r p in
      let checked : check_record buf r' ≡ entry e rest = ground arith in
      let left : rest ≡ r' = (check_record_rest buf r' rest r' e checked).0 in
      (
        buf,
        cc,
        λ s.
            ground
              (arith, read_full-append n buf s size, (check_record_rest buf r' rest s e checked).1),
        (check_record_rest buf r' rest r' e checked).2,
      )
]

read_record-IsPiece :
    (r rest : Bytes) (e : Entry)
    → read_record r ≡ entry e rest
    → (piece : Bytes) × (r ≡ piece ++ rest) × IsPiece piece e
unfolding read_record
read_record-IsPiece r rest e h = elim (Result-cases (read_uint 4 r)) [
  | inr (eof, p) ↦ absurd (ground arith)
  | inr (x, p) ↦ absurd (ground arith)
  | inl ((n, r'), p) ↦
      let (bs, whole, size, value) = read_uint_takes 4 r p in
      let (buf, body, again, storable) = read_record_body_piece n r' rest e (ground arith) in
      (
        bs ++ buf,
        cc (whole, body, append_assoc bs buf rest),
        record {
          reads = λ s.
              rw (append_assoc bs buf s, read_record, read_uint-append 4 bs (buf ++ s) size, value)
                (again s);
          long = omega (arith, length-append bs buf, size);
          storable = storable;
        },
      )
]

read_record_body-ne-finished : (n : ℕ) (r : Bytes) → read_record_body n r ≢ finished
unfolding read_record_body check_record
read_record_body-ne-finished n r = λ h. ground arith

read_record-finished : (r : Bytes) → read_record r ≡ finished → r ≡ []
unfolding read_record
read_record-finished r h = elim (Result-cases (read_uint 4 r)) [
  | inr (x, p) ↦ read_uint_eof 4 r (ground arith)
  | inl ((n, r'), p) ↦ absurd (read_record_body-ne-finished n r' (ground arith))
]

-- What Replay has read: pieces, each with its entry.
pub data Pieces : Bytes → List Entry → Type 0 where
  none_left : Pieces [] []
  piece :
      {p rest : Bytes} {e : Entry} {es : List Entry}
      → IsPiece p e
      → Pieces rest es
      → Pieces (p ++ rest) (e ∷ es)

Pieces-IsStorable : {p : Bytes} {es : List Entry} → Pieces p es → All IsStorable es
Pieces-IsStorable none_left = tt
Pieces-IsStorable (piece h r) = (h.storable, Pieces-IsStorable r)

-- What a loop on the unread part r, behind what is read, comes to.
pub record Outcome (fuel : ℕ) (w r : Bytes) (es : List Entry) : Type 0 where
  pub kept : Bytes
  pub found : List Entry
  pub cut : Bytes
  pub whole : r ≡ kept ++ cut
  pub pieces : Pieces kept found
  pub result :
      replay_loop fuel (w ++ r) r es ≡ some (record { entries = es ++ found; file = w ++ kept })

module _ (fuel : ℕ) (w r : Bytes) (es : List Entry) where
  Outcome-finished : read_record r ≡ finished → Outcome (suc fuel) w r es
  unfolding replay_loop
  Outcome-finished p =
      let e : r ≡ [] = read_record-finished r p in
      record {
        kept = [];
        found = [];
        cut = [];
        whole = e;
        pieces = none_left;
        result = rw (append-nil es, append-nil w, replay_loop, p) (cc (e, append-nil w));
      }

  Outcome-corrupt : read_record r ≡ corrupt → Outcome (suc fuel) w r es
  unfolding replay_loop
  Outcome-corrupt p =
      let at_start : length (w ++ r) - length r ≡ length w = omega (arith, length-append w r) in
      record {
        kept = [];
        found = [];
        cut = r;
        whole = refl;
        pieces = none_left;
        result = rw (append-nil es, append-nil w, replay_loop, p, at_start, take-append w r);
      }

  Outcome-entry :
      (e : Entry) (rest pc : Bytes)
      → read_record r ≡ entry e rest
      → r ≡ pc ++ rest
      → IsPiece pc e
      → Outcome fuel (w ++ pc) rest (es ++ (e ∷ []))
      → Outcome (suc fuel) w r es
  unfolding replay_loop
  Outcome-entry e rest pc p split is_piece o = record {
    kept = pc ++ o.kept;
    found = e ∷ o.found;
    cut = o.cut;
    whole = cc (split, o.whole, append_assoc pc o.kept o.cut);
    pieces = piece is_piece o.pieces;
    result = rw (replay_loop, p, split) (simp append_assoc at o.result);
  }

replay_loop-Outcome :
    (fuel : ℕ) (w r : Bytes) (es : List Entry) → length r < fuel → Outcome fuel w r es
replay_loop-Outcome zero w r es h = absurd (omega arith)
replay_loop-Outcome (suc fuel) w r es h =
    go (read_record r) refl (λ w' r' es'. replay_loop-Outcome fuel w' r' es')
  where
    go :
        (x : Round)
        → read_record r ≡ x
        → ((w' r' : Bytes) (es' : List Entry) → length r' < fuel → Outcome fuel w' r' es')
        → Outcome (suc fuel) w r es
    go finished p ih = Outcome-finished fuel w r es p
    go corrupt p ih = Outcome-corrupt fuel w r es p
    go (entry e rest) p ih =
        let (pc, split, is_piece) = read_record-IsPiece r rest e p in
        Outcome-entry fuel w r es e rest pc p split is_piece (
          ih (w ++ pc) rest (es ++ (e ∷ []))
            (omega (arith, ap length split, length-append pc rest, is_piece.long)))

-- A file of pieces only replays to their entries and is left as it is.
replay_loop-Pieces :
    {p : Bytes} {more : List Entry}
    → Pieces p more
    → (fuel : ℕ) (w : Bytes) (es : List Entry) → length p < fuel
    → replay_loop fuel (w ++ p) p es ≡ some (record { entries = es ++ more; file = w ++ p })
unfolding replay_loop
replay_loop-Pieces h zero w es lt = absurd (omega arith)
replay_loop-Pieces none_left (suc fuel) w es lt = rw (append-nil es, replay_loop, read_record-nil)
replay_loop-Pieces (piece {p = p} {rest = rest} {e = e} is_piece h) (suc fuel) w es lt =
    rw (replay_loop, is_piece.reads rest)
      (simp append_assoc at (
        replay_loop-Pieces h fuel (w ++ p) (es ++ (e ∷ []))
          (omega (arith, length-append p rest, is_piece.long))))

-- On any file whatever Replay ends. It keeps a prefix of the file, every entry it returns is within the limits, and a second Replay of what it kept returns the same entries and cuts nothing more.
pub replay_repairs :
    (file : Bytes)
    → (res : Replayed) × (cut : Bytes) × (replay file ≡ some res)
      × (file ≡ res.file ++ cut)
      × All IsStorable res.entries
      × (replay res.file ≡ some res)
unfolding replay
replay_repairs file =
    let o = replay_loop-Outcome (suc (length file)) [] file [] (omega arith) in
    (
      record { entries = o.found; file = o.kept },
      o.cut,
      o.result,
      o.whole,
      Pieces-IsStorable o.pieces,
      replay_loop-Pieces o.pieces (suc (length o.kept)) [] [] (omega arith),
    )
