-- ===== src/Wal/Log.antt =====
-- wal/append.go, wal/operators.go and wal/sync.go: writing entries to the log through its buffered
-- writer. The file below it is any writer with io.Writer's contract and an fsync that leaves the
-- bytes alone.
pub mod Crash
pub mod Durable
use hcdb.Prelude.{
  ℕ, suc, ◌+◌, ◌≤◌, ◌≡◌, List, [], ◌∷◌, ◌++◌, leb, Bool, if◌then◌else◌, Option, none, some, Error,
  length,
}
use hcdb.Config.{default_sync_threshold}
use hcdb.Binary.{Bytes}
use hcdb.Binary.Uint.{put_uint}
use hcdb.Binary.Crc.{checksum_ieee}
use hcdb.Bufio.{Writer, BufWriter, is_nil, write, flush}
use hcdb.Wal.Record.{Entry, write_data_buff, total_length}

-- os.File as the log uses it.
pub record LogFile : Type 1 where
  pub writer : Writer
  pub open writer use *
  pub fsync : State → Option Error × State
  pub content_fsync : (s : State) → content (fsync s).1 ≡ content s

pub record Wal (S : Type 0) : Type 0 where
  pub buf_writer : BufWriter S
  pub put_counter : ℕ

module _ (f : LogFile) where
  abbrev pub LogWriter : Type 0
  LogWriter = BufWriter f.State

  -- A write after which Append goes on only if it returned no error.
  abbrev pub and_then : LogWriter → (LogWriter → LogWriter) → LogWriter
  and_then b next = if is_nil b.error then next b else b

  -- The error that Append returns is the error field of the writer, which is sticky.
  unfoldable pub append : Entry → LogWriter → LogWriter
  append e b =
      let data_bytes = write_data_buff e in
      let checksum = checksum_ieee data_bytes in
      and_then (write f.writer (put_uint 4 (total_length data_bytes)) b)
        λ b₁. and_then (write f.writer data_bytes b₁) λ b₂. write f.writer (put_uint 4 checksum) b₂

  -- Sync: Flush, then File.Sync if there was no error.
  unfoldable pub sync : LogWriter → Option Error × LogWriter
  sync b =
      let b' = flush f.writer b in
      if is_nil b'.error
      then (let (e, s) = f.fsync b'.under in (e, record b' { under = s }))
      else (b'.error, b')

  -- A sync that fails leaves the counter where it is.
  unfoldable pub count_put : Wal f.State → Option Error × Wal f.State
  unfolding sync
  count_put w =
      let counted = record w { put_counter = w.put_counter + 1 } in
      if leb default_sync_threshold counted.put_counter
      then (let (e, b) = sync w.buf_writer in
          if is_nil e
          then (none, record { buf_writer = b; put_counter = 0 })
          else (e, record counted { buf_writer = b }))
      else (none, counted)

  -- write, which Put and Delete share.
  unfoldable pub write_entry : Entry → Wal f.State → Option Error × Wal f.State
  unfolding append count_put
  write_entry e w =
      let b = append e w.buf_writer in
      if is_nil b.error
      then count_put (record w { buf_writer = b })
      else (b.error, record w { buf_writer = b })

  unfoldable pub put : Bytes → Bytes → Wal f.State → Option Error × Wal f.State
  unfolding write_entry
  put key value w = write_entry (record { key = key; value = value }) w

  unfoldable pub delete : Bytes → Wal f.State → Option Error × Wal f.State
  unfolding write_entry
  delete key w = write_entry (record { key = key; value = [] }) w

  -- Open, once os.OpenFile has returned the file.
  unfoldable pub open_wal : f.State → Wal f.State
  open_wal s = record {
    buf_writer = record { buffer = []; error = none; under = s };
    put_counter = 0;
  }

  -- Entries written one after the other, whatever each call returns.
  unfoldable pub write_all : List Entry → Wal f.State → Wal f.State
  write_all [] w = w
  write_all (e ∷ es) w = write_all es (write_entry e w).1

  -- Entries written one after the other, up to the first error: the state if there was none.
  unfoldable pub acknowledged : List Entry → Wal f.State → Option (Wal f.State)
  acknowledged [] w = some w
  acknowledged (e ∷ es) w =
      let (x, w') = write_entry e w in
      let rest = acknowledged es w' in if is_nil x then rest else none
