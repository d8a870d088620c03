-- ===== src/Wal/Tests.antt =====
-- The theorems on the log at concrete inputs: a file in memory, and one that fails after forty bytes.
use hcdb.Prelude.{
  ◌+◌, ◌≤◌, ◌<◌, ◌≡◌, refl, ap, arith, List, [], ◌∷◌, ◌++◌, drop, length, take, take-length, none,
  some, All,
}
use hcdb.Binary.{Bytes}
use hcdb.Bufio.{Writer}
use hcdb.FaultInjection.{FaultyWriter, faulty, faulty_write, faulty_content, faulty_write_bounds}
use hcdb.Config.{default_sync_threshold}
use hcdb.Wal.Record.{Entry, IsStorable, write_data_buff, total_length, record_bytes}
use hcdb.Binary.Uint.{put_uint}
use hcdb.Bufio.{write}
use hcdb.Wal.Replay.{Replayed, replay}
use hcdb.Wal.Replay.Torn.{log, IsTorn, torn, replay-log}
use hcdb.Wal.Replay.Sound.{replay_repairs}
use hcdb.Wal.Log.{
  LogFile, Wal, append, sync, count_put, write_entry, open_wal, write_all, acknowledged,
}
use hcdb.Wal.Log.Crash.{crash_recovery}
use hcdb.Wal.Log.Durable.{acknowledged_loss}
use mathlib.Core.Logic.{◌≢◌}

memory_content_after : (p s : Bytes) → s ++ p ≡ s ++ take (length p) p
memory_content_after p s = ap (λ (l : Bytes). s ++ l) (rw take-length)

-- A file in memory, which takes everything.
abbrev memory : Writer
memory = record {
  State = Bytes;
  write_to = λ p s. record { count = length p; error = none; after = s ++ p };
  content = λ s. s;
  count_le = λ p s. memory_le p;
  count_eq = λ p s e. refl;
  content_after = λ p s. memory_content_after p s;
}
  where
    memory_le : (p : Bytes) → length p ≤ length p
    memory_le p = omega arith

abbrev over : Writer → LogFile
over w = record { writer = w; fsync = λ s. (none, s); content_fsync = λ s. refl }

abbrev broken_at_forty : FaultyWriter Bytes
broken_at_forty = record { under = []; written = 0; fail_after = 40 }

abbrev put_entry : Entry
put_entry = record { key = 107 ∷ 1 ∷ 1 ∷ 0 ∷ 0 ∷ 0 ∷ 0 ∷ 0 ∷ 0 ∷ []; value = 118 ∷ 118 ∷ [] }

abbrev delete_entry : Entry
delete_entry = record { key = 107 ∷ 0 ∷ 2 ∷ 0 ∷ 0 ∷ 0 ∷ 0 ∷ 0 ∷ 0 ∷ []; value = [] }

abbrev two_entries : List Entry
two_entries = put_entry ∷ delete_entry ∷ []

two_entries-IsStorable : All IsStorable two_entries
two_entries-IsStorable = (
  record { key_fits = omega arith; value_fits = omega arith },
  (record { key_fits = omega arith; value_fits = omega arith }, tt),
)

-- The first five bytes of one more record.
abbrev five_bytes : Bytes
five_bytes = 23 ∷ 0 ∷ 0 ∷ 0 ∷ 9 ∷ []

five_bytes-IsTorn : IsTorn five_bytes
unfolding record_bytes write_data_buff total_length put_uint
five_bytes-IsTorn =
    torn put_entry 23 (0 ∷ 0 ∷ 0 ∷ 9 ∷ []) 0 (drop 6 (record_bytes put_entry))
      two_entries-IsStorable.0 refl

replay-log_example :
    replay (log two_entries ++ five_bytes)
    ≡ some (record { entries = two_entries; file = log two_entries })
replay-log_example = replay-log two_entries five_bytes two_entries-IsStorable five_bytes-IsTorn

-- A file that starts with a whole record, followed by one whose checksum is wrong.
abbrev damaged : Bytes
damaged =
    record_bytes delete_entry
    ++ (12 ∷ 0 ∷ 0 ∷ 0 ∷ 0 ∷ 0 ∷ 0 ∷ 0 ∷ 0 ∷ 0 ∷ 0 ∷ 0 ∷ 1 ∷ 2 ∷ 3 ∷ 4 ∷ [])

replay_repairs_example :
    (res : Replayed) × (cut : Bytes) × (replay damaged ≡ some res)
    × (damaged ≡ res.file ++ cut)
    × All IsStorable res.entries
    × (replay res.file ≡ some res)
replay_repairs_example = replay_repairs damaged

crash_recovery_example :
    (kept lost : List Entry) × (two_entries ≡ kept ++ lost)
    × (replay (
          faulty_content memory
            (write_all
              (over (faulty memory))
              two_entries
              (open_wal (over (faulty memory)) broken_at_forty)).buf_writer.under)
        ≡ some (record { entries = kept; file = log kept }))
crash_recovery_example =
    crash_recovery (over (faulty memory)) broken_at_forty two_entries refl two_entries-IsStorable

abbrev two_acknowledged : Wal Bytes
two_acknowledged = write_all (over memory) two_entries (open_wal (over memory) [])

all_acknowledged :
    acknowledged (over memory) two_entries (open_wal (over memory) []) ≡ some two_acknowledged
unfolding acknowledged write_all write_entry append count_put sync open_wal write put_uint
    write_data_buff
all_acknowledged = refl

acknowledged_loss_example :
    (kept lost : List Entry) × (two_entries ≡ kept ++ lost)
    × (length lost < default_sync_threshold)
    × (replay ((over memory).content two_acknowledged.buf_writer.under)
        ≡ some (record { entries = kept; file = log kept }))
acknowledged_loss_example =
    acknowledged_loss (over memory) [] two_entries two_acknowledged refl two_entries-IsStorable
      all_acknowledged

faulty_write_bounds_example :
    let r =
      faulty_write memory.write_to (1 ∷ 2 ∷ 3 ∷ []) (record broken_at_forty { written = 38 }) in
    (r.after.written ≤ 40) × (r.after.written ≡ 38 + r.count) × (40 < 38 + 3 → r.error ≢ none)
faulty_write_bounds_example =
    faulty_write_bounds memory (1 ∷ 2 ∷ 3 ∷ []) (record broken_at_forty { written = 38 })
      (omega arith)
