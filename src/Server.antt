-- ===== src/Server.antt =====
-- server/dispatch.go, types.go, and the loop of handleConn in server.go. The database is the
-- interface that dispatch uses of package db; one mutex there makes each call one step.
pub mod Deletes
pub mod Stored
pub mod Serves
mod Tests
use hcdb.Prelude.{
  ℕ, zero, suc, ◌+◌, ◌≡◌, List, [], ◌∷◌, ◌++◌, length, ◌==◌, ◌||◌, if◌then◌else◌, Bool, true, false,
  Option, none, some, Result, ok, err, Error, is_panic,
}
use hcdb.Binary.{Bytes, bytes, bytes_equal}
use hcdb.Bufio.{Writer, BufWriter, is_nil}
use hcdb.Resp.{
  Value, Values, simple_string, error, integer, bulk_string, null_bulk_string, array, null_array,
  no_values, value, write_reply,
}
use hcdb.Resp.Decimal.{pos}
use hcdb.Resp.Reader.{read}

-- What dispatch uses of *db.DB. An error of Put or Delete comes with the state that it leaves.
pub record Database : Type 1 where
  pub State : Type 0
  pub get : Bytes → State → Option Bytes
  pub put : Bytes → Bytes → State → Option Error × State
  pub delete : Bytes → State → Option Error × State
  -- Scan, and the pairs that its iterator yields
  pub scan : Bytes → Bytes → State → Result (List (Bytes × Bytes))
  -- err.Error()
  pub error_text : Error → Bytes

-- The Str of a bulk string, which is empty for a null. `none` is any other type.
abbrev pub bulk_text : Value → Option Bytes
bulk_text (bulk_string s) = some s
bulk_text null_bulk_string = some []
bulk_text _ = none

-- The loop that checks the elements, and their texts.
unfoldable pub texts : Values → Option (List Bytes)
texts no_values = some []
texts (value v vs) = elim (bulk_text v) [
  | none ↦ none
  | some s ↦ elim (texts vs) [ none ↦ none | some ss ↦ some (s ∷ ss) ]
]

abbrev pub wrong_number : Bytes → Value
wrong_number name = error (bytes "ERR wrong number of arguments for '" ++ (name ++ bytes "'"))

unfoldable pub do_ping : List Bytes → Value
do_ping [] = simple_string (bytes "PONG")
do_ping (arg ∷ args) = bulk_string arg

-- elems, two for each pair.
unfoldable pub pair_values : List (Bytes × Bytes) → Values
pair_values [] = no_values
pair_values ((key, val) ∷ pairs) =
    value (bulk_string key) (value (bulk_string val) (pair_values pairs))

module _ (db : Database) where
  abbrev pub failure : Error → Value
  failure e = error (bytes "ERR " ++ db.error_text e)

  abbrev pub ok_or : Option Error → Value → Value
  ok_or none reply = reply
  ok_or (some e) reply = failure e

  unfoldable pub do_set : List Bytes → db.State → Value × db.State
  do_set (key ∷ val ∷ []) d =
      let (e, d) = db.put key val d in (ok_or e (simple_string (bytes "OK")), d)
  do_set _ d = (wrong_number (bytes "SET"), d)

  abbrev pub bulk_or_null : Option Bytes → Value
  bulk_or_null none = null_bulk_string
  bulk_or_null (some val) = bulk_string val

  unfoldable pub do_get : List Bytes → db.State → Value
  do_get (key ∷ []) d = bulk_or_null (db.get key d)
  do_get _ d = wrong_number (bytes "GET")

  abbrev pub is_some : Option Bytes → Bool
  is_some none = false
  is_some (some val) = true

  -- The loop of doDel. removed stays far below 2^63.
  unfoldable pub del_loop : ℕ → List Bytes → db.State → Value × db.State
  del_loop removed [] d = (integer (pos removed), d)
  del_loop removed (key ∷ args) d =
      let now = if is_some (db.get key d) then removed + 1 else removed in
      let (e, d) = db.delete key d in
      let rest = del_loop now args d in elim e [ none ↦ rest | some failed ↦ (failure failed, d) ]

  unfoldable pub do_del : List Bytes → db.State → Value × db.State
  do_del [] d = (wrong_number (bytes "DEL"), d)
  do_del (key ∷ args) d = del_loop 0 (key ∷ args) d

  unfoldable pub do_scan : List Bytes → db.State → Value
  do_scan (lower ∷ upper ∷ []) d = elim (db.scan lower upper d) [
    | err e ↦ failure e
    | ok pairs ↦ array (pair_values pairs)
  ]
  do_scan _ d = wrong_number (bytes "SCAN")

  -- strings.ToUpper, which also maps letters outside ASCII.
  module _ (to_upper : Bytes → Bytes) where
    -- The switch on the name.
    unfoldable pub run_command : Bytes → List Bytes → db.State → Value × db.State
    run_command first args d =
        let name = to_upper first in
        if bytes_equal name (bytes "SET")
        then do_set args d
        else if bytes_equal name (bytes "GET")
        then (do_get args d, d)
        else if bytes_equal name (bytes "DEL")
        then do_del args d
        else if bytes_equal name (bytes "SCAN")
        then (do_scan args d, d)
        else if bytes_equal name (bytes "PING")
        then (do_ping args, d)
        else (error (bytes "ERR unknown command '" ++ (first ++ bytes "'")), d)

    abbrev pub run_texts : Option (List Bytes) → db.State → Value × db.State
    run_texts none d = (error (bytes "ERR command elements must be bulk strings"), d)
    run_texts (some []) d = (error (bytes "ERR expected a non-empty command array"), d)
    run_texts (some (first ∷ args)) d = run_command first args d

    unfoldable pub dispatch : Value → db.State → Value × db.State
    dispatch (array vs) d = run_texts (texts vs) d
    dispatch _ d = (error (bytes "ERR expected a non-empty command array"), d)

    -- The loop of handleConn over the bytes that the client sends until it disconnects. Each round
    -- reads at least one byte, so their number is fuel enough. The last part says that Read panicked,
    -- which nothing recovers from: the process stops with all its connections.
    unfoldable pub serve_loop :
        (w : Writer)
        → ℕ
        → Bytes
        → BufWriter w.State
        → db.State
        → BufWriter w.State × db.State × Bool
    serve_loop w zero r b d = (b, d, false)
    serve_loop w (suc fuel) r b d = elim (read r) [
      | err e ↦ (b, d, is_panic e)
      | ok (cmd, later) ↦
          let (reply, d) = dispatch cmd d in
          let b = write_reply w reply b in
          let rest = serve_loop w fuel later b d in if is_nil b.error then rest else (b, d, false)
    ]

    unfoldable pub handle_conn :
        (w : Writer) → Bytes → w.State → db.State → BufWriter w.State × db.State × Bool
    handle_conn w r s d =
        serve_loop w (suc (length r)) r (record { buffer = []; error = none; under = s }) d
