-- ===== src/Resp/Tests.antt =====
-- The theorems on the protocol at concrete inputs.
use hcdb.Prelude.{
  ◌≤◌, ◌<◌, ◌≡◌, ◌≢◌, refl, ap, arith, [], ◌∷◌, ◌++◌, length, take, take-length, drop, none, ok,
  err, Error, out_of_fuel, is_panic, true, false, ◌⊎◌,
}
use hcdb.Binary.{Bytes}
use hcdb.Bufio.{Writer, BufWriter, write, flush}
use hcdb.Resp.{
  Value, integer, bulk_string, null_bulk_string, array, no_values, value, count, encode,
  write_value, write_reply,
}
use hcdb.Resp.Decimal.{negsuc, format_int, format_nat, format_loop}
use hcdb.Resp.Reader.{read}
use hcdb.Resp.Shape.{Fits}
use hcdb.Resp.Channel.{read-write_reply}
use hcdb.Resp.Ends.{HasTooLong, read_ends}

-- An array of a string with a line end in it, a number, a null and an empty array.
abbrev mixed : Value
mixed = array (
    value (bulk_string (b'a' ∷ b'\r' ∷ b'\n' ∷ []))
      (value (integer (negsuc 11)) (value null_bulk_string (value (array no_values) no_values))))

mixed-Fits : Fits mixed
unfolding count
mixed-Fits = (omega arith, (omega arith, (omega arith, (tt, ((omega arith, tt), tt)))))

memory_content_after : (p s : Bytes) → s ++ p ≡ s ++ take (length p) p
memory_content_after p s = ap (λ (l : Bytes). s ++ l) (rw take-length)

memory_le : (p : Bytes) → length p ≤ length p
memory_le p = omega arith

abbrev memory : Writer
memory = record {
  State = Bytes;
  write_to = λ p s. record { count = length p; error = none; after = s ++ p };
  content = λ s. s;
  count_le = λ p s. memory_le p;
  count_eq = λ p s e. refl;
  content_after = λ p s. memory_content_after p s;
}

-- A reply has gone over the connection already.
abbrev conn : BufWriter Bytes
conn = record { buffer = []; error = none; under = b'+' ∷ b'O' ∷ b'K' ∷ b'\r' ∷ b'\n' ∷ [] }

sent : (write_reply memory mixed conn).error ≡ none
unfolding write_reply write_value write flush format_int format_nat format_loop count
sent = refl

read-write_reply_example :
    ((write_reply memory mixed conn).under ≡ conn.under ++ encode mixed)
    × ((write_reply memory mixed conn).buffer ≡ [])
    × (read (drop 5 (write_reply memory mixed conn).under) ≡ ok (mixed, []))
read-write_reply_example = read-write_reply memory mixed conn mixed-Fits refl sent

abbrev cut_short : Bytes
cut_short = b'*' ∷ b'2' ∷ b'\r' ∷ b'\n' ∷ b':' ∷ b'1' ∷ b'\n' ∷ b'$' ∷ []

read_ends_example :
    ((v : Value) × (rest : Bytes) × (read cut_short ≡ ok (v, rest)) × (length rest < 8))
    ⊎ ((e : Error) × (read cut_short ≡ err e) × (e ≢ out_of_fuel) × (is_panic e ≡ false))
    ⊎ ((e : Error) × (read cut_short ≡ err e) × (is_panic e ≡ true) × HasTooLong cut_short)
read_ends_example = read_ends cut_short
