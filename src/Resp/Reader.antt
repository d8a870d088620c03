-- ===== src/Resp/Reader.antt =====
-- resp/reader.go: Read. The reader is the bytes that are still to come on the connection.
use hcdb.Prelude.{
  ℕ, zero, suc, ◌+◌, ◌-◌, ◌*◌, ◌^◌, [], ◌∷◌, length, take, get_elem?, ltb, leb, ◌==◌, ◌&&◌,
  if◌then◌else◌, Option, none, some, Result, ok, err, ◌>>=◌, eof, empty_line, bad_number,
  unknown_type, len_out_of_range, out_of_fuel,
}
use mathlib.Core.Option.{get_or}
use hcdb.Binary.{Bytes}
use hcdb.Binary.Reader.{read_full}
use hcdb.Resp.{
  Value, Values, simple_string, error, integer, bulk_string, null_bulk_string, array, null_array,
  no_values, value,
}
use hcdb.Resp.Decimal.{ℤ, pos, negsuc, parse_int}

-- ReadString: up to and with the delimiter. What comes before the end of the input is dropped with
-- the error.
unfoldable pub read_string : ℕ → Bytes → Result (Bytes × Bytes)
read_string delim [] = err eof
read_string delim (c ∷ cs) =
    let more = (do (text, r) ← read_string delim cs; ok (c ∷ text, r)) in
    if c == delim then ok (c ∷ [], cs) else more

unfoldable pub strip_line : Bytes → Bytes
strip_line text =
    let n = length text in
    if leb 2 n && get_or (get_elem? text (n - 2)) 0 == b'\r'
    then take (n - 2) text
    else take (n - 1) text

unfoldable pub read_line : Bytes → Result (Bytes × Bytes)
read_line r = do (text, r) ← read_string b'\n' r; ok (strip_line text, r)

-- make, which panics on a slice of more than 2^48 bytes: the address space of a 64-bit machine. The
-- panic ends every caller, as an error does here; is_panic tells it from an error that Read returns.
unfoldable pub make_slice : {A : Type 0} → ℕ → ℕ → Result A → Result A
make_slice elem_size n next = if ltb (2 ^ 48) (n * elem_size) then err len_out_of_range else next

-- A parsed number, or the error that wraps strconv's.
unfoldable pub number : {A : Type 0} → Option ℤ → (ℤ → Result A) → Result A
number none next = err bad_number
number (some n) next = next n

-- case BulkString, once the length is parsed.
unfoldable pub read_bulk : ℤ → Bytes → Result (Value × Bytes)
read_bulk (negsuc n) r = ok (null_bulk_string, r)
read_bulk (pos n) r =
    make_slice 1 (n + 2) (do (buf, r) ← read_full (n + 2) r; ok (bulk_string (take n buf), r))

-- case Array, with the loop over the elements. A Value takes 64 bytes.
unfoldable pub read_array :
    (ℕ → Bytes → Result (Values × Bytes)) → ℤ → Bytes → Result (Value × Bytes)
read_array read_elems (negsuc n) r = ok (null_array, r)
read_array read_elems (pos n) r =
    make_slice 64 n (do (elems, r) ← read_elems n r; ok (array elems, r))

-- The switch on the first byte of the line.
unfoldable pub read_typed :
    (ℕ → Bytes → Result (Values × Bytes)) → Bytes → Bytes → Result (Value × Bytes)
read_typed read_elems [] r = err empty_line
read_typed read_elems (type_byte ∷ text) r =
    if type_byte == b'+'
    then ok (simple_string text, r)
    else if type_byte == b'-'
    then ok (error text, r)
    else if type_byte == b':'
    then number (parse_int text) (λ n. ok (integer n, r))
    else if type_byte == b'$'
    then number (parse_int text) (λ n. read_bulk n r)
    else if type_byte == b'*'
    then number (parse_int text) (λ n. read_array read_elems n r)
    else err unknown_type

-- The next value, once the loop for the elements of an array is given.
unfoldable pub read_with : (ℕ → Bytes → Result (Values × Bytes)) → Bytes → Result (Value × Bytes)
read_with read_elems r = do (text, r) ← read_line r; read_typed read_elems text r

-- Each call costs a unit of fuel.
unfoldable mutual
  pub read_value : ℕ → Bytes → Result (Value × Bytes)
  read_value zero r = err out_of_fuel
  read_value (suc fuel) r = read_with (read_values fuel) r

  pub read_values : ℕ → ℕ → Bytes → Result (Values × Bytes)
  read_values zero n r = err out_of_fuel
  read_values (suc fuel) n r =
      let more = (do
        (v, r) ← read_value fuel r
        (vs, r) ← read_values fuel (n - 1) r
        ok (value v vs, r)) in
      if n == 0 then ok (no_values, r) else more

-- The fuel is enough on every input: see Ends.
unfoldable pub read : Bytes → Result (Value × Bytes)
read r = read_value (2 * length r + 1) r
