-- ===== src/Resp.antt =====
-- resp/resp.go and writer.go: the values of the protocol and how they are written. A Value holds
-- only the fields that its Type gives a meaning, so no value is of an unknown type. len is below 2^63.
pub mod Decimal
pub mod Reader
pub mod Shape
pub mod RoundTrip
pub mod Channel
pub mod Ends
mod Tests
use hcdb.Prelude.{ℕ, suc, ◌+◌, List, [], ◌∷◌, ◌++◌, length, if◌then◌else◌}
use hcdb.Binary.{Bytes}
use hcdb.Bufio.{Writer, BufWriter, is_nil, write, flush}
use hcdb.Resp.Decimal.{ℤ, format_nat, format_int}

mutual
  pub data Value : Type 0 where
    simple_string : Bytes → Value
    error : Bytes → Value
    integer : ℤ → Value
    bulk_string : Bytes → Value
    null_bulk_string : Value
    array : Values → Value
    null_array : Value

  -- []Value
  pub data Values : Type 0 where
    no_values : Values
    value : Value → Values → Values

unfoldable pub count : Values → ℕ
count no_values = 0
count (value v vs) = suc (count vs)

abbrev pub crlf : Bytes
crlf = b'\r' ∷ b'\n' ∷ []

abbrev pub line : ℕ → Bytes → Bytes
line type_byte text = type_byte ∷ (text ++ crlf)

-- The bytes of a value.
unfoldable mutual
  pub encode : Value → Bytes
  encode (simple_string s) = line b'+' s
  encode (error s) = line b'-' s
  encode (integer n) = line b':' (format_int n)
  encode (bulk_string s) = line b'$' (format_nat (length s)) ++ (s ++ crlf)
  encode null_bulk_string = line b'$' (b'-' ∷ b'1' ∷ [])
  encode (array vs) = line b'*' (format_nat (count vs)) ++ encode_all vs
  encode null_array = line b'*' (b'-' ∷ b'1' ∷ [])

  pub encode_all : Values → Bytes
  encode_all no_values = []
  encode_all (value v vs) = encode v ++ encode_all vs

-- write goes on after a Fprintf only if it returned no error.
unfoldable mutual
  pub write_value : (w : Writer) → Value → BufWriter w.State → BufWriter w.State
  write_value w (simple_string s) b = write w (line b'+' s) b
  write_value w (error s) b = write w (line b'-' s) b
  write_value w (integer n) b = write w (line b':' (format_int n)) b
  write_value w (bulk_string s) b = write w (line b'$' (format_nat (length s)) ++ (s ++ crlf)) b
  write_value w null_bulk_string b = write w (line b'$' (b'-' ∷ b'1' ∷ [])) b
  write_value w (array vs) b =
      let b' = write w (line b'*' (format_nat (count vs))) b in
      let rest = write_values w vs b' in if is_nil b'.error then rest else b'
  write_value w null_array b = write w (line b'*' (b'-' ∷ b'1' ∷ [])) b

  pub write_values : (w : Writer) → Values → BufWriter w.State → BufWriter w.State
  write_values w no_values b = b
  write_values w (value v vs) b =
      let b' = write_value w v b in
      let rest = write_values w vs b' in if is_nil b'.error then rest else b'

-- Write. Its error is the error field afterwards.
unfoldable pub write_reply : (w : Writer) → Value → BufWriter w.State → BufWriter w.State
write_reply w v b = let b' = write_value w v b in if is_nil b'.error then flush w b' else b'
