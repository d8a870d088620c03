-- ===== src/Resp/RoundTrip.antt =====
-- Reading what was written (resp/reader.go, writer.go).
use hcdb.Prelude.{
  ℕ, zero, suc, ◌+◌, ◌-◌, ◌*◌, ◌^◌, ◌≤◌, ◌≡◌, refl, ap, ◌∙◌, arith, [], ◌∷◌, ◌++◌, length, ltb,
  ◌==◌, false, All, append_assoc, length-append, take-append, ok, Result,
}
use hcdb.Binary.{Bytes}
use hcdb.Binary.Reader.{read_full-append}
use hcdb.Resp.{
  Value, Values, simple_string, error, integer, bulk_string, null_bulk_string, array, null_array,
  no_values, value, count, crlf, line, encode, encode_all,
}
use hcdb.Resp.Decimal.{
  ℤ, pos, IsInt64, format_nat, format_int, parse_int, parse_nat, parse_digits, is_digit, negative,
  parse_int-format_nat, parse_int-format_int,
}
use hcdb.Resp.Reader.{
  make_slice, number, read_bulk, read_array, read_typed, read_with, read_value, read_values, read,
}
use hcdb.Resp.Shape.{
  IsInLine, Fits, FitsAll, format_nat-IsInLine, format_int-IsInLine, read_line-line,
}

abbrev Elems : Type 0
Elems = ℕ → Bytes → Result (Values × Bytes)

-- A line, and then what the switch makes of it.
read_with-line :
    (elems : Elems) (type_byte : ℕ) (text rest : Bytes)
    → IsInLine type_byte
    → All IsInLine text
    → read_with elems (line type_byte text ++ rest) ≡ read_typed elems (type_byte ∷ text) rest
unfolding read_with
read_with-line elems type_byte text rest here h =
    rw (read_with, read_line-line type_byte text rest here h) refl

read_bulk-append :
    (s rest : Bytes)
    → length s + 2 ≤ 2 ^ 48
    → read_bulk (pos (length s)) ((s ++ crlf) ++ rest) ≡ ok (bulk_string s, rest)
unfolding read_bulk make_slice
read_bulk-append s rest small =
    let fits : ltb (2 ^ 48) ((length s + 2) * 1) ≡ false = ground arith in
    rw
      (
        read_bulk,
        make_slice,
        fits,
        read_full-append (length s + 2) (s ++ crlf) rest (length-append s crlf),
      )
      (ap (λ l. ok (bulk_string l, rest)) (take-append s crlf))

read_with-bulk :
    (elems : Elems) (s rest : Bytes)
    → length s + 2 ≤ 2 ^ 48
    → read_with elems (encode (bulk_string s) ++ rest) ≡ ok (bulk_string s, rest)
unfolding encode read_typed number
read_with-bulk elems s rest small =
    let header = line b'$' (format_nat (length s)) in
    ap (read_with elems) (append_assoc header (s ++ crlf) rest)
    ∙ read_with-line elems b'$' (format_nat (length s)) ((s ++ crlf) ++ rest) refl
        (format_nat-IsInLine (length s))
    ∙ ap (λ n. number n (λ z. read_bulk z ((s ++ crlf) ++ rest)))
        (parse_int-format_nat (length s) (omega arith))
    ∙ read_bulk-append s rest small

read_array-step :
    (elems : Elems) (vs : Values) (r rest : Bytes)
    → 64 * count vs ≤ 2 ^ 48
    → elems (count vs) r ≡ ok (vs, rest)
    → read_array elems (pos (count vs)) r ≡ ok (array vs, rest)
unfolding read_array make_slice
read_array-step elems vs r rest small reads =
    let fits : ltb (2 ^ 48) (count vs * 64) ≡ false = ground arith in
    rw (read_array, make_slice, fits, reads) refl

read_with-array :
    (elems : Elems) (vs : Values) (rest : Bytes)
    → 64 * count vs ≤ 2 ^ 48
    → elems (count vs) (encode_all vs ++ rest) ≡ ok (vs, rest)
    → read_with elems (encode (array vs) ++ rest) ≡ ok (array vs, rest)
unfolding encode read_typed number
read_with-array elems vs rest small reads =
    let header = line b'*' (format_nat (count vs)) in
    ap (read_with elems) (append_assoc header (encode_all vs) rest)
    ∙ read_with-line elems b'*' (format_nat (count vs)) (encode_all vs ++ rest) refl
        (format_nat-IsInLine (count vs))
    ∙ ap (λ n. number n (λ z. read_array elems z (encode_all vs ++ rest)))
        (parse_int-format_nat (count vs) (omega arith))
    ∙ read_array-step elems vs (encode_all vs ++ rest) rest small reads

read_with-integer :
    (elems : Elems) (z : ℤ) (rest : Bytes)
    → IsInt64 z
    → read_with elems (encode (integer z) ++ rest) ≡ ok (integer z, rest)
unfolding encode read_typed number
read_with-integer elems z rest small =
    read_with-line elems b':' (format_int z) rest refl (format_int-IsInLine z)
    ∙ ap (λ n. number n (λ i. ok (integer i, rest))) (parse_int-format_int z small)

read_with-text :
    (elems : Elems) (s rest : Bytes)
    → All IsInLine s
    → (read_with elems (encode (simple_string s) ++ rest) ≡ ok (simple_string s, rest))
      × (read_with elems (encode (error s) ++ rest) ≡ ok (error s, rest))
unfolding encode read_typed
read_with-text elems s rest h =
    (read_with-line elems b'+' s rest refl h, read_with-line elems b'-' s rest refl h)

read_with-null :
    (elems : Elems) (rest : Bytes)
    → (read_with elems (encode null_bulk_string ++ rest) ≡ ok (null_bulk_string, rest))
      × (read_with elems (encode null_array ++ rest) ≡ ok (null_array, rest))
unfolding encode read_typed number parse_int parse_nat parse_digits is_digit negative read_bulk
    read_array
read_with-null elems rest = (
  read_with-line elems b'$' (b'-' ∷ b'1' ∷ []) rest refl (refl, (refl, tt)),
  read_with-line elems b'*' (b'-' ∷ b'1' ∷ []) rest refl (refl, (refl, tt)),
)

length-line : (type_byte : ℕ) (text : Bytes) → length (line type_byte text) ≡ length text + 3
length-line type_byte text = omega (arith, length-append text crlf)

pub length-encode : (v : Value) → 3 ≤ length (encode v)
unfolding encode
length-encode (simple_string s) = omega (arith, length-line b'+' s)
length-encode (error s) = omega (arith, length-line b'-' s)
length-encode (integer z) = omega (arith, length-line b':' (format_int z))
length-encode (bulk_string s) = omega (
  arith,
  length-append (line b'$' (format_nat (length s))) (s ++ crlf),
  length-line b'$' (format_nat (length s)),
)
length-encode null_bulk_string = omega arith
length-encode (array vs) = omega (
  arith,
  length-append (line b'*' (format_nat (count vs))) (encode_all vs),
  length-line b'*' (format_nat (count vs)),
)
length-encode null_array = omega arith

length-array : (vs : Values) → length (encode_all vs) + 3 ≤ length (encode (array vs))
unfolding encode
length-array vs = omega (
  arith,
  length-append (line b'*' (format_nat (count vs))) (encode_all vs),
  length-line b'*' (format_nat (count vs)),
)

values_step :
    (f : ℕ) (v : Value) (vs : Values) (n : ℕ) (r r' rest : Bytes)
    → read_value f r ≡ ok (v, r')
    → read_values f n r' ≡ ok (vs, rest)
    → read_values (suc f) (suc n) r ≡ ok (value v vs, rest)
unfolding read_values
values_step f v vs n r r' rest first later =
    let less : suc n - 1 ≡ n = omega arith in
    let more : (suc n == 0) ≡ false = ground arith in
    rw (read_values, more, first, less, later) refl

mutual
  unfolding read_value encode_all read_values count

  pub read_value-encode :
      (v : Value) (f : ℕ) (rest : Bytes)
      → Fits v
      → 2 * length (encode v) + 1 ≤ f
      → read_value f (encode v ++ rest) ≡ ok (v, rest)
  read_value-encode v zero rest fits enough = absurd (omega arith)
  read_value-encode (simple_string s) (suc f) rest fits enough =
      (read_with-text (read_values f) s rest fits).0
  read_value-encode (error s) (suc f) rest fits enough =
      (read_with-text (read_values f) s rest fits).1
  read_value-encode (integer z) (suc f) rest fits enough =
      read_with-integer (read_values f) z rest fits
  read_value-encode (bulk_string s) (suc f) rest fits enough =
      read_with-bulk (read_values f) s rest fits
  read_value-encode null_bulk_string (suc f) rest fits enough =
      (read_with-null (read_values f) rest).0
  read_value-encode (array vs) (suc f) rest fits enough =
      read_with-array (read_values f) vs rest fits.0
        (read_values-encode_all vs f rest fits.1 (omega (arith, length-array vs)))
  read_value-encode null_array (suc f) rest fits enough = (read_with-null (read_values f) rest).1

  read_values-encode_all :
      (vs : Values) (f : ℕ) (rest : Bytes)
      → FitsAll vs
      → 2 * length (encode_all vs) + 2 ≤ f
      → read_values f (count vs) (encode_all vs ++ rest) ≡ ok (vs, rest)
  read_values-encode_all vs zero rest fits enough = absurd (omega arith)
  read_values-encode_all no_values (suc f) rest fits enough = refl
  read_values-encode_all (value v vs) (suc f) rest fits enough =
      let sizes = length-append (encode v) (encode_all vs) in
      values_step f v vs (count vs) ((encode v ++ encode_all vs) ++ rest) (encode_all vs ++ rest)
        rest
        (ap (read_value f) (append_assoc (encode v) (encode_all vs) rest)
          ∙ read_value-encode v f (encode_all vs ++ rest) fits.0 (omega (arith, sizes)))
        (read_values-encode_all vs f rest fits.1 (omega (arith, sizes, length-encode v)))

-- A value whose texts of one line hold no line feed, whose integers are of 64 bits, and whose strings and arrays are not too long for make. What the writer makes of it, followed by anything, is read back as the value, and exactly what follows is left. The fuel is enough.
pub read-encode : (v : Value) (rest : Bytes) → Fits v → read (encode v ++ rest) ≡ ok (v, rest)
unfolding read
read-encode v rest fits =
    read_value-encode v (2 * length (encode v ++ rest) + 1) rest fits
      (omega (arith, length-append (encode v) rest))
