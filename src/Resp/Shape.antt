-- ===== src/Resp/Shape.antt =====
-- The lines of the protocol, and the values that it can carry (resp/reader.go, writer.go).
use hcdb.Prelude.{
  ℕ, suc, ◌+◌, ◌-◌, ◌*◌, ◌^◌, ◌≤◌, ◌≡◌, refl, ap, ◌∙◌, arith, [], ◌∷◌, ◌++◌, length, leb, ◌==◌,
  false, true, All, All-append, append_assoc, length-append, take-append, get_elem?-append_right,
  ok,
}
use hcdb.Binary.{Bytes}
use hcdb.Resp.{
  Value, Values, simple_string, error, integer, bulk_string, null_bulk_string, array, null_array,
  no_values, value, count, crlf, line,
}
use hcdb.Resp.Decimal.{
  ℤ, pos, negsuc, IsInt64, IsDigit, is_digit, format_nat, format_int, format_nat-IsDigit,
}
use hcdb.Resp.Reader.{read_string, strip_line, read_line}

abbrev pub IsInLine : ℕ → Type 0
IsInLine c = (c == b'\n') ≡ false

-- A text of one line has no line feed, and sizes are within what make allows.
abbrev mutual
  pub Fits : Value → Type 0
  Fits (simple_string s) = All IsInLine s
  Fits (error s) = All IsInLine s
  Fits (integer n) = IsInt64 n
  Fits (bulk_string s) = length s + 2 ≤ 2 ^ 48
  Fits null_bulk_string = Unit {0}
  Fits (array vs) = (64 * count vs ≤ 2 ^ 48) × FitsAll vs
  Fits null_array = Unit {0}

  pub FitsAll : Values → Type 0
  FitsAll no_values = Unit {0}
  FitsAll (value v vs) = Fits v × FitsAll vs

digit-IsInLine : (c : ℕ) → IsDigit c → IsInLine c
unfolding is_digit
digit-IsInLine c h = ground (arith, h)

digits-IsInLine : (ds : Bytes) → All IsDigit ds → All IsInLine ds
digits-IsInLine [] h = tt
digits-IsInLine (c ∷ cs) h = (digit-IsInLine c h.0, digits-IsInLine cs h.1)

pub format_nat-IsInLine : (n : ℕ) → All IsInLine (format_nat n)
format_nat-IsInLine n = digits-IsInLine (format_nat n) (format_nat-IsDigit n)

pub format_int-IsInLine : (z : ℤ) → All IsInLine (format_int z)
unfolding format_int
format_int-IsInLine (pos n) = format_nat-IsInLine n
format_int-IsInLine (negsuc n) = (refl, format_nat-IsInLine (suc n))

read_string-append :
    (text rest : Bytes)
    → All IsInLine text
    → read_string b'\n' (text ++ (b'\n' ∷ rest)) ≡ ok (text ++ (b'\n' ∷ []), rest)
unfolding read_string
read_string-append [] rest h = refl
read_string-append (c ∷ cs) rest h = rw (read_string, h.0, read_string-append cs rest h.1) refl

strip_line-crlf : (text : Bytes) → strip_line (text ++ crlf) ≡ text
unfolding strip_line
strip_line-crlf text =
    let size : length (text ++ crlf) ≡ length text + 2 = length-append text crlf in
    let long : leb 2 (length text + 2) ≡ true = ground arith in
    let less : length text + 2 - 2 ≡ length text + 0 = omega arith in
    let same : length text + 0 ≡ length text = omega arith in
    rw (strip_line, size, long, less, get_elem?-append_right text crlf 0, same)
      (take-append text crlf)

pub read_line-line :
    (type_byte : ℕ) (text rest : Bytes)
    → IsInLine type_byte
    → All IsInLine text
    → read_line (line type_byte text ++ rest) ≡ ok (type_byte ∷ text, rest)
unfolding read_line
read_line-line type_byte text rest here h =
    let body = type_byte ∷ (text ++ (b'\r' ∷ [])) in
    let on_body : All IsInLine body = (here, All-append IsInLine text (b'\r' ∷ []) h (refl, tt)) in
    let split : line type_byte text ++ rest ≡ body ++ (b'\n' ∷ rest) =
      cc (append_assoc text (b'\r' ∷ []) (b'\n' ∷ rest), append_assoc text crlf rest) in
    let joined : body ++ (b'\n' ∷ []) ≡ (type_byte ∷ text) ++ crlf =
      cc (append_assoc text (b'\r' ∷ []) (b'\n' ∷ [])) in
    rw (split, read_line, read_string-append body rest on_body)
      (ap (λ l. ok (l, rest)) (ap strip_line joined ∙ strip_line-crlf (type_byte ∷ text)))
