-- ===== src/Resp/Decimal.antt =====
-- The decimal numbers of the protocol: fmt's %d, and strconv.ParseInt in base 10 at 64 bits, which
-- Atoi is on a machine of 64 bits (resp/reader.go, writer.go).
use hcdb.Prelude.{
  ℕ, zero, suc, ◌+◌, ◌-◌, ◌*◌, ◌/◌, ◌%◌, ◌^◌, ◌≤◌, ◌<◌, ◌≡◌, refl, ap, ◌∙◌, arith, [], ◌∷◌, length,
  ltb, leb, ◌==◌, ◌&&◌, if◌then◌else◌, Bool, true, false, Option, none, some, inl, inr, Bool-cases,
  All,
}
use hcdb.Binary.{Bytes}

pub data ℤ : Type 0 where
  pos : ℕ → ℤ
  -- negsuc n is -(n + 1)
  negsuc : ℕ → ℤ

-- From the last digit to the first. A round divides by ten.
unfoldable pub format_loop : ℕ → ℕ → Bytes → Bytes
format_loop zero n acc = acc
format_loop (suc fuel) n acc =
    let digit = b'0' + n % 10 in
    let rest = format_loop fuel (n / 10) (digit ∷ acc) in if ltb n 10 then digit ∷ acc else rest

unfoldable pub format_nat : ℕ → Bytes
format_nat n = format_loop (suc n) n []

unfoldable pub format_int : ℤ → Bytes
format_int (pos n) = format_nat n
format_int (negsuc n) = b'-' ∷ format_nat (suc n)

unfoldable pub is_digit : ℕ → Bool
is_digit c = leb b'0' c && leb c b'9'

-- The digits so far, and the rest. `none` is ErrSyntax.
unfoldable pub parse_digits : ℕ → Bytes → Option ℕ
parse_digits n [] = some n
parse_digits n (c ∷ cs) =
    let rest = parse_digits (n * 10 + (c - b'0')) cs in if is_digit c then rest else none

unfoldable pub parse_nat : Bytes → Option ℕ
parse_nat [] = none
parse_nat (c ∷ cs) = parse_digits 0 (c ∷ cs)

-- What is past the range of an int64 is ErrRange.
unfoldable pub positive : Option ℕ → Option ℤ
positive none = none
positive (some n) = if ltb n (2 ^ 63) then some (pos n) else none

unfoldable pub negative : Option ℕ → Option ℤ
negative none = none
negative (some zero) = some (pos 0)
negative (some (suc n)) = if ltb n (2 ^ 63) then some (negsuc n) else none

unfoldable pub parse_int : Bytes → Option ℤ
parse_int [] = none
parse_int (c ∷ cs) =
    if c == b'-'
    then negative (parse_nat cs)
    else if c == b'+'
    then positive (parse_nat cs)
    else positive (parse_nat (c ∷ cs))

abbrev pub IsDigit : ℕ → Type 0
IsDigit c = is_digit c ≡ true

format_loop-IsDigit :
    (fuel n : ℕ) (acc : Bytes) → All IsDigit acc → All IsDigit (format_loop fuel n acc)
unfolding format_loop is_digit
format_loop-IsDigit zero n acc h = h
format_loop-IsDigit (suc fuel) n acc h =
    let here : is_digit (b'0' + n % 10) ≡ true = ground arith in
    elim (Bool-cases (ltb n 10)) [
      | inl last ↦ rw (format_loop, last) (here, h)
      | inr more ↦
          rw (format_loop, more)
            (format_loop-IsDigit fuel (n / 10) ((b'0' + n % 10) ∷ acc) (here, h))
    ]

pub format_nat-IsDigit : (n : ℕ) → All IsDigit (format_nat n)
unfolding format_nat
format_nat-IsDigit n = format_loop-IsDigit (suc n) n [] tt

parse_digit :
    (m d : ℕ) (acc : Bytes)
    → d < 10
    → parse_digits m ((b'0' + d) ∷ acc) ≡ parse_digits (m * 10 + d) acc
unfolding parse_digits is_digit
parse_digit m d acc small =
    let digit : is_digit (b'0' + d) ≡ true = ground arith in
    let value : m * 10 + ((b'0' + d) - b'0') ≡ m * 10 + d = omega arith in
    rw (parse_digits, digit) (ap (λ n. parse_digits n acc) value)

parse-format_loop :
    (fuel n : ℕ) (acc : Bytes)
    → n < fuel
    → parse_digits 0 (format_loop fuel n acc) ≡ parse_digits n acc
unfolding format_loop
parse-format_loop zero n acc enough = absurd (omega arith)
parse-format_loop (suc fuel) n acc enough = elim (Bool-cases (ltb n 10)) [
  | inl last ↦
      let same : 0 * 10 + n % 10 ≡ n = ground arith in
      rw (format_loop, last)
        (parse_digit 0 (n % 10) acc (omega arith) ∙ ap (λ m. parse_digits m acc) same)
  | inr more ↦
      let same : n / 10 * 10 + n % 10 ≡ n = omega arith in
      rw (format_loop, more)
        (parse-format_loop fuel (n / 10) ((b'0' + n % 10) ∷ acc) (ground arith)
          ∙ parse_digit (n / 10) (n % 10) acc (omega arith)
          ∙ ap (λ m. parse_digits m acc) same)
]

length-format_loop : (fuel n : ℕ) (acc : Bytes) → length acc ≤ length (format_loop fuel n acc)
unfolding format_loop
length-format_loop zero n acc = omega arith
length-format_loop (suc fuel) n acc =
    ground (arith, length-format_loop fuel (n / 10) ((b'0' + n % 10) ∷ acc))

length-format_nat : (n : ℕ) → 0 < length (format_nat n)
unfolding format_nat format_loop
length-format_nat n = ground (arith, length-format_loop n (n / 10) ((b'0' + n % 10) ∷ []))

parse_nat_digits : (ds : Bytes) → 0 < length ds → parse_nat ds ≡ parse_digits 0 ds
unfolding parse_nat
parse_nat_digits [] h = absurd (omega arith)
parse_nat_digits (c ∷ cs) h = refl

pub parse_nat-format_nat : (n : ℕ) → parse_nat (format_nat n) ≡ some n
unfolding format_nat parse_digits
parse_nat-format_nat n =
    parse_nat_digits (format_nat n) (length-format_nat n)
    ∙ parse-format_loop (suc n) n [] (omega arith)

parse_int_digits : (ds : Bytes) → All IsDigit ds → parse_int ds ≡ positive (parse_nat ds)
unfolding parse_int positive parse_nat is_digit
parse_int_digits [] h = refl
parse_int_digits (c ∷ cs) h =
    let first = h.0 in
    let minus : (c == b'-') ≡ false = ground (arith, first) in
    let plus : (c == b'+') ≡ false = ground (arith, first) in rw (parse_int, minus, plus) refl

pub parse_int-format_nat : (n : ℕ) → n < 2 ^ 63 → parse_int (format_nat n) ≡ some (pos n)
unfolding positive
parse_int-format_nat n small =
    let fits : ltb n (2 ^ 63) ≡ true = ground arith in
    parse_int_digits (format_nat n) (format_nat-IsDigit n)
    ∙ ap positive (parse_nat-format_nat n)
    ∙ rw (positive, fits) refl

abbrev pub IsInt64 : ℤ → Type 0
IsInt64 (pos n) = n < 2 ^ 63
IsInt64 (negsuc n) = n < 2 ^ 63

pub parse_int-format_int : (z : ℤ) → IsInt64 z → parse_int (format_int z) ≡ some z
unfolding format_int parse_int negative
parse_int-format_int (pos n) small = parse_int-format_nat n small
parse_int-format_int (negsuc n) small =
    let fits : ltb n (2 ^ 63) ≡ true = ground arith in
    ap negative (parse_nat-format_nat (suc n)) ∙ rw (negative, fits) refl
