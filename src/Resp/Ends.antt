-- ===== src/Resp/Ends.antt =====
-- Read on any input (resp/reader.go).
use hcdb.Prelude.{
  ℕ, zero, suc, ◌+◌, ◌-◌, ◌*◌, ◌^◌, ◌≤◌, ◌<◌, ◌≡◌, ◌≢◌, refl, sym, subst, ap, ◌∙◌, arith, [], ◌∷◌,
  ◌++◌, length, take, drop, ltb, leb, ◌==◌, ok, err, Error, Result, ◌>>=◌, inl, inr, Bool-cases,
  out_of_fuel, Option, none, some, true, false, length-drop, ◌⊎◌, Result-cases, is_panic,
  append_assoc, take-append-drop, ltb→lt,
}
use hcdb.Binary.{Bytes}
use hcdb.Binary.Reader.{read_full}
use hcdb.Resp.{Value, Values, integer, bulk_string, array, value}
use hcdb.Resp.Decimal.{ℤ, pos, negsuc, parse_int}
use hcdb.Resp.Reader.{
  read_string, strip_line, read_line, make_slice, number, read_bulk, read_array, read_typed,
  read_with, read_value, read_values, read,
}

-- Of the input, what is left after some first bytes.
pub record IsRest (whole r : Bytes) : Type 0 where
  pub taken : Bytes
  pub split : whole ≡ taken ++ r

-- The line is a header of a bulk string or an array that is too long for make.
unfoldable pub IsTooLong : Bytes → Type 0
IsTooLong [] = ⊥
IsTooLong (t ∷ text) =
    (n : ℕ) × (parse_int text ≡ some (pos n))
    × (((t == b'$' ≡ true) × (2 ^ 48 < n + 2)) ⊎ ((t == b'*' ≡ true) × (2 ^ 48 < n * 64)))

-- Somewhere in the input such a line starts.
pub record HasTooLong (whole : Bytes) : Type 0 where
  pub before : Bytes
  pub after : Bytes
  pub line : Bytes
  pub rest : Bytes
  pub split : whole ≡ before ++ after
  pub reads : read_line after ≡ ok (line, rest)
  pub too_long : IsTooLong line

IsRest-refl : (whole : Bytes) → IsRest whole whole
IsRest-refl whole = record { taken = []; split = refl }

IsRest-trans : (a b c : Bytes) → IsRest a b → IsRest b c → IsRest a c
IsRest-trans a b c ab bc = record {
  taken = ab.taken ++ bc.taken;
  split = cc (ab.split, bc.split, append_assoc ab.taken bc.taken c);
}

module _ (whole : Bytes) where
  -- A value, with fewer bytes than the bound left of the input; or an error that Read returns; or a
  -- panic, for which the input has a cause.
  abbrev pub Leaves : {A : Type 0} → ℕ → Result (A × Bytes) → Type 0
  Leaves bound (ok (a, r)) = (length r < bound) × IsRest whole r
  Leaves bound (err e) = (e ≢ out_of_fuel) × (is_panic e ≡ true → HasTooLong whole)

  Leaves-more :
      {A : Type 0} (near far : ℕ) (m : Result (A × Bytes))
      → near ≤ far
      → Leaves near m
      → Leaves far m
  Leaves-more near far (ok (a, r)) le h = (omega arith, h.1)
  Leaves-more near far (err e) le h = h

  Leaves-bind :
      {A B : Type 0} (near far : ℕ) (m : Result (A × Bytes)) (next : A × Bytes → Result (B × Bytes))
      → Leaves near m
      → ((a : A) (r : Bytes)
          → m ≡ ok (a, r)
          → length r < near
          → IsRest whole r
          → Leaves far (next (a, r)))
      → Leaves far (m >>= next)
  Leaves-bind near far (ok (a, r)) next h go = go a r refl h.0 h.1
  Leaves-bind near far (err e) next h go = h

  module _ (r : Bytes) (here : IsRest whole r) where
    read_string-Leaves :
        (delim : ℕ) (cs : Bytes) → IsRest whole cs → Leaves (length cs) (read_string delim cs)
    unfolding read_string
    read_string-Leaves delim [] at = (λ e. absurd (cc), λ p. absurd (cc))
    read_string-Leaves delim (c ∷ cs) at =
        let next : IsRest whole cs =
          IsRest-trans whole (c ∷ cs) cs at (record { taken = c ∷ []; split = refl }) in
        elim (Bool-cases (c == delim)) [
          | inl ends ↦ rw (read_string, ends) (omega arith, next)
          | inr more ↦
              rw (read_string, more)
                (Leaves-bind (length cs) (suc (length cs)) (read_string delim cs)
                  (λ ((text, r) : Bytes × Bytes). ok (c ∷ text, r))
                  (read_string-Leaves delim cs next) (λ text r e lt rest. (omega arith, rest)))
        ]

    read_line-Leaves : Leaves (length r) (read_line r)
    unfolding read_line
    read_line-Leaves =
        Leaves-bind (length r) (length r) (read_string b'\n' r)
          (λ ((text, r) : Bytes × Bytes). ok (strip_line text, r)) (read_string-Leaves b'\n' r here)
          (λ text r e lt rest. (lt, rest))

    read_full-Leaves : (n : ℕ) → Leaves (suc (length r)) (read_full n r)
    unfolding read_full
    read_full-Leaves n = elim (Bool-cases (leb n (length r))) [
      | inl enough ↦
          let split : take n r ++ drop n r ≡ r = take-append-drop n r in
          rw (read_full, enough)
            (
              omega (arith, length-drop n r),
              IsRest-trans whole r (drop n r) here (record { taken = take n r; split = sym split }),
            )
      | inr short ↦ elim (Bool-cases (length r == 0)) [
        | inl empty ↦ rw (read_full, short, empty) (λ e. absurd (cc), λ p. absurd (cc))
        | inr some_left ↦ rw (read_full, short, some_left) (λ e. absurd (cc), λ p. absurd (cc))
      ]
    ]

    -- A panic of make has a header as its cause.
    make_slice-Leaves :
        {A : Type 0} (size n bound : ℕ) (next : Result (A × Bytes))
        → (2 ^ 48 < n * size → HasTooLong whole)
        → Leaves bound next
        → Leaves bound (make_slice size n next)
    unfolding make_slice
    make_slice-Leaves size n bound next cause h = elim (Bool-cases (ltb (2 ^ 48) (n * size))) [
      | inl long ↦
          rw (make_slice, long) (λ e. absurd (cc), λ p. cause (ltb→lt (2 ^ 48) (n * size) long))
      | inr fits ↦ rw (make_slice, fits) h
    ]

    number-Leaves :
        {A : Type 0} (bound : ℕ) (n : Option ℤ) (next : ℤ → Result (A × Bytes))
        → ((z : ℤ) → n ≡ some z → Leaves bound (next z))
        → Leaves bound (number n next)
    unfolding number
    number-Leaves bound none next h = (λ e. absurd (cc), λ p. absurd (cc))
    number-Leaves bound (some z) next h = h z refl

    read_bulk-Leaves :
        (z : ℤ)
        → ((n : ℕ) → z ≡ pos n → 2 ^ 48 < n + 2 → HasTooLong whole)
        → Leaves (suc (length r)) (read_bulk z r)
    unfolding read_bulk
    read_bulk-Leaves (negsuc n) cause = (omega arith, here)
    read_bulk-Leaves (pos n) cause =
        make_slice-Leaves 1 (n + 2) (suc (length r))
          (do (buf, r) ← read_full (n + 2) r; ok (bulk_string (take n buf), r))
          (λ long. cause n refl (omega arith))
          (Leaves-bind (suc (length r)) (suc (length r)) (read_full (n + 2) r)
            (λ ((buf, r) : Bytes × Bytes). ok (bulk_string (take n buf), r))
            (read_full-Leaves (n + 2)) (λ buf r e lt rest. (lt, rest)))

    module _ (elems : ℕ → Bytes → Result (Values × Bytes))
        (h : (n : ℕ) → Leaves (suc (length r)) (elems n r)) where
      read_array-Leaves :
          (z : ℤ)
          → ((n : ℕ) → z ≡ pos n → 2 ^ 48 < n * 64 → HasTooLong whole)
          → Leaves (suc (length r)) (read_array elems z r)
      unfolding read_array
      read_array-Leaves (negsuc n) cause = (omega arith, here)
      read_array-Leaves (pos n) cause =
          make_slice-Leaves 64 n (suc (length r)) (do (vs, r) ← elems n r; ok (array vs, r))
            (cause n refl)
            (Leaves-bind (suc (length r)) (suc (length r)) (elems n r)
              (λ ((vs, r) : Values × Bytes). ok (array vs, r)) (h n) (λ vs r e lt rest. (lt, rest)))

      read_typed-Leaves :
          (text : Bytes)
          → (IsTooLong text → HasTooLong whole)
          → Leaves (suc (length r)) (read_typed elems text r)
      unfolding read_typed IsTooLong
      read_typed-Leaves [] cause = (λ e. absurd (cc), λ p. absurd (cc))
      read_typed-Leaves (t ∷ text) cause = elim (Bool-cases (t == b'+')) [
        | inl plus ↦ rw (read_typed, plus) (omega arith, here)
        | inr not_plus ↦ elim (Bool-cases (t == b'-')) [
          | inl minus ↦ rw (read_typed, not_plus, minus) (omega arith, here)
          | inr not_minus ↦ elim (Bool-cases (t == b':')) [
            | inl colon ↦
                rw (read_typed, not_plus, not_minus, colon)
                  (number-Leaves (suc (length r)) (parse_int text) (λ n. ok (integer n, r))
                    (λ n e. (omega arith, here)))
            | inr not_colon ↦ elim (Bool-cases (t == b'$')) [
              | inl dollar ↦
                  rw (read_typed, not_plus, not_minus, not_colon, dollar)
                    (number-Leaves (suc (length r)) (parse_int text) (λ n. read_bulk n r)
                      (λ z e.
                        read_bulk-Leaves z
                          (λ n is long. cause (n, e ∙ ap (λ z. some z) is, inl (dollar, long)))))
              | inr not_dollar ↦ elim (Bool-cases (t == b'*')) [
                | inl star ↦
                    rw (read_typed, not_plus, not_minus, not_colon, not_dollar, star)
                      (number-Leaves (suc (length r)) (parse_int text) (λ n. read_array elems n r)
                        (λ z e.
                          read_array-Leaves z
                            (λ n is long. cause (n, e ∙ ap (λ z. some z) is, inr (star, long)))))
                | inr not_star ↦
                    rw (read_typed, not_plus, not_minus, not_colon, not_dollar, not_star)
                      (λ e. absurd (cc), λ p. absurd (cc))
              ]
            ]
          ]
        ]
      ]

  mutual
    unfolding read_value read_values read_with

    pub read_value-Leaves :
        (fuel : ℕ) (r : Bytes)
        → IsRest whole r
        → 2 * length r + 1 ≤ fuel
        → Leaves (length r) (read_value fuel r)
    read_value-Leaves zero r here enough = absurd (omega arith)
    read_value-Leaves (suc fuel) r here enough =
        Leaves-bind (length r) (length r) (read_line r)
          (λ ((text, r) : Bytes × Bytes). read_typed (read_values fuel) text r)
          (read_line-Leaves r here)
          (λ text r' e lt rest.
            Leaves-more (suc (length r')) (length r) (read_typed (read_values fuel) text r')
              (omega arith)
              (read_typed-Leaves r' rest (read_values fuel)
                (λ n. read_values-Leaves fuel n r' rest (omega arith)) text
                (λ long. record {
                  before = here.taken;
                  after = r;
                  line = text;
                  rest = r';
                  split = here.split;
                  reads = e;
                  too_long = long;
                })))

    pub read_values-Leaves :
        (fuel n : ℕ) (r : Bytes)
        → IsRest whole r
        → 2 * length r + 2 ≤ fuel
        → Leaves (suc (length r)) (read_values fuel n r)
    read_values-Leaves zero n r here enough = absurd (omega arith)
    read_values-Leaves (suc fuel) n r here enough = elim (Bool-cases (n == 0)) [
      | inl done ↦ rw (read_values, done) (omega arith, here)
      | inr more ↦
          rw (read_values, more)
            (Leaves-bind (length r) (suc (length r)) (read_value fuel r)
              (λ ((v, r) : Value × Bytes). do
                (vs, r) ← read_values fuel (n - 1) r
                ok (value v vs, r))
              (read_value-Leaves fuel r here (omega arith))
              (λ v r' e lt rest.
                Leaves-bind (suc (length r')) (suc (length r)) (read_values fuel (n - 1) r')
                  (λ ((vs, r) : Values × Bytes). ok (value v vs, r))
                  (read_values-Leaves fuel (n - 1) r' rest (omega arith))
                  (λ vs r'' e' le rest'. (omega arith, rest'))))
    ]

-- On any input, with no assumption on what the peer sends, and the fuel never runs out: Read returns a value and has then taken at least one byte; or it returns an error; or it panics. It panics only if somewhere in the input a line starts that is the header of a bulk string or an array with a length that make does not accept.
pub read_ends :
    (r : Bytes)
    → ((v : Value) × (rest : Bytes) × (read r ≡ ok (v, rest)) × (length rest < length r))
      ⊎ ((e : Error) × (read r ≡ err e) × (e ≢ out_of_fuel) × (is_panic e ≡ false))
      ⊎ ((e : Error) × (read r ≡ err e) × (is_panic e ≡ true) × HasTooLong r)
unfolding read
read_ends r =
    let h = read_value-Leaves r (2 * length r + 1) r (IsRest-refl r) (omega arith) in
    elim (Result-cases (read_value (2 * length r + 1) r)) [
      | inl ((v, rest), e) ↦ inl (v, rest, e, (subst (λ m. Leaves r (length r) m) e h).0)
      | inr (e, p) ↦
          let (ends, cause) = subst (λ m. Leaves r (length r) m) p h in
          elim (Bool-cases (is_panic e)) [
            | inr returned ↦ inr (inl (e, p, ends, returned))
            | inl panics ↦ inr (inr (e, p, panics, cause panics))
          ]
    ]
