-- ===== src/Resp/Channel.antt =====
-- A value through the buffered writer of a connection (resp/writer.go, reader.go).
use hcdb.Prelude.{
  ◌≡◌, sym, subst, ap, ◌∙◌, arith, [], ◌∷◌, ◌++◌, length, drop, drop-append, append-nil,
  append_assoc, none, ok, inl, inr, Bool-cases, if◌then◌else◌,
}
use hcdb.Binary.{Bytes}
use hcdb.Bufio.{Writer, BufWriter, is_nil, write, flush}
use hcdb.Bufio.Follows.{Follows, Follows-failed, write-Follows, flush_content, flush_buffer}
use hcdb.Resp.{
  Value, Values, simple_string, error, integer, bulk_string, null_bulk_string, array, null_array,
  no_values, value, count, crlf, line, encode, encode_all, write_value, write_values, write_reply,
}
use hcdb.Resp.Decimal.{format_nat, format_int}
use hcdb.Resp.Reader.{read}
use hcdb.Resp.Shape.{Fits}
use hcdb.Resp.RoundTrip.{read-encode}

module _ (w : Writer) where
  abbrev Conn : Type 0
  Conn = BufWriter w.State

  -- A write, and then more if it returned no error.
  next-Follows :
      (t p : Bytes) (b later : Conn)
      → Follows w t b
      → (Follows w t b → Follows w (t ++ p) later)
      → Follows w (t ++ p) (if is_nil b.error then later else b)
  next-Follows t p b later h go = elim (Bool-cases (is_nil b.error)) [
    | inl fine ↦ rw fine (go h)
    | inr failed ↦ rw failed (Follows-failed w t p b failed h)
  ]

  mutual
    unfolding write_value write_values encode encode_all

    write_value-Follows :
        (v : Value) (t : Bytes) (b : Conn)
        → Follows w t b
        → Follows w (t ++ encode v) (write_value w v b)
    write_value-Follows (simple_string s) t b h = write-Follows w t (line b'+' s) b h
    write_value-Follows (error s) t b h = write-Follows w t (line b'-' s) b h
    write_value-Follows (integer n) t b h = write-Follows w t (line b':' (format_int n)) b h
    write_value-Follows (bulk_string s) t b h =
        write-Follows w t (line b'$' (format_nat (length s)) ++ (s ++ crlf)) b h
    write_value-Follows null_bulk_string t b h =
        write-Follows w t (line b'$' (b'-' ∷ b'1' ∷ [])) b h
    write_value-Follows (array vs) t b h =
        let header = line b'*' (format_nat (count vs)) in
        let b' = write w header b in
        subst (λ u. Follows w u (if is_nil b'.error then write_values w vs b' else b'))
          (append_assoc t header (encode_all vs))
          (next-Follows (t ++ header) (encode_all vs) b' (write_values w vs b')
            (write-Follows w t header b h) (write_values-Follows vs (t ++ header) b'))
    write_value-Follows null_array t b h = write-Follows w t (line b'*' (b'-' ∷ b'1' ∷ [])) b h

    write_values-Follows :
        (vs : Values) (t : Bytes) (b : Conn)
        → Follows w t b
        → Follows w (t ++ encode_all vs) (write_values w vs b)
    write_values-Follows no_values t b h = subst (λ u. Follows w u b) (sym (append-nil t)) h
    write_values-Follows (value v vs) t b h =
        let b' = write_value w v b in
        subst (λ u. Follows w u (if is_nil b'.error then write_values w vs b' else b'))
          (append_assoc t (encode v) (encode_all vs))
          (next-Follows (t ++ encode v) (encode_all vs) b' (write_values w vs b')
            (write_value-Follows v t b h) (write_values-Follows vs (t ++ encode v) b'))

  write_reply-content :
      (v : Value) (t : Bytes) (b : Conn)
      → Follows w t b
      → (write_reply w v b).error ≡ none
      → (w.content (write_reply w v b).under ≡ t ++ encode v) × ((write_reply w v b).buffer ≡ [])
  unfolding write_reply
  write_reply-content v t b h fine = elim (Bool-cases (is_nil (write_value w v b).error)) [
    | inr failed ↦ absurd (ground (arith, failed, (rw (write_reply, failed) at fine)))
    | inl clean ↦
        let all = write_value-Follows v t b h in
        let flushes : (flush w (write_value w v b)).error ≡ none =
          rw (write_reply, clean) at fine in
        rw (write_reply, clean)
          (
            flush_content w (t ++ encode v) (write_value w v b) all flushes,
            flush_buffer w (write_value w v b) flushes,
          )
  ]

  pub content-write_reply :
      (v : Value) (b : BufWriter w.State)
      → b.buffer ≡ []
      → (write_reply w v b).error ≡ none
      → (w.content (write_reply w v b).under ≡ w.content b.under ++ encode v)
        × ((write_reply w v b).buffer ≡ [])
  content-write_reply v b empty fine =
      let before = w.content b.under in
      let start : Follows w before b = record {
        rest = [];
        whole = sym (append-nil before);
        exact = λ e. sym empty;
      } in
      write_reply-content v before b start fine

  -- A connection whose writer has nothing buffered, and a value that the protocol can carry. If Write returns no error, then exactly the bytes of the value have been added to what reached the connection, nothing is left in the buffer, and a reader that has taken what came before reads the value and has nothing left.
  pub read-write_reply :
      (v : Value) (b : BufWriter w.State)
      → Fits v
      → b.buffer ≡ []
      → (write_reply w v b).error ≡ none
      → (w.content (write_reply w v b).under ≡ w.content b.under ++ encode v)
        × ((write_reply w v b).buffer ≡ [])
        × (read (drop (length (w.content b.under)) (w.content (write_reply w v b).under))
            ≡ ok (v, []))
  read-write_reply v b fits empty fine =
      let before = w.content b.under in
      let sent = content-write_reply v b empty fine in
      (
        sent.0,
        sent.1,
        ap (λ c. read (drop (length before) c)) sent.0
            ∙ ap read (drop-append before (encode v) ∙ sym (append-nil (encode v)))
            ∙ read-encode v [] fits,
      )
