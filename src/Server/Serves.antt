-- ===== src/Server/Serves.antt =====
-- The loop of a connection (server/server.go, dispatch.go).
use hcdb.Prelude.{
  ℕ, zero, suc, ◌<◌, ◌≡◌, refl, sym, subst, ap, ◌∙◌, arith, List, [], ◌∷◌, ◌++◌, length, All,
  Option, none, some, ◌≤◌, length-append, ok, err, Error, append_assoc, append-nil, if◌then◌else◌,
  true, false, inl, inr, Bool-cases, Bool, is_panic,
}
use hcdb.Binary.{Bytes}
use hcdb.Bufio.{Writer, BufWriter, is_nil}
use hcdb.Resp.{Value, encode, write_reply}
use hcdb.Resp.Reader.{read}
use hcdb.Resp.Shape.{Fits}
use hcdb.Resp.RoundTrip.{read-encode, length-encode}
use hcdb.Resp.Channel.{content-write_reply}
use hcdb.Server.{Database, dispatch, serve_loop, handle_conn}

-- Values one after the other on the wire.
unfoldable pub stream : List Value → Bytes
stream [] = []
stream (v ∷ vs) = encode v ++ stream vs

length-stream : (cmds : List Value) → length cmds ≤ length (stream cmds)
unfolding stream
length-stream [] = omega arith
length-stream (v ∷ vs) =
    omega (arith, length-stream vs, length-encode v, length-append (encode v) (stream vs))

not_nil : (e : Option Error) → is_nil e ≡ false → e ≡ none → ⊥
not_nil none h n = absurd (cc)
not_nil (some x) h n = absurd (cc)

is_nil-none : (e : Option Error) → is_nil e ≡ true → e ≡ none
is_nil-none none h = refl
is_nil-none (some x) h = absurd (cc)

module _ (db : Database) (to_upper : Bytes → Bytes) where
  -- The commands, each run on the state that the one before it left: the replies and the last state.
  unfoldable pub run_all : List Value → db.State → List Value × db.State
  run_all [] d = ([], d)
  run_all (cmd ∷ cmds) d =
      let (reply, d) = dispatch db to_upper cmd d in
      let (replies, d) = run_all cmds d in (reply ∷ replies, d)

  module _ (w : Writer) where
    -- What the loop ends with: the replies on the connection, the state, and if the error that ended
    -- it is a panic.
    abbrev pub Served :
        BufWriter w.State
        → List Value × db.State
        → Error
        → BufWriter w.State × db.State × Bool
        → Type 0
    Served b (replies, d) e (b', d', panicked) =
        (w.content b'.under ≡ w.content b.under ++ stream replies)
        × (d' ≡ d)
        × (panicked ≡ is_panic e)

    serve_next :
        (fuel : ℕ) (r later : Bytes) (b : BufWriter w.State) (d : db.State) (cmd : Value)
        → read r ≡ ok (cmd, later)
        → let (reply, d') = dispatch db to_upper cmd d in
          let b' = write_reply w reply b in
          serve_loop db to_upper w (suc fuel) r b d
          ≡ (if is_nil b'.error then serve_loop db to_upper w fuel later b' d' else (b', d', false))
    unfolding serve_loop
    serve_next fuel r later b d cmd reads = rw (serve_loop, reads) refl

    serve_last :
        (fuel : ℕ) (r : Bytes) (b : BufWriter w.State) (d : db.State) (e : Error)
        → read r ≡ err e
        → serve_loop db to_upper w (suc fuel) r b d ≡ (b, d, is_panic e)
    unfolding serve_loop
    serve_last fuel r b d e fails = rw (serve_loop, fails) refl

    serve_loop-Served :
        (cmds : List Value) (tail : Bytes) (e : Error) (fuel : ℕ) (b : BufWriter w.State)
        (d : db.State)
        → All Fits cmds
        → read tail ≡ err e
        → length cmds < fuel
        → b.buffer ≡ []
        → (serve_loop db to_upper w fuel (stream cmds ++ tail) b d).0.error ≡ none
        → Served b (run_all cmds d) e (serve_loop db to_upper w fuel (stream cmds ++ tail) b d)
    unfolding run_all stream
    serve_loop-Served cmds tail e zero b d fits ends enough empty fine = absurd (omega arith)
    serve_loop-Served [] tail e (suc fuel) b d fits ends enough empty fine =
        subst (λ r. Served b ([], d) e r) (sym (serve_last fuel tail b d e ends))
          (sym (append-nil (w.content b.under)), refl, refl)
    serve_loop-Served (cmd ∷ cmds) tail e (suc fuel) b d fits ends enough empty fine =
        let reads : read ((encode cmd ++ stream cmds) ++ tail) ≡ ok (cmd, stream cmds ++ tail) =
          ap read (append_assoc (encode cmd) (stream cmds) tail)
          ∙ read-encode cmd (stream cmds ++ tail) fits.0 in
        let d' = (dispatch db to_upper cmd d).1 in
        let reply = (dispatch db to_upper cmd d).0 in
        let b' = write_reply w reply b in
        let step =
          serve_next fuel ((encode cmd ++ stream cmds) ++ tail) (stream cmds ++ tail) b d cmd
            reads in
        elim (Bool-cases (is_nil b'.error)) [
          | inr failed ↦
              let stopped = rw failed at step in
              absurd (not_nil b'.error failed (subst (λ r. r.0.error ≡ none) stopped fine))
          | inl clean ↦
              let went_on = rw clean at step in
              let sent = content-write_reply w reply b empty (is_nil-none b'.error clean) in
              let later =
                serve_loop-Served cmds tail e fuel b' d' fits.1 ends (omega arith) sent.1
                  (subst (λ r. r.0.error ≡ none) went_on fine) in
              subst (λ r. Served b (run_all (cmd ∷ cmds) d) e r) (sym went_on)
                (
                  later.0
                      ∙ ap (λ c. c ++ stream (run_all cmds d').0) sent.0
                      ∙ append_assoc (w.content b.under) (encode reply)
                          (stream (run_all cmds d').0),
                  later.1,
                  later.2,
                )
        ]

-- A client sends commands that the protocol can carry and then something that is no value, such as nothing. If the connection has taken every reply, what was sent on it is exactly the reply to each command, in order, each computed on the state that the commands before it left, and the last state is the one after all of them. The process panics exactly if reading what follows the commands panics. The loop has fuel enough.
pub handle_conn_serves :
    (db : Database) (to_upper : Bytes → Bytes) (w : Writer) (cmds : List Value) (tail : Bytes)
    (e : Error) (s : w.State) (d : db.State)
    → All Fits cmds
    → read tail ≡ err e
    → (handle_conn db to_upper w (stream cmds ++ tail) s d).0.error ≡ none
    → let (b, last, panicked) = handle_conn db to_upper w (stream cmds ++ tail) s d in
      (w.content b.under ≡ w.content s ++ stream (run_all db to_upper cmds d).0)
      × (last ≡ (run_all db to_upper cmds d).1)
      × (panicked ≡ is_panic e)
unfolding handle_conn
handle_conn_serves db to_upper w cmds tail e s d fits ends fine =
    serve_loop-Served db to_upper w cmds tail e (suc (length (stream cmds ++ tail)))
      (record { buffer = []; error = none; under = s }) d fits ends
      (omega (arith, length-stream cmds, length-append (stream cmds) tail)) refl fine
