-- ===== src/FeProtocol/Pipeline.antt =====
-- Which text a Query message runs, and a message that the loop never takes out.
use sharegres.Base.{
  ℕ, zero, suc, ◌+◌, ◌-◌, ◌*◌, ◌^◌, ◌≤◌, ◌<◌, ◌≡◌, ◌≢◌, inl, inr, Bool-cases, refl, ◌∙◌, Bool, true,
  false, [], ◌∷◌, ◌++◌, Option, none, some, arith, length, length-append, drop, append_assoc, ◌==◌,
  All,
}
use native.Mathlib.Numerals.{add-one}
use sharegres.Base.Bytes.{Bytes}
use sharegres.FeProtocol.Frames.{
  Holds, read_header-frame, payload_at, total_of-frame, bytes-consume_all, bytes-consume_first,
  consume-zero,
}
use sharegres.FeProtocol.Process.{
  message, read_header, total_of, process, process_loop, round, process_ready, process_query,
  consume_message, unsupported, is_extended,
}
use sharegres.FeProtocol.Query.{handle_query}
use sharegres.FeProtocol.{with_session, report}
use sharegres.Libpq.{Libpq}
use sharegres.Message.Codes
use sharegres.Message.Frames.{frame, cstring}
use sharegres.MsgBuf.{c_string, htonl}
use sharegres.MsgBuf.Words.{c_string-append}
use sharegres.Session.{SessionState, State}
use sharegres.Session.Receive.{RecvBuf, consume}

module _ (pq : Libpq) (pg_query_parse : Bytes → Option Bytes)
    (error_message : State pq → Bytes) where
  abbrev pub buffer : State pq → RecvBuf
  buffer st = st.session.recv_buf

  -- A round of a session that is ready.
  round_ready :
      (fuel : ℕ) (st : State pq) (type msg_len : ℕ)
      → st.session.state ≡ SessionState.ready
      → 0 < (buffer st).len
      → read_header (buffer st) ≡ message type msg_len
      → process_loop pq pg_query_parse error_message (suc fuel) st
        ≡ process_ready pq pg_query_parse error_message
            (λ st'. process_loop pq pg_query_parse error_message fuel st')
            type
            msg_len
            st
  unfolding process_loop round
  round_ready fuel st type msg_len ready some_left header =
      let nonzero : ((buffer st).len == 0) ≡ false = ground arith in
      rw (nonzero, ready, round, header)

  process_query-frame :
      (st : State pq) (payload rest : Bytes)
      → st.session.state ≡ SessionState.ready
      → Holds (buffer st) Codes.query payload rest
      → process pq pg_query_parse error_message st
        ≡ process_query pq pg_query_parse error_message (4 + length payload) st
  unfolding process process_ready
  process_query-frame st payload rest ready h = rw (add-one (buffer st).len) (
      round_ready (buffer st).len st Codes.query (4 + length payload) ready
        (omega (arith, h.received)) (read_header-frame (buffer st) Codes.query payload rest h))

  -- What a Query message runs is the string that stands behind the header when the message is out.
  process_query-text :
      (st : State pq) (n : ℕ) (sql : Bytes)
      → c_string (drop 5 (consume (total_of n) (buffer st)).bytes) ≡ some sql
      → process_query pq pg_query_parse error_message n st
        ≡ handle_query pq pg_query_parse error_message sql
            (consume_message pq pg_query_parse error_message (total_of n) st)
  unfolding process_query
  process_query-text st n sql text = rw text

  -- A ready session whose buffer holds one complete Query message, of at most 16 MB and with a text
  -- without zero bytes, and nothing more, runs the text of that message, once the message is taken out.
  pub process-single_query :
      (st : State pq) (sql junk : Bytes)
      → st.session.state ≡ SessionState.ready
      → Holds (buffer st) Codes.query (cstring sql) junk
      → (buffer st).len ≡ 5 + length (cstring sql)
      → All (λ c. 0 < c) sql
      → process pq pg_query_parse error_message st
        ≡ handle_query pq pg_query_parse error_message sql
            (consume_message pq pg_query_parse error_message (5 + length (cstring sql)) st)
  process-single_query st sql junk ready h all nonzero =
      let total : total_of (4 + length (cstring sql)) ≡ 5 + length (cstring sql) =
        total_of-frame (buffer st) Codes.query (cstring sql) junk h in
      let text : c_string (drop 5 (consume (5 + length (cstring sql)) (buffer st)).bytes)
          ≡ some sql =
        rw
          (
            bytes-consume_all (5 + length (cstring sql)) (buffer st) all,
            payload_at (buffer st) Codes.query (cstring sql) junk h,
          )
          (rw append_assoc (c_string-append sql junk nonzero)) in
      process_query-frame st (cstring sql) junk ready h
      ∙ rw (← total) (process_query-text st (4 + length (cstring sql)) sql (rw total text))

  -- Two complete Query messages of one length in the buffer: the first one runs the text of the
  -- second. `memmove` has put the second message where the first one's text was to be read.
  pub process-pipelined_query :
      (st : State pq) (first second junk : Bytes)
      → st.session.state ≡ SessionState.ready
      → Holds (buffer st) Codes.query (cstring first) (frame Codes.query (cstring second) ++ junk)
      → length first ≡ length second
      → (buffer st).len ≡ 2 * (5 + length (cstring first))
      → All (λ c. 0 < c) second
      → process pq pg_query_parse error_message st
        ≡ handle_query pq pg_query_parse error_message second
            (consume_message pq pg_query_parse error_message (5 + length (cstring first)) st)
  unfolding htonl
  process-pipelined_query st first second junk ready h same all nonzero =
      let total : total_of (4 + length (cstring first)) ≡ 5 + length (cstring first) =
        total_of-frame (buffer st) Codes.query (cstring first)
          (frame Codes.query (cstring second) ++ junk) h in
      let text : c_string (drop 5 (consume (5 + length (cstring first)) (buffer st)).bytes)
          ≡ some second =
        rw
          (bytes-consume_first (5 + length (cstring first)) (buffer st)
            (frame Codes.query (cstring first)) (frame Codes.query (cstring second)) junk
            (omega arith)
            (omega (arith, length-append first (0 ∷ []), length-append second (0 ∷ [])))
            h.bytes_are)
          (rw append_assoc (c_string-append second _ nonzero)) in
      process_query-frame st (cstring first) (frame Codes.query (cstring second) ++ junk) ready h
      ∙ rw (← total) (process_query-text st (4 + length (cstring first)) second (rw total text))

  module _ (type : ℕ) where
    abbrev next_round : ℕ → State pq → Option (Bool × State pq)
    next_round fuel st =
        process_ready pq pg_query_parse error_message
          (λ st'. process_loop pq pg_query_parse error_message fuel st') type (2 ^ 32 - 1) st

    -- The state that the next round finds.
    pub record IsStuck (st : State pq) : Type 0 where
      pub is_ready : st.session.state ≡ SessionState.ready
      pub received : 5 ≤ (buffer st).len
      pub header : read_header (buffer st) ≡ message type (2 ^ 32 - 1)

    abbrev untaken : State pq → State pq
    untaken st = consume_message pq pg_query_parse error_message (total_of (2 ^ 32 - 1)) st

    untaken-IsStuck : (st : State pq) → IsStuck st → IsStuck (untaken st)
    untaken-IsStuck st v = record {
      is_ready = v.is_ready;
      received = rw (consume-zero (buffer st)) v.received;
      header = rw (consume-zero (buffer st)) v.header;
    }

    report-IsStuck :
        (st : State pq)
        → IsStuck st
        → IsStuck (with_session pq st (unsupported pq pg_query_parse error_message st.session))
    unfolding report
    report-IsStuck st v = record { is_ready = v.is_ready; received = v.received; header = v.header }

    answered : Bool → State pq → State pq
    answered true st = with_session pq st (unsupported pq pg_query_parse error_message st.session)
    answered false st = st

    answered-IsStuck : (b : Bool) (st : State pq) → IsStuck st → IsStuck (answered b st)
    unfolding answered
    answered-IsStuck true st v = report-IsStuck st v
    answered-IsStuck false st v = v

    next_round-answered :
        (fuel : ℕ) (st : State pq)
        → type ≢ Codes.query
        → type ≢ Codes.terminate
        → next_round fuel st
          ≡ process_loop pq pg_query_parse error_message fuel
              (untaken (answered (is_extended type) st))
    unfolding process_ready answered
    next_round-answered fuel st nq nt =
        let other_type : (type == Codes.query) ≡ false = ground arith in
        let not_terminate : (type == Codes.terminate) ≡ false = ground arith in
        elim (Bool-cases (is_extended type)) [
          | inl extended ↦ rw (other_type, not_terminate, extended)
          | inr unknown ↦ rw (other_type, not_terminate, unknown)
        ]

    -- Whatever the number of rounds, a ready session does not come to the end of its loop, if a message
    -- of a type other than Query and Terminate, with a length field of 2 ^ 32 - 1, is at the front of
    -- its buffer. Such a message passes the check of the length, since its total wraps to 0.
    pub process_loop-IsStuck :
        (fuel : ℕ) (st : State pq)
        → type ≢ Codes.query
        → type ≢ Codes.terminate
        → IsStuck st
        → process_loop pq pg_query_parse error_message fuel st ≡ none
    process_loop-IsStuck zero st nq nt v = unfold process_loop in refl
    process_loop-IsStuck (suc fuel) st nq nt v =
        round_ready fuel st type (2 ^ 32 - 1) v.is_ready (omega (arith, v.received)) v.header
        ∙ next_round-answered fuel st nq nt
        ∙ process_loop-IsStuck fuel (untaken (answered (is_extended type) st)) nq nt (
            untaken-IsStuck (answered (is_extended type) st)
              (answered-IsStuck (is_extended type) st v))
