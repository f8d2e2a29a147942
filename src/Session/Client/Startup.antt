-- ===== src/Session/Client/Startup.antt =====
-- `fe_protocol_process` on a receive buffer that holds one startup packet, and the buffer of a new session.
use sharegres.Base.{
  ℕ, zero, suc, ◌+◌, ◌*◌, ◌≤◌, ◌<◌, ◌≡◌, ◌∙◌, refl, ap, arith, Bool, true, false, List, ◌++◌,
  Option, some, length, length-append, drop, All, append_assoc, ◌==◌,
}
use native.Mathlib.Numerals.{add-one}
use sharegres.Base.Bytes.{Bytes}
use sharegres.FeProtocol.Login.{
  HoldsStartup, LoggedIn, IsParam, params_text, handle_startup_message-LoggedIn,
}
use sharegres.FeProtocol.Process.{message, process, process_loop, round, read_startup_header}
use sharegres.FeProtocol.Startup.{handle_startup_message}
use sharegres.FeProtocol.{with_session}
use sharegres.Libpq.{Libpq}
use sharegres.MsgBuf.{htonl, ntohl}
use sharegres.MsgBuf.Words.{ntohl-htonl}
use sharegres.Session.Client.{init_recv_buf}
use sharegres.Session.Receive
use sharegres.Session.Receive.{RecvBuf, consume, receive}
use sharegres.Session.{ClientSession, SessionState, State}

module _ (pq : Libpq) (pg_query_parse : Bytes → Option Bytes)
    (error_message : State pq → Bytes) where
  process_loop-nothing :
      (fuel : ℕ) (st : State pq)
      → 0 < fuel
      → st.session.recv_buf.len ≡ 0
      → process_loop pq pg_query_parse error_message fuel st ≡ some (true, st)
  unfolding process_loop
  process_loop-nothing zero st h e = ground arith
  process_loop-nothing (suc fuel) st h e = rw e refl

  -- A round of a session that waits for its startup packet.
  round-init :
      (again : State pq → Option (Bool × State pq)) (size : ℕ) (st : State pq) (s : ClientSession)
      → read_startup_header st.session.recv_buf ≡ message 0 size
      → handle_startup_message size st.session ≡ some (true, s)
      → round pq pg_query_parse error_message again SessionState.init st
        ≡ again (with_session pq st s)
  unfolding round
  round-init again size st s header logged_in = rw (header, logged_in)

  process_loop-init :
      (fuel size : ℕ) (st : State pq) (s : ClientSession)
      → st.session.state ≡ SessionState.init
      → 0 < st.session.recv_buf.len
      → read_startup_header st.session.recv_buf ≡ message 0 size
      → handle_startup_message size st.session ≡ some (true, s)
      → process_loop pq pg_query_parse error_message (suc fuel) st
        ≡ process_loop pq pg_query_parse error_message fuel (with_session pq st s)
  unfolding process_loop
  process_loop-init fuel size st s is_init some_left header logged_in =
      let nonzero : (st.session.recv_buf.len == 0) ≡ false = ground arith in
      let again : State pq → Option (Bool × State pq) =
        λ st'. process_loop pq pg_query_parse error_message fuel st' in
      rw nonzero (
        ap (λ state. round pq pg_query_parse error_message again state st) is_init
        ∙ round-init again size st s header logged_in)

read_startup_header-packet :
    (rb : RecvBuf) (minor : ℕ) (ps : List (Bytes × Bytes)) (rest : Bytes)
    → HoldsStartup rb minor ps rest
    → rb.len ≡ 8 + length (params_text ps)
    → rb.len ≤ 65535
    → read_startup_header rb ≡ message 0 (8 + length (params_text ps))
unfolding read_startup_header
read_startup_header-packet rb minor ps rest h all small =
    let size = 8 + length (params_text ps) in
    let word : ntohl rb.bytes ≡ some size = rw h.bytes_are (
      ntohl-htonl size (htonl (3 * 65536 + minor) ++ (params_text ps ++ rest))
        (omega (arith, all))) in
    rw (word, read_startup_header) (ground (arith, all, small))

module _ (pq : Libpq) (pg_query_parse : Bytes → Option Bytes)
    (error_message : State pq → Bytes) where
  pub process-startup :
      (st : State pq) (minor : ℕ) (ps : List (Bytes × Bytes)) (rest : Bytes)
      → st.session.state ≡ SessionState.init
      → HoldsStartup st.session.recv_buf minor ps rest
      → st.session.recv_buf.len ≡ 8 + length (params_text ps)
      → st.session.recv_buf.len ≤ 65535
      → (s : ClientSession) × (process pq pg_query_parse error_message st
          ≡ some (true, with_session pq st s))
        × LoggedIn st.session ps s
  unfolding process consume
  process-startup st minor ps rest is_init h all small =
      let rb = st.session.recv_buf in
      let (s, handled, logged_in) = handle_startup_message-LoggedIn st.session minor ps rest h in
      let header = read_startup_header-packet rb minor ps rest h all small in
      let empty : s.recv_buf.len ≡ 0 = ap (λ x. x.len) logged_in.taken_out ∙ omega (arith, all) in
      (
        s,
        rw (add-one rb.len) (
            process_loop-init pq pg_query_parse error_message rb.len (8 + length (params_text ps))
              st s is_init (omega (arith, all)) header handled
            ∙ process_loop-nothing pq pg_query_parse error_message rb.len (with_session pq st s)
                (omega (arith, all)) empty),
        logged_in,
      )

abbrev pub packet : ℕ → List (Bytes × Bytes) → Bytes
packet minor ps =
    htonl (8 + length (params_text ps)) ++ (htonl (3 * 65536 + minor) ++ params_text ps)

pub length-packet :
    (minor : ℕ) (ps : List (Bytes × Bytes)) → length (packet minor ps) ≡ 8 + length (params_text ps)
unfolding htonl
length-packet minor ps = omega arith

-- What `recv` is to fill: all of the first allocation.
pub ensure-new :
    (fresh : ℕ → Bytes)
    → ((n : ℕ) → length (fresh n) ≡ n)
    → (junk : Bytes) × (Receive.ensure 4096 fresh (init_recv_buf fresh 8192)
        ≡ record { bytes = junk; len = 0 })
      × (length junk ≡ 8192)
unfolding Receive.ensure Receive.ensured_cap init_recv_buf
ensure-new fresh sized =
    let rb = Receive.ensure 4096 fresh (init_recv_buf fresh 8192) in
    let cap : Receive.ensured_cap 4096 (init_recv_buf fresh 8192) ≡ 8192 = rw (sized 8192) refl in
    (rb.bytes, refl, length-append (fresh 8192) _ ∙ rw (cap, sized 8192) (omega (arith, sized 0)))

pub receive-HoldsStartup :
    (minor : ℕ) (ps : List (Bytes × Bytes)) (junk : Bytes)
    → minor < 65536
    → All IsParam ps
    → HoldsStartup
        (receive (packet minor ps) (record { bytes = junk; len = 0 }))
        minor
        ps
        (drop (0 + length (packet minor ps)) junk)
unfolding receive
receive-HoldsStartup minor ps junk is_minor params = record {
  bytes_are = simp append_assoc;
  is_minor = is_minor;
  are_params = params;
}
