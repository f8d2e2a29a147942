-- ===== src/FeProtocol/Process.antt =====
-- src/protocol/fe_protocol.c: `fe_protocol_process`, the loop over the received messages.
use sharegres.Base.{
  ℕ, zero, suc, ◌+◌, ◌-◌, ◌*◌, ◌%◌, ◌^◌, Bool, true, false, ◌||◌, [], ◌∷◌, Option, none, some, drop,
  ltb, ◌==◌, if◌then◌else◌, ◌>>=◌,
}
use sharegres.Base.Bytes.{Bytes, codes}
use sharegres.FeProtocol.Copy.{CopyStatus, copy_handle_client_message}
use sharegres.FeProtocol.Query.{handle_query}
use sharegres.FeProtocol.Startup.{handle_startup_message, consumed}
use sharegres.FeProtocol.{report, with_session}
use sharegres.Libpq.{Libpq}
use sharegres.Message.Codes
use sharegres.MsgBuf.{ntohl, c_string}
use sharegres.Session.{ClientSession, SessionState, State}
use sharegres.Session.Receive.{RecvBuf}

-- The largest message, with its type byte.
abbrev pub max_message : ℕ
max_message = 16 * 1024 * 1024

-- `size_t total = 1 + msg_len`, a sum of 32-bit words.
abbrev pub total_of : ℕ → ℕ
total_of msg_len = (1 + msg_len) % 2 ^ 32

-- What the header of the next message says; `pause` stands for the return value 0 and `close` for -1.
pub data Header : Type 0 where
  pause close : Header
  -- The whole message is there: its type and its length field.
  message : ℕ → ℕ → Header

abbrev pub header_of : ℕ → Option ℕ → ℕ → Header
header_of type none received = pause
header_of type (some msg_len) received =
    if ltb msg_len 4 || ltb max_message (total_of msg_len)
    then Header.close
    else if ltb received (total_of msg_len)
    then pause
    else message type msg_len

abbrev pub first_byte : Bytes → ℕ
first_byte [] = 0
first_byte (c ∷ _) = c

unfoldable pub read_header : RecvBuf → Header
unfolding ntohl
read_header rb =
    if ltb rb.len 5 then pause else header_of (first_byte rb.bytes) (ntohl (drop 1 rb.bytes)) rb.len

-- The header of a startup message has no type byte.
abbrev pub startup_of : Option ℕ → ℕ → Header
startup_of none received = pause
startup_of (some msg_len) received =
    if ltb msg_len 4 || ltb 65535 msg_len
    then Header.close
    else if ltb received msg_len
    then pause
    else message 0 msg_len

unfoldable pub read_startup_header : RecvBuf → Header
unfolding ntohl
read_startup_header rb = if ltb rb.len 4 then pause else startup_of (ntohl rb.bytes) rb.len

-- Parse, Bind, Describe, Execute, Sync, Close.
abbrev pub is_extended : ℕ → Bool
is_extended type =
    type == Codes.parse
    || type == Codes.bind
    || type == Codes.describe
    || type == Codes.execute
    || type == Codes.sync
    || type == Codes.close

abbrev pub is_copy : ℕ → Bool
is_copy type = type == Codes.copy_data || type == Codes.copy_done || type == Codes.copy_fail

module _ (pq : Libpq) (pg_query_parse : Bytes → Option Bytes)
    (error_message : State pq → Bytes) where
  abbrev pub Outcome : Type 0
  Outcome = Option (Bool × State pq)

  abbrev pub consume_message : ℕ → State pq → State pq
  consume_message total st = with_session pq st (consumed total st.session)

  -- Behind `copy_handle_client_message`, with the message moved out.
  abbrev pub after_copy : (State pq → Outcome) → CopyStatus × State pq → Outcome
  after_copy again (CopyStatus.failed, st) = some (false, st)
  after_copy again (CopyStatus.forwarded, st) = again st
  after_copy again (CopyStatus.finished, st) =
      again (with_session pq st (record st.session { state = SessionState.query }))

  -- `again` is the next round of the loop.
  unfoldable pub process_copy : (State pq → Outcome) → ℕ → ℕ → State pq → Outcome
  process_copy again type msg_len st =
      if is_copy type
      then copy_handle_client_message pq st.session.backend_conn type
          (drop 5 st.session.recv_buf.bytes) (msg_len - 4) st
        >>= (λ r. after_copy again (r.0, consume_message (total_of msg_len) r.1))
      else again (consume_message (total_of msg_len) st)

  -- The text of a query is read where the message stood, after the message is moved out.
  unfoldable pub process_query : ℕ → State pq → Outcome
  process_query msg_len st =
      let st' = consume_message (total_of msg_len) st in
      c_string (drop 5 st'.session.recv_buf.bytes) >>= λ sql.
      handle_query pq pg_query_parse error_message sql st'

  abbrev pub unsupported : ClientSession → ClientSession
  unsupported s =
      report s (codes "ERROR") (codes "0A000") (codes "extended query protocol not yet supported")

  unfoldable pub process_ready : (State pq → Outcome) → ℕ → ℕ → State pq → Outcome
  process_ready again type msg_len st =
      if type == Codes.query
      then process_query msg_len st
      else if type == Codes.terminate
      then some (false, st)
      else if is_extended type
      then again (consume_message (total_of msg_len) (with_session pq st (unsupported st.session)))
      else again (consume_message (total_of msg_len) st)

  abbrev pub on_header : Header → State pq → (ℕ → ℕ → Outcome) → Outcome
  on_header pause st handle = some (true, st)
  on_header Header.close st handle = some (false, st)
  on_header (message type msg_len) st handle = handle type msg_len

  abbrev pub after_startup : (State pq → Outcome) → State pq → Bool × ClientSession → Outcome
  after_startup again st (true, s) = again (with_session pq st s)
  after_startup again st (false, s) = some (false, with_session pq st s)

  -- One round, by the state of the session.
  unfoldable pub round : (State pq → Outcome) → SessionState → State pq → Outcome
  round again SessionState.init st =
      on_header (read_startup_header st.session.recv_buf) st
        (λ _ msg_len. handle_startup_message msg_len st.session >>= after_startup again st)
  round again SessionState.query st = some (true, st)
  round again SessionState.scatter st = some (true, st)
  round again SessionState.copy_out st = some (true, st)
  round again SessionState.copy_in st =
      on_header (read_header st.session.recv_buf) st
        (λ type msg_len. process_copy again type msg_len st)
  round again _ st =
      on_header (read_header st.session.recv_buf) st
        (λ type msg_len. process_ready again type msg_len st)

  -- A round that goes on takes at least five bytes from the buffer, unless `total` wraps to 0.
  unfoldable pub process_loop : ℕ → State pq → Outcome
  process_loop zero st = none
  process_loop (suc fuel) st =
      if st.session.recv_buf.len == 0
      then some (true, st)
      else round (λ st'. process_loop fuel st') st.session.state st

  -- `none` where a handler faults or the loop does not end. The flag is false where the session is to be closed.
  unfoldable pub process : State pq → Outcome
  process st = process_loop (st.session.recv_buf.len + 1) st
