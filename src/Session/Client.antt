-- ===== src/Session/Client.antt =====
-- src/session/session.c: `session_create`, and the callbacks of the client's socket,
-- `session_on_client_readable` and `session_on_client_writable`. The process id and the session's
-- address are parameters, as are `recv` and what is found in newly allocated memory.
pub mod Startup
pub mod Login
use sharegres.Base.{
  ℕ, ◌+◌, ◌-◌, ◌%◌, ◌^◌, Bool, true, false, List, [], ◌∷◌, Option, none, some, length, ltb,
  if◌then◌else◌, ◌>>=◌,
}
use sharegres.Base.Bytes.{Bytes}
use sharegres.FeProtocol.Process.{process}
use sharegres.Libpq.{Libpq}
use sharegres.MsgBuf
use sharegres.Session.Backend.{destroy}
use sharegres.Session.BackendReadable.{Fate, alive, destroyed, flush}
use sharegres.Session.Receive
use sharegres.Session.Receive.{RecvBuf, receive}
use sharegres.Session.Send.{SendResult}
use sharegres.Session.{ClientSession, SessionState, State, input}
use sharegres.ShardMap.{ShardMap}

-- What `recv` returns: bytes, of which none are the end of the stream; EAGAIN or EWOULDBLOCK; or
-- another error.
pub data RecvResult : Type 0 where
  got : Bytes → RecvResult
  try_again : RecvResult
  recv_error : RecvResult

abbrev pub recv_buf_initial : ℕ
recv_buf_initial = 8192

abbrev pub send_buf_initial : ℕ
send_buf_initial = 8192

-- `recvbuf_init`, with what `malloc` finds in the allocation.
unfoldable pub init_recv_buf : (ℕ → Bytes) → ℕ → RecvBuf
init_recv_buf fresh cap = record { bytes = fresh cap; len = 0 }

unfoldable pub session_create : (ℕ → Bytes) → Bytes → ShardMap → ℕ → ℕ → ClientSession
unfolding init_recv_buf
session_create fresh backend_conninfo shard_map pid address = record {
  state = SessionState.init;
  recv_buf = init_recv_buf fresh recv_buf_initial;
  send_buf = MsgBuf.init send_buf_initial;
  send_pos = 0;
  client_events = input;
  backend_conn = none;
  backend_watched = false;
  backend_busy = false;
  backend_shard = none;
  scatter = [];
  scatter_done = 0;
  scatter_header_sent = false;
  user = none;
  database = none;
  pid = pid;
  secret_key = address % 2 ^ 31;
  shard_map = shard_map;
  backend_conninfo = backend_conninfo;
}

module _ (pq : Libpq) (Net : Type 0) (send : Net → Bytes → SendResult × Net) where
  abbrev pub Outcome : Type 0
  Outcome = Option (Fate × State pq × Net)

  abbrev pub end_session : State pq → Net → Outcome
  end_session st w = some (destroyed, destroy pq st, w)

  unfoldable pub on_client_writable : Bool → State pq → Net → Outcome
  unfolding destroy flush
  on_client_writable hangup st w = if hangup then end_session st w else flush pq Net send st w

  module _ (recv : Net → ℕ → RecvResult × Net) (fresh : ℕ → Bytes)
      (pg_query_parse : Bytes → Option Bytes) (error_message : State pq → Bytes) where
    abbrev pub after_process : Net → Bool × State pq → Outcome
    after_process w (false, st) = end_session st w
    after_process w (true, st) =
        if ltb st.session.send_pos (MsgBuf.len st.session.send_buf)
        then flush pq Net send st w
        else some (alive, st, w)

    abbrev pub with_recv_buf : RecvBuf → State pq → State pq
    with_recv_buf rb st = record st { session = record st.session { recv_buf = rb } }

    abbrev pub after_recv : RecvResult × Net → State pq → Outcome
    after_recv (got [], w) st = end_session st w
    after_recv (got (c ∷ cs), w) st =
        process pq pg_query_parse error_message
          (with_recv_buf (receive (c ∷ cs) st.session.recv_buf) st)
        >>= after_process w
    after_recv (try_again, w) st = some (alive, st, w)
    after_recv (recv_error, w) st = end_session st w

    -- `hangup` is `events & (EPOLLERR | EPOLLHUP)`.
    unfoldable pub on_client_readable : Bool → State pq → Net → Outcome
    unfolding process destroy flush receive Receive.ensure
    on_client_readable hangup st w =
        if hangup
        then end_session st w
        else let rb = Receive.ensure 4096 fresh st.session.recv_buf in
          after_recv (recv w (length rb.bytes - rb.len)) (with_recv_buf rb st)
