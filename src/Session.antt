-- ===== src/Session.antt =====
-- src/session/session.h and session.c: the state of a client session and its buffers. A session's
-- handler sees one `State`: the session, the pools of the shards (by the shard's `id`), and libpq.
-- Registration with epoll is a flag for each backend connection. `pid` and `secret_key` are the bit
-- patterns of their `int32_t`.
pub mod Receive
pub mod Backend
pub mod Forward
pub mod Send
pub mod Results
pub mod BackendReadable
pub mod ScatterReadable
pub mod Client
pub mod Tests
use sharegres.Base.{
  ℕ, suc, ◌+◌, Bool, true, false, List, [], ◌∷◌, ◌++◌, Option, none, some, length, ◌==◌,
  if◌then◌else◌,
}
use sharegres.Base.Bytes.{Bytes}
use sharegres.ConnPool.{ConnPool}
use sharegres.Libpq.{Libpq}
use sharegres.Message
use sharegres.Message.Codes
use sharegres.MsgBuf
use sharegres.MsgBuf.{MsgBuf}
use sharegres.ShardMap.{Shard, ShardMap}
use Receive.{RecvBuf}

pub data SessionState : Type 0 where
  init auth ready query scatter copy_in copy_out closing : SessionState

-- Which events the client's socket is registered for, and with them the callback that runs.
pub data Watch : Type 0 where
  input output : Watch

-- One shard's part of a scattered query. `from_pool` is true wherever `conn` is set.
pub record ScatterConn : Type 0 where
  pub shard : Shard
  pub conn : Option ℕ
  pub watched : Bool
  pub done : Bool
  pub from_pool : Bool

-- `scatter` holds the first `scatter_count` entries of the source's array.
pub record ClientSession : Type 0 where
  pub state : SessionState
  pub recv_buf : RecvBuf
  pub send_buf : MsgBuf
  pub send_pos : ℕ
  pub client_events : Watch
  pub backend_conn : Option ℕ
  pub backend_watched : Bool
  pub backend_busy : Bool
  pub backend_shard : Option Shard
  pub scatter : List ScatterConn
  pub scatter_done : ℕ
  pub scatter_header_sent : Bool
  pub user : Option Bytes
  pub database : Option Bytes
  pub pid : ℕ
  pub secret_key : ℕ
  pub shard_map : ShardMap
  pub backend_conninfo : Bytes

pub record State (pq : Libpq) : Type 0 where
  pub session : ClientSession
  pub pools : ℕ → ConnPool
  pub env : pq.Env

-- The most shards that a query is scattered to.
abbrev pub max_scatter_shards : ℕ
max_scatter_shards = 64

unfoldable pub queue_send : ClientSession → Bytes → ClientSession
queue_send s bytes = record s { send_buf = MsgBuf.put_bytes s.send_buf bytes }

-- A ReadyForQuery message, built in a buffer of its own and queued.
unfoldable pub queue_ready : ClientSession → ℕ → ClientSession
unfolding queue_send
queue_ready s txn_status =
    queue_send s (Message.write_ready_for_query (MsgBuf.init 16) txn_status).bytes

unfoldable pub queue_command_complete : ClientSession → Bytes → ClientSession
unfolding queue_send
queue_command_complete s tag =
    queue_send s (Message.write_command_complete (MsgBuf.init 64) tag).bytes

-- `fe_send_error`
unfoldable pub send_error : ClientSession → Bytes → Bytes → Bytes → ClientSession
send_error s severity code message = record s {
  send_buf = Message.write_error s.send_buf severity code message;
}

abbrev pub set_pool : (ℕ → ConnPool) → ℕ → ConnPool → ℕ → ConnPool
set_pool pools id p j = if id == j then p else pools j
