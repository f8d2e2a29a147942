-- ===== src/FeProtocol/Tests.antt =====
-- Sessions with messages in their receive buffers.
use sharegres.Base.{
  ◌+◌, ◌*◌, ◌≡◌, refl, true, false, List, [], ◌∷◌, ◌++◌, Option, some, none, arith, length,
}
use sharegres.Base.Bytes.{Bytes, codes}
use sharegres.ConnPool
use sharegres.FeProtocol.Pipeline.{
  process-single_query, process-pipelined_query, process_loop-IsStuck, IsStuck,
}
use sharegres.FeProtocol.Process.{process, process_loop, consume_message, read_header}
use sharegres.FeProtocol.Query.{handle_query}
use sharegres.FeProtocol.Reply.{queued}
use sharegres.FeProtocol.Scatter.{execute_scatter-Scattered, Scattered}
use sharegres.FeProtocol.Startup.{handle_startup_message}
use sharegres.FeProtocol.Login.{handle_startup_message-LoggedIn, LoggedIn, params_text}
use sharegres.FeProtocol.{execute_scatter}
use sharegres.Libpq.Tests.{listed}
use sharegres.Message.Codes
use sharegres.Message.Frames.{frame, cstring}
use sharegres.MsgBuf
use sharegres.MsgBuf.{htonl, ntohl}
use sharegres.Session.Receive.{RecvBuf}
use sharegres.Session.{ClientSession, SessionState, State, Watch}
use sharegres.ShardMap.Tests.{low, high}
use sharegres.ShardMap.{ShardMap}

abbrev pub received : Bytes → RecvBuf
received bytes = record { bytes = bytes ++ codes "old data"; len = length bytes }

abbrev no_shards : ShardMap
no_shards = record { shards = []; table_rules = []; pool_size = 4 }

abbrev pub ready_session : RecvBuf → ClientSession
ready_session rb = record {
  state = SessionState.ready;
  recv_buf = rb;
  send_buf = MsgBuf.init 16;
  send_pos = 0;
  client_events = Watch.input;
  backend_conn = none;
  backend_watched = false;
  backend_busy = false;
  backend_shard = none;
  scatter = [];
  scatter_done = 0;
  scatter_header_sent = false;
  user = some (codes "bob");
  database = some (codes "shop");
  pid = 17;
  secret_key = 99;
  shard_map = no_shards;
  backend_conninfo = codes "host=a";
}

abbrev pub with_input : Bytes → State listed
with_input bytes = record {
  session = ready_session (received bytes);
  pools = λ id. ConnPool.init (codes "host=a") 4;
  env = [];
}

-- A parser that gives no tree, and libpq's message.
abbrev no_parser : Bytes → Option Bytes
no_parser sql = none

abbrev pub no_message : State listed → Bytes
no_message st = codes "failed"

abbrev one : State listed
one = with_input (frame Codes.query (cstring (codes "ab")))

process-single_query_example :
    process listed no_parser no_message one
    ≡ handle_query listed no_parser no_message
        (codes "ab")
        (consume_message listed no_parser no_message (5 + length (cstring (codes "ab"))) one)
unfolding htonl
process-single_query_example =
    process-single_query listed no_parser no_message one (codes "ab") (codes "old data") refl
      (record { bytes_are = refl; received = omega arith; small = omega arith }) refl
      (omega arith, (omega arith, tt))

abbrev two : State listed
two =
    with_input
      (frame Codes.query (cstring (codes "ab")) ++ frame Codes.query (cstring (codes "cd")))

process-pipelined_query_example :
    process listed no_parser no_message two
    ≡ handle_query listed no_parser no_message
        (codes "cd")
        (consume_message listed no_parser no_message (5 + length (cstring (codes "ab"))) two)
unfolding htonl
process-pipelined_query_example =
    process-pipelined_query listed no_parser no_message two (codes "ab") (codes "cd")
      (codes "old data") refl
      (record { bytes_are = refl; received = omega arith; small = omega arith }) refl refl
      (omega arith, (omega arith, tt))

-- A Sync message with a length field of 2 ^ 32 - 1.
abbrev endless : State listed
endless = with_input (Codes.sync ∷ 255 ∷ 255 ∷ 255 ∷ 255 ∷ [])

abbrev endless-IsStuck : IsStuck listed no_parser no_message Codes.sync endless
endless-IsStuck = record {
  is_ready = refl;
  received = omega arith;
  header = unfold read_header ntohl in refl;
}

process_loop-IsStuck_example : process_loop listed no_parser no_message 1000 endless ≡ none
process_loop-IsStuck_example =
    process_loop-IsStuck listed no_parser no_message Codes.sync 1000 endless (omega arith)
      (omega arith) endless-IsStuck

abbrev session : ClientSession
session = ready_session (received [])

execute_scatter-Scattered_example :
    let (ok, st') = execute_scatter listed (codes "SELECT 1") (low ∷ high ∷ []) one in
    (ok ≡ true) × Scattered (queued one.session) (low ∷ high ∷ []) st'.session
execute_scatter-Scattered_example =
    execute_scatter-Scattered listed (codes "SELECT 1") (low ∷ high ∷ []) one (omega arith)

-- A packet of protocol 3.0 that names the user bob.
abbrev bob : List (Bytes × Bytes)
bob = (codes "user", codes "bob") ∷ []

abbrev new_session : ClientSession
new_session =
    record (ready_session (
      received
        (htonl (8 + length (params_text bob)) ++ (htonl (3 * 65536 + 0) ++ params_text bob)))) {
          state = SessionState.init;
          user = none;
          database = none;
        }

handle_startup_message-LoggedIn_example :
    (s' : ClientSession) × (handle_startup_message (8 + length (params_text bob)) new_session
      ≡ some (true, s'))
    × LoggedIn new_session bob s'
unfolding htonl
handle_startup_message-LoggedIn_example =
    handle_startup_message-LoggedIn new_session 0 bob (codes "old data") (record {
      bytes_are = refl;
      is_minor = omega arith;
      are_params = (
        (
          omega arith,
          (omega arith, (omega arith, (omega arith, (omega arith, tt)))),
          (omega arith, (omega arith, (omega arith, tt))),
        ),
        tt,
      );
    })
