-- ===== src/Session/Tests.antt =====
-- A result of two rows, and a socket that takes one byte at a time.
use sharegres.Base.{
  ℕ, ◌≡◌, ◌<◌, ◌≤◌, refl, arith, ap, subst, Bool, Option, zero, suc, replicate, true, false, List,
  [], ◌∷◌, ◌++◌, none, some, length, take,
}
use sharegres.Base.Bytes.{Bytes, codes}
use sharegres.ConnPool
use sharegres.FeProtocol.Tests.{ready_session, received}
use sharegres.Session.Forward.Rows.{bytes-forward_result, header_text, rows_text}
use sharegres.Libpq.{Libpq, Field, PgResult, ExecStatus, TxnStatus, CopyRead}
use sharegres.Session.Forward.{forward_result}
use sharegres.Session.Send.Wire.{Wire, session_send-Delivered, Delivered}
use sharegres.Session.Send.{SendResult, wrote, would_block, error, session_send}
use sharegres.Session.BackendReadable.Answer.{Answered, on_backend_readable-Answered}
use sharegres.Session.BackendReadable.Complete.{reply}
use sharegres.Session.BackendReadable.{on_backend_readable}
use sharegres.Session.Results.Frames.{answer_text, bytes-answer_result}
use sharegres.Session.Results.{answer_result}
use sharegres.FeProtocol.Reply.{stream, greeting}
use sharegres.Session.Client.Login.{Welcomed, on_client_readable-Welcomed}
use sharegres.Session.Client.Startup.{packet}
use sharegres.Session.Client.{RecvResult, got, session_create, on_client_readable}
use sharegres.Session.ScatterReadable.Answer.{Gathered, on_scatter_readable-Gathered}
use sharegres.Session.ScatterReadable.Gather.{parts_text}
use sharegres.Session.ScatterReadable.Hangup.{hangups, completed, hangups-completed}
use sharegres.Session.ScatterReadable.{on_scatter_readable}
use sharegres.Session.{ClientSession, ScatterConn, SessionState, State}
use sharegres.ShardMap.{Shard}

abbrev session : ClientSession
session = record (ready_session (received [])) {
  send_buf = record { bytes = codes "abc"; cap = 16; pos = 0 };
  send_pos = 1;
}

abbrev id_and_name : List Field
id_and_name =
    record { name = codes "id"; type_oid = 23; size = 4; modifier = 4294967295 }
    ∷ record { name = codes "name"; type_oid = 25; size = 65535; modifier = 4294967295 }
    ∷ []

abbrev two_rows : PgResult
two_rows = record {
  status = ExecStatus.tuples_ok;
  cmd_status = codes "SELECT 2";
  severity = none;
  sqlstate = none;
  primary = none;
  detail = none;
  fields = id_and_name;
  rows = (some (codes "1") ∷ some (codes "bob") ∷ []) ∷ (some (codes "2") ∷ none ∷ []) ∷ [];
}

bytes-forward_result_example :
    let (nrows, s') = forward_result session two_rows true in
    (nrows ≡ 2)
    × (s'.send_buf.bytes
        ≡ codes "abc" ++ (header_text true id_and_name ++ rows_text 2 two_rows.rows))
bytes-forward_result_example = bytes-forward_result session two_rows true

-- The state of the socket is what went over the wire.
abbrev send_one : Bytes → Bytes → SendResult × Bytes
send_one w [] = (wrote 0, w)
send_one w (c ∷ cs) = (wrote 1, w ++ c ∷ [])

abbrev wrote_count : SendResult → ℕ
wrote_count (wrote n) = n
wrote_count would_block = 0
wrote_count error = 0

pub send_one-sends :
    (w bytes : Bytes) (n : ℕ)
    → 0 < length bytes
    → (send_one w bytes).0 ≡ wrote n
    → (0 < n) × (n ≤ length bytes) × ((send_one w bytes).1 ≡ w ++ take n bytes)
send_one-sends w [] n h e = ground arith
send_one-sends w (c ∷ cs) n h e =
    let one : 1 ≡ n = ap wrote_count e in
    subst (λ m. (0 < m) × (m ≤ length (c ∷ cs)) × (w ++ c ∷ [] ≡ w ++ take m (c ∷ cs))) one
      (omega arith, omega arith, refl)

pub send_one-keeps_blocked :
    (w bytes : Bytes) → (send_one w bytes).0 ≡ would_block → (send_one w bytes).1 ≡ w
send_one-keeps_blocked w [] e = refl
send_one-keeps_blocked w (c ∷ cs) e = cc

pub send_one-keeps_broken :
    (w bytes : Bytes) → (send_one w bytes).0 ≡ error → (send_one w bytes).1 ≡ w
send_one-keeps_broken w [] e = refl
send_one-keeps_broken w (c ∷ cs) e = cc

abbrev one_byte_wire : Wire Bytes send_one
one_byte_wire = record {
  sent_on = λ w. w;
  sends = send_one-sends;
  keeps_blocked = send_one-keeps_blocked;
  keeps_broken = send_one-keeps_broken;
}

session_send-Delivered_example :
    Delivered Bytes send_one one_byte_wire session
      (codes "x")
      (session_send Bytes send_one session (codes "x"))
session_send-Delivered_example =
    session_send-Delivered Bytes send_one one_byte_wire session (codes "x")

bytes-answer_result_example :
    (answer_result true two_rows session).2.send_buf.bytes
    ≡ codes "abc" ++ answer_text ExecStatus.tuples_ok true two_rows
bytes-answer_result_example = bytes-answer_result true two_rows session

-- A libpq whose state is the list of the results to come, with every connection idle.
abbrev scripted : Libpq
scripted = record {
  Env = List PgResult;
  is_ok = λ e c. true;
  transaction_status = λ e c. TxnStatus.idle;
  connectdb = λ e info. (0, e);
  finish = λ e c. e;
  setnonblocking = λ e c. e;
  send_query = λ e c sql. (true, e);
  flush = λ e c. e;
  put_copy_data = λ e c memory n. (true, e);
  put_copy_end = λ e c reason. (true, e);
  consume_input = λ e c. (true, e);
  is_busy = λ e c. false;
  get_result = λ e c. elim e [ [] ↦ (none, []) | res ∷ rest ↦ (some res, rest) ];
  get_copy_data = λ e c. (CopyRead.not_yet, e);
}

abbrev shard_one : Shard
shard_one = record {
  id = 1;
  name = codes "s";
  conninfo = codes "dbname=s";
  key_range_start = 0;
  key_range_end = 9;
}

abbrev waiting : State scripted
waiting = record {
  session = record session {
    backend_conn = some 4;
    backend_shard = some shard_one;
    backend_busy = true;
  };
  pools = λ i. ConnPool.init (codes "dbname=s") 2;
  env = two_rows ∷ [];
}

on_backend_readable-Answered_example :
    Answered scripted Bytes send_one one_byte_wire
      (reply scripted (two_rows ∷ []) TxnStatus.idle)
      4
      []
      waiting
      (codes "x")
      (on_backend_readable scripted Bytes send_one 2 false waiting (codes "x"))
on_backend_readable-Answered_example =
    on_backend_readable-Answered scripted Bytes send_one one_byte_wire 2 4 (two_rows ∷ []) waiting
      (codes "x") (two_rows ∷ []) [] refl (omega arith) refl refl ([], refl, refl) (refl, tt)
      (omega arith)

abbrev part : Bool → Option ℕ → ScatterConn
part done conn = record {
  shard = shard_one;
  conn = conn;
  watched = true;
  done = done;
  from_pool = true;
}

-- One shard has answered.
abbrev half_answered : State scripted
half_answered = record waiting {
  session = record session {
    state = SessionState.scatter;
    scatter = part true (some 3) ∷ part false (some 4) ∷ [];
    scatter_done = 1;
  };
}

on_scatter_readable-Gathered_example :
    Gathered scripted Bytes send_one one_byte_wire true
      (parts_text false (two_rows ∷ []))
      true
      1
      []
      half_answered
      (codes "x")
      (on_scatter_readable scripted Bytes send_one 2 false 1 half_answered (codes "x"))
on_scatter_readable-Gathered_example =
    on_scatter_readable-Gathered scripted Bytes send_one one_byte_wire 2 1 4 (two_rows ∷ [])
      half_answered (codes "x") (two_rows ∷ []) [] refl (omega arith) refl refl ([], refl, refl)
      (omega arith)

-- No shard has answered.
abbrev scattered : State scripted
scattered = record waiting {
  session = record session {
    state = SessionState.scatter;
    scatter = part false (some 3) ∷ part false (some 4) ∷ [];
    scatter_done = 0;
  };
}

hangups-completed_example :
    hangups scripted Bytes send_one 1 0 1 scattered (codes "x")
    ≡ completed scripted Bytes send_one 0 2 scattered (codes "x")
hangups-completed_example =
    hangups-completed scripted Bytes send_one 1 0 1 scattered (codes "x") (omega arith)

abbrev ann : List (Bytes × Bytes)
ann = (codes "user", codes "ann") ∷ []

-- A socket with the startup packet of `ann`.
abbrev recv_packet : Bytes → ℕ → RecvResult × Bytes
recv_packet w room = (got (packet 0 ann), w)

abbrev zeros : ℕ → Bytes
zeros n = replicate n 0

length-zeros : (n : ℕ) → length (zeros n) ≡ n
length-zeros zero = refl
length-zeros (suc n) = ap suc (length-zeros n)

abbrev opened : State scripted
opened = record {
  session =
      session_create zeros (codes "dbname=d")
        (record { shards = []; table_rules = []; pool_size = 4 }) 7 4096;
  pools = λ i. ConnPool.init (codes "dbname=s") 2;
  env = [];
}

on_client_readable-Welcomed_example :
    Welcomed scripted Bytes send_one one_byte_wire recv_packet zeros
      (λ sql. none)
      (λ st. [])
      ann
      (stream (greeting 7 4096))
      []
      (on_client_readable scripted Bytes send_one recv_packet zeros
        (λ sql. none)
        (λ st. [])
        false
        opened
        [])
on_client_readable-Welcomed_example =
    on_client_readable-Welcomed scripted Bytes send_one one_byte_wire recv_packet zeros
      (λ sql. none) (λ st. []) 0 ann (codes "dbname=d")
      (record { shards = []; table_rules = []; pool_size = 4 }) 7 4096
      (λ i. ConnPool.init (codes "dbname=s") 2) [] [] [] length-zeros (omega arith)
      (
        (
          omega arith,
          (omega arith, (omega arith, (omega arith, (omega arith, tt)))),
          (omega arith, (omega arith, (omega arith, tt))),
        ),
        tt,
      )
      (omega arith) refl
