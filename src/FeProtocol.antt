-- ===== src/FeProtocol.antt =====
-- src/protocol/fe_protocol.c: the frontend protocol. Here: running a statement on one backend or on
-- several. The SQL text is a C string without its terminator. The flags that stand for return codes
-- are true for 0 and false for -1.
pub mod Startup
pub mod Query
pub mod Process
pub mod Frames
pub mod Pipeline
pub mod Reply
pub mod Login
pub mod Scatter
pub mod Copy
pub mod Tests
use sharegres.Base.{
  ℕ, suc, ◌+◌, Bool, true, false, List, [], ◌∷◌, ◌++◌, Option, none, some, length, leb, ltb,
  if◌then◌else◌,
}
use sharegres.Base.Bytes.{Bytes, codes}
use sharegres.Libpq.{Libpq}
use sharegres.Message.Codes
use sharegres.Session.{
  ClientSession, ScatterConn, SessionState, State, max_scatter_shards, queue_ready, send_error,
}
use sharegres.Session.Backend.{
  acquire_from, release_to, drop_backend, connect_to_shard, connect_to_default, same_shard,
}
use sharegres.ShardMap.{Shard}

-- An ErrorResponse and a ReadyForQuery.
unfoldable pub report : ClientSession → Bytes → Bytes → Bytes → ClientSession
unfolding send_error queue_ready
report s severity code message = queue_ready (send_error s severity code message) Codes.txn_idle

abbrev failed_conn : Shard → ScatterConn
failed_conn shard = record {
  shard = shard;
  conn = none;
  watched = false;
  done = true;
  from_pool = true;
}

abbrev pub count_done : List ScatterConn → ℕ
count_done [] = 0
count_done (sc ∷ scs) = (if sc.done then 1 else 0) + count_done scs

module _ (pq : Libpq) where
  abbrev pub with_session : State pq → ClientSession → State pq
  with_session st s = record st { session = s }

  -- `PQsendQuery`, `PQflush`, and the session waits for the result.
  unfoldable pub start_query : Bytes → ℕ → State pq → Bool × State pq
  start_query sql conn st =
      let (sent, e) = pq.send_query st.env conn sql in
      if sent
      then (
        true,
        record st {
          session = record st.session { state = SessionState.query; backend_busy = true };
          env = pq.flush e conn;
        },
      )
      else (false, record st { env = e })

  unfoldable pub connect_to : Option Shard → State pq → Bool × State pq
  unfolding connect_to_shard connect_to_default
  connect_to none st = connect_to_default pq none st
  connect_to (some shard) st = connect_to_shard pq shard st

  -- Where a backend is there after `connect_to`, the query is sent on it.
  unfoldable pub send_on : Bytes → Option ℕ → State pq → Bool × State pq
  unfolding start_query
  send_on sql none st = (false, st)
  send_on sql (some conn) st = start_query sql conn st

  -- A backend of another shard is given back first.
  unfoldable pub other_shard : Option Shard → State pq → State pq
  unfolding drop_backend
  other_shard shard st =
      if same_shard st.session.backend_shard shard
      then st
      else drop_backend pq st.session.backend_conn st

  unfoldable pub execute_on : Bytes → Option Shard → Option ℕ → State pq → Bool × State pq
  unfolding connect_to send_on start_query
  execute_on sql shard (some conn) st = start_query sql conn st
  execute_on sql shard none st =
      let (connected, st') = connect_to shard st in
      if connected then send_on sql st'.session.backend_conn st' else (false, st')

  unfoldable pub execute_single : Bytes → Option Shard → State pq → Bool × State pq
  unfolding other_shard execute_on
  execute_single sql shard st =
      let st' = other_shard shard st in execute_on sql shard st'.session.backend_conn st'

  -- One round of the loop of `execute_scatter`, and whether it counts as done at once.
  unfoldable pub scatter_to : Bytes → Shard → State pq → ScatterConn × State pq
  unfolding acquire_from release_to
  scatter_to sql shard st =
      let (conn, st') = acquire_from pq shard st in
      elim conn [
        | none ↦ (record (failed_conn shard) { from_pool = false }, st')
        | some c ↦
            let (sent, e) = pq.send_query (pq.setnonblocking st'.env c) c sql in
            if sent
            then (
              record {
                shard = shard;
                conn = some c;
                watched = true;
                done = false;
                from_pool = true;
              },
              record st' { env = pq.flush e c },
            )
            else (failed_conn shard, release_to pq shard c (record st' { env = e }))
      ]

  unfoldable pub scatter_loop : Bytes → List Shard → State pq → List ScatterConn × State pq
  unfolding scatter_to
  scatter_loop sql [] st = ([], st)
  scatter_loop sql (shard ∷ shards) st =
      let (sc, st') = scatter_to sql shard st in
      let (scs, st'') = scatter_loop sql shards st' in (sc ∷ scs, st'')

  unfoldable pub execute_scatter : Bytes → List Shard → State pq → Bool × State pq
  unfolding scatter_loop report
  execute_scatter sql shards st =
      if ltb max_scatter_shards (length shards)
      then (false, st)
      else let (scs, st') = scatter_loop sql shards st in
        let started = record st'.session {
          scatter = scs;
          scatter_done = count_done scs;
          scatter_header_sent = false;
        } in
        if leb (length shards) (count_done scs)
        then (
          true,
          with_session st'
              (record (report started (codes "ERROR") (codes "08001")
                (codes "all scatter connections failed")) { state = SessionState.ready }),
        )
        else (true, with_session st' (record started { state = SessionState.scatter }))
