-- ===== src/FeProtocol/Query.antt =====
-- src/protocol/fe_protocol.c: `handle_query`, a simple query with its routing. libpg_query's parser is
-- the parameter `pg_query_parse`. `none` where the parser or the router faults.
use sharegres.Base.{ℕ, Bool, true, false, [], ◌∷◌, Option, none, some, if◌then◌else◌, ◌>>=◌}
use sharegres.Base.Bytes.{Bytes, codes}
use sharegres.FeProtocol.{report, with_session, start_query, execute_single, execute_scatter}
use sharegres.Libpq.{Libpq}
use sharegres.Message.Codes
use sharegres.QueryParser.Parse.{parse_query}
use sharegres.QueryParser.{ParseResult}
use sharegres.Router.{RouteDecision, decide}
use sharegres.Session.{ClientSession, State, queue_ready, queue_command_complete}
use sharegres.Session.Backend.{connect_to_default}

-- SET, SHOW and DISCARD are answered here.
unfoldable pub answer_local : ClientSession → ClientSession
unfolding queue_command_complete queue_ready
answer_local s = queue_ready (queue_command_complete s (codes "SET")) Codes.txn_idle

module _ (pq : Libpq) (pg_query_parse : Bytes → Option Bytes) where
  abbrev reported : Bytes → Bytes → Bytes → State pq → State pq
  reported severity code message st = with_session pq st (report st.session severity code message)

  -- With no shards every statement goes to the default backend. libpq's message for a query that
  -- cannot be sent is left open.
  unfoldable pub send_default : (State pq → Bytes) → Bytes → Option ℕ → State pq → State pq
  unfolding start_query report
  send_default error_message sql none st = st
  send_default error_message sql (some conn) st =
      let (sent, st') = start_query pq sql conn st in
      if sent then st' else reported (codes "ERROR") (codes "XX000") (error_message st') st'

  unfoldable pub query_default : (State pq → Bytes) → Bytes → State pq → State pq
  unfolding connect_to_default send_default report
  query_default error_message sql st =
      let (connected, st') = connect_to_default pq st.session.backend_conn st in
      if connected
      then send_default error_message sql st'.session.backend_conn st'
      else reported (codes "FATAL") (codes "08001") (codes "cannot connect to backend") st'

  abbrev pub or_report : Bytes → Bool × State pq → State pq
  or_report message (true, st) = st
  or_report message (false, st) = reported (codes "ERROR") (codes "08001") message st

  -- `switch (decision.type)`
  unfoldable pub execute : Bytes → RouteDecision → State pq → Bool × State pq
  unfolding execute_single execute_scatter answer_local report
  execute sql (RouteDecision.single shard) st =
      (true, or_report (codes "cannot connect to shard") (execute_single pq sql (some shard) st))
  execute sql (RouteDecision.scatter shards) st = execute_scatter pq sql shards st
  execute sql RouteDecision.local st = (true, with_session pq st (answer_local st.session))
  execute sql RouteDecision.default st =
      (true, or_report (codes "cannot connect to default backend") (execute_single pq sql none st))

  unfoldable pub route_query : Bytes → Option ParseResult → State pq → Option (Bool × State pq)
  unfolding decide execute report
  route_query sql none st =
      some (true, reported (codes "ERROR") (codes "42601") (codes "syntax error in query") st)
  route_query sql (some parsed) st =
      decide st.session.shard_map parsed >>= λ decision. some (execute sql decision st)

  abbrev has_shards : ClientSession → Bool
  has_shards s = elim s.shard_map.shards [ [] ↦ false | _ ∷ _ ↦ true ]

  -- The flag is false where the source returns -1.
  unfoldable pub handle_query : (State pq → Bytes) → Bytes → State pq → Option (Bool × State pq)
  unfolding query_default parse_query route_query
  handle_query error_message sql st =
      if has_shards st.session
      then parse_query pg_query_parse sql >>= (λ parsed. route_query sql parsed st)
      else some (true, query_default error_message sql st)
