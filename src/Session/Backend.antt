-- ===== src/Session/Backend.antt =====
-- The backend connections of a session: src/session/session.c (`session_release_scatter`, and the
-- release in `session_destroy`) and src/protocol/fe_protocol.c (`connect_to_shard`,
-- `connect_to_default`).
use sharegres.Base.{ℕ, Bool, true, false, List, [], ◌∷◌, Option, none, some, ◌==◌, if◌then◌else◌}
use sharegres.ConnPool.{acquire, release}
use sharegres.Libpq.{Libpq}
use sharegres.Session.{ClientSession, ScatterConn, State, set_pool}
use sharegres.ShardMap.{Shard}

-- Equality of two `Shard *`, of which either may be NULL.
abbrev pub same_shard : Option Shard → Option Shard → Bool
same_shard none none = true
same_shard (some a) (some b) = a.id == b.id
same_shard _ _ = false

abbrev pub no_backend : ClientSession → ClientSession
no_backend s = record s { backend_conn = none; backend_watched = false; backend_shard = none }

abbrev pub with_backend : ℕ → Option Shard → ClientSession → ClientSession
with_backend conn shard s = record s {
  backend_conn = some conn;
  backend_watched = true;
  backend_shard = shard;
}

module _ (pq : Libpq) where
  -- `conn_pool_acquire(&shard->pool)` and `conn_pool_release(&shard->pool, conn)`
  unfoldable pub acquire_from : Shard → State pq → Option ℕ × State pq
  unfolding acquire
  acquire_from shard st =
      let (conn, p, e) = acquire pq (st.pools shard.id) st.env in
      (conn, record st { pools = set_pool st.pools shard.id p; env = e })

  unfoldable pub release_to : Shard → ℕ → State pq → State pq
  unfolding release
  release_to shard conn st =
      let (p, e) = release pq (st.pools shard.id) (some conn) st.env in
      record st { pools = set_pool st.pools shard.id p; env = e }

  -- Back to the shard's pool, or closed if it is the default backend's.
  unfoldable pub give_back : Option Shard → ℕ → State pq → State pq
  unfolding release_to
  give_back none conn st = record st { env = pq.finish st.env conn }
  give_back (some shard) conn st = release_to shard conn st

  -- `event_loop_del`, the release, and the pointers set to NULL.
  unfoldable pub drop_backend : Option ℕ → State pq → State pq
  unfolding give_back
  drop_backend none st = st
  drop_backend (some conn) st =
      let given = give_back st.session.backend_shard conn st in
      record given { session = no_backend given.session }

  -- The flag is true where the source returns 0.
  unfoldable pub connect_to_shard : Shard → State pq → Bool × State pq
  unfolding acquire_from
  connect_to_shard shard st =
      let (conn, st') = acquire_from shard st in
      elim conn [
        | none ↦ (false, st')
        | some c ↦ (
          true,
          record st' {
            session = with_backend c (some shard) st'.session;
            env = pq.setnonblocking st'.env c;
          },
        )
      ]

  unfoldable pub open_default : State pq → Bool × State pq
  open_default st =
      let (conn, e) = pq.connectdb st.env st.session.backend_conninfo in
      if pq.is_ok e conn
      then (
        true,
        record st { session = with_backend conn none st.session; env = pq.setnonblocking e conn },
      )
      else (
        false,
        record st { session = record st.session { backend_conn = none }; env = pq.finish e conn },
      )

  -- A connection that is there and good is kept, whichever backend it leads to.
  unfoldable pub connect_to_default : Option ℕ → State pq → Bool × State pq
  unfolding open_default drop_backend
  connect_to_default none st = open_default st
  connect_to_default (some conn) st =
      if pq.is_ok st.env conn then (true, st) else open_default (drop_backend (some conn) st)

  unfoldable pub release_scatter_conn : ScatterConn → State pq → State pq
  unfolding release_to
  release_scatter_conn sc st = elim sc.conn [
    | none ↦ st
    | some conn ↦
        if sc.from_pool
        then release_to sc.shard conn st
        else record st { env = pq.finish st.env conn }
  ]

  unfoldable pub release_scatter_conns : List ScatterConn → State pq → State pq
  unfolding release_scatter_conn
  release_scatter_conns [] st = st
  release_scatter_conns (sc ∷ scs) st = release_scatter_conns scs (release_scatter_conn sc st)

  unfoldable pub release_scatter : State pq → State pq
  unfolding release_scatter_conns
  release_scatter st =
      let st' = release_scatter_conns st.session.scatter st in
      record st' {
        session = record st'.session {
          scatter = [];
          scatter_done = 0;
          scatter_header_sent = false;
        };
      }

  -- `session_destroy`: the socket is closed and the memory freed with the session.
  unfoldable pub destroy : State pq → State pq
  unfolding drop_backend release_scatter
  destroy st = release_scatter (drop_backend st.session.backend_conn st)
