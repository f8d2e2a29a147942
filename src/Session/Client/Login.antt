-- ===== src/Session/Client/Login.antt =====
-- From a new session and a startup packet on the socket to the greeting on the wire.
use sharegres.Base.{
  ℕ, sym, subst, ◌+◌, ◌-◌, ◌%◌, ◌^◌, length-drop, ◌≤◌, ◌<◌, ◌≡◌, ◌∙◌, refl, ap, arith, Bool, true,
  false, List, [], ◌∷◌, ◌++◌, Option, some, none, length, drop, All, ltb, ◌>>=◌,
}
use sharegres.Base.Bytes.{Bytes, codes}
use sharegres.ConnPool.{ConnPool}
use sharegres.FeProtocol.Login.{LoggedIn, IsParam, params_text, last_of}
use sharegres.FeProtocol.Process.{process}
use sharegres.FeProtocol.Reply.{stream, greeting}
use sharegres.FeProtocol.Startup.{or_else}
use sharegres.FeProtocol.{with_session}
use sharegres.Libpq.{Libpq}
use sharegres.MsgBuf
use sharegres.MsgBuf.{htonl, ntohl}
use sharegres.Session.BackendReadable.Flush.{Flushed, flush-Flushed}
use sharegres.Session.BackendReadable.{Fate, alive, destroyed, flush}
use sharegres.Session.Client.Startup.{
  packet, length-packet, ensure-new, receive-HoldsStartup, process-startup,
}
use sharegres.Session.Client.{
  RecvResult, got, with_recv_buf, session_create, on_client_readable, after_recv, after_process,
}
use sharegres.Session.Receive.{RecvBuf, consume, receive}
use sharegres.Session.Send.Broken.{Failed}
use sharegres.Session.Send.Wire.{Wire}
use sharegres.Session.Send.{SendResult, unsent}
use sharegres.Session.{ClientSession, SessionState, State}
use sharegres.ShardMap.{ShardMap}

module _ (pq : Libpq) (Net : Type 0) (send : Net → Bytes → SendResult × Net) (wire : Wire Net send)
    (recv : Net → ℕ → RecvResult × Net) (fresh : ℕ → Bytes) (pg_query_parse : Bytes → Option Bytes)
    (error_message : State pq → Bytes) where
  open wire use {sent_on}

  -- The client's stream goes on with the greeting, on the wire or still to be sent, and the session is
  -- ready for the user's queries; or it is gone because the socket is broken.
  abbrev pub Welcomed : List (Bytes × Bytes) → Bytes → Net → Option (Fate × State pq × Net) → Type 0
  Welcomed ps hello w none = ⊥
  Welcomed ps hello w (some (alive, st, w')) =
      let user = or_else (last_of (codes "user") ps none) (codes "unknown") in
      (sent_on w' ++ unsent st.session ≡ sent_on w ++ hello)
      × (st.session.state ≡ SessionState.ready)
      × (st.session.user ≡ some user)
      × (st.session.database ≡ some (or_else (last_of (codes "database") ps none) user))
      × (st.session.recv_buf.len ≡ 0)
  Welcomed ps hello w (some (destroyed, st, w')) =
      (left : Bytes) × (0 < length left)
      × (sent_on w' ++ left ≡ sent_on w ++ hello)
      × Failed Net send left w'

  -- The session that `process` leaves.
  record Ready (ps : List (Bytes × Bytes)) (hello : Bytes) (s : ClientSession) : Type 0 where
    hello_queued : unsent s ≡ hello
    is_ready : s.state ≡ SessionState.ready
    user_is : s.user ≡ some (or_else (last_of (codes "user") ps none) (codes "unknown"))
    database_is :
        s.database
        ≡ some (
            or_else
              (last_of (codes "database") ps none)
              (or_else (last_of (codes "user") ps none) (codes "unknown")))
    nothing_left : s.recv_buf.len ≡ 0

  Flushed-Welcomed :
      (ps : List (Bytes × Bytes)) (hello : Bytes) (st : State pq) (w : Net)
      (o : Option (Fate × State pq × Net))
      → Ready ps hello st.session
      → Flushed pq Net send wire st w o
      → Welcomed ps hello w o
  Flushed-Welcomed ps hello st w none ready f = f
  Flushed-Welcomed ps hello st w (some (alive, st', w')) ready (d, rest, _, _) = (
    d ∙ ap (λ x. sent_on w ++ x) ready.hello_queued,
    ap (λ t. t.state) rest ∙ ready.is_ready,
    ap (λ t. t.user) rest ∙ ready.user_is,
    ap (λ t. t.database) rest ∙ ready.database_is,
    ap (λ t. t.recv_buf.len) rest ∙ ready.nothing_left,
  )
  Flushed-Welcomed ps hello st w (some (destroyed, st', w')) ready (left, some_left, d, failed) =
      (left, some_left, d ∙ ap (λ x. sent_on w ++ x) ready.hello_queued, failed)

  LoggedIn-Ready :
      (before s : ClientSession) (ps : List (Bytes × Bytes))
      → before.send_buf.bytes ≡ []
      → before.send_pos ≡ 0
      → before.user ≡ none
      → before.database ≡ none
      → before.recv_buf.len ≡ 8 + length (params_text ps)
      → LoggedIn before ps s
      → Ready ps (stream (greeting before.pid before.secret_key)) s
  unfolding consume
  LoggedIn-Ready before s ps empty start no_user no_database all h = record {
    hello_queued = rw (h.pos_kept, start, h.greeted, empty);
    is_ready = h.is_ready;
    user_is = h.user_is ∙ rw no_user;
    database_is = h.database_is ∙ rw (no_user, no_database);
    nothing_left = ap (λ x. x.len) h.taken_out ∙ omega (arith, all);
  }

  after_recv-got :
      (chunk : Bytes) (st : State pq) (w : Net)
      → 0 < length chunk
      → after_recv pq Net send recv fresh pg_query_parse error_message (got chunk, w) st ≡ (
          process pq pg_query_parse error_message (
            with_recv_buf pq Net send recv fresh pg_query_parse error_message
              (receive chunk st.session.recv_buf)
              st)
          >>= after_process pq Net send recv fresh pg_query_parse error_message w)
  after_recv-got [] st w h = ground arith
  after_recv-got (c ∷ cs) st w h = refl

  after_process-Welcomed :
      (ps : List (Bytes × Bytes)) (pid key : ℕ) (st : State pq) (w : Net)
      → Ready ps (stream (greeting pid key)) st.session
      → Welcomed ps
          (stream (greeting pid key))
          w
          (after_process pq Net send recv fresh pg_query_parse error_message w (true, st))
  unfolding htonl
  after_process-Welcomed ps pid key st w ready =
      let s = st.session in
      let some_left : 0 < length (unsent s) = rw ready.hello_queued (omega arith) in
      let more : ltb s.send_pos (MsgBuf.len s.send_buf) ≡ true =
        ground (arith, length-drop s.send_pos s.send_buf.bytes) in
      rw more (
        Flushed-Welcomed ps (stream (greeting pid key)) st w (flush pq Net send st w) ready
          (flush-Flushed pq Net send wire st w))

  -- A new session whose first call of `recv` gets a whole startup packet of protocol 3, as the protocol
  -- writes it, and nothing more, welcomes the client. `on_client_readable` returns, and the client's
  -- stream goes on with the startup response, with the session's process id and the low 31 bits of its
  -- address as the key: on the wire, or still to be sent. The session is ready, its buffer is empty, its
  -- user is the last one that the packet names, or else "unknown", and its database the last one that
  -- the packet names, or else the user. The session is destroyed instead only where the last call of `send` has
  -- failed, with an error that is not EAGAIN.
  -- The packet has at most 8192 bytes, and an allocation has the size asked for.
  pub on_client_readable-Welcomed :
      (minor : ℕ) (ps : List (Bytes × Bytes)) (conninfo : Bytes) (shard_map : ShardMap)
      (pid address : ℕ) (pools : ℕ → ConnPool) (env : pq.Env) (w w₁ : Net)
      → ((n : ℕ) → length (fresh n) ≡ n)
      → minor < 65536
      → All IsParam ps
      → 8 + length (params_text ps) ≤ 8192
      → recv w 8192 ≡ (got (packet minor ps), w₁)
      → Welcomed ps (stream (greeting pid (address % 2 ^ 31))) w₁ (
          on_client_readable pq Net send recv fresh pg_query_parse error_message false
            (record {
              session = session_create fresh conninfo shard_map pid address;
              pools = pools;
              env = env;
            })
            w)
  unfolding on_client_readable session_create receive MsgBuf.init
  on_client_readable-Welcomed minor ps conninfo shard_map pid address pools env w w₁ sized is_minor
        params small filled =
      let hello = stream (greeting pid (address % 2 ^ 31)) in
      let st : State pq = record {
        session = session_create fresh conninfo shard_map pid address;
        pools = pools;
        env = env;
      } in
      let handle : RecvResult × Net → State pq → Option (Fate × State pq × Net) =
        λ r st'. after_recv pq Net send recv fresh pg_query_parse error_message r st' in
      let with_buf : RecvBuf → State pq → State pq =
        λ rb st'. with_recv_buf pq Net send recv fresh pg_query_parse error_message rb st' in
      let finish : Bool × State pq → Option (Fate × State pq × Net) =
        after_process pq Net send recv fresh pg_query_parse error_message w₁ in
      let (junk, same, size) = ensure-new fresh sized in
      let st₁ = with_buf (record { bytes = junk; len = 0 }) st in
      let st₂ = with_buf (receive (packet minor ps) (record { bytes = junk; len = 0 })) st₁ in
      let all : 0 + length (packet minor ps) ≡ 8 + length (params_text ps) =
        omega (arith, length-packet minor ps) in
      let (s, done, logged_in) =
        process-startup pq pg_query_parse error_message st₂ minor ps
          (drop (0 + length (packet minor ps)) junk) refl
          (receive-HoldsStartup minor ps junk is_minor params) all (omega (arith, all, small)) in
      let room : length junk - 0 ≡ 8192 = omega (arith, size) in
      let returned : on_client_readable pq Net send recv fresh pg_query_parse error_message false st
            w
          ≡ finish (true, with_session pq st₂ s) =
        ap (λ rb. handle (recv w (length rb.bytes - rb.len)) (with_buf rb st)) same
        ∙ ap (λ n. handle (recv w n) st₁) room
        ∙ ap (λ r. handle r st₁) filled
        ∙ after_recv-got (packet minor ps) st₁ w₁ (omega (arith, length-packet minor ps))
        ∙ ap (λ o. o >>= finish) done in
      subst (λ o. Welcomed ps hello w₁ o) (sym returned)
        (after_process-Welcomed ps pid (address % 2 ^ 31) (with_session pq st₂ s) w₁
          (LoggedIn-Ready st₂.session s ps refl refl refl refl all logged_in))
