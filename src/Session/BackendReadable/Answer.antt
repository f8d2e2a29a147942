-- ===== src/Session/BackendReadable/Answer.antt =====
-- From the backend's results to the client's socket: `session_on_backend_readable` as a whole.
use sharegres.Base.{
  ℕ, ◌<◌, ◌≤◌, ◌≡◌, ◌∙◌, ap, sym, subst, true, false, List, ◌++◌, Option, none, some, length,
}
use sharegres.Base.Bytes.{Bytes}
use sharegres.Libpq.{Libpq, PgResult}
use sharegres.MsgBuf
use sharegres.Session.BackendReadable.Complete.{
  AllPlain, Yields, Settled, Settled-after, Ready, reply, read_backend_all,
}
use sharegres.Session.BackendReadable.Flush.{Flushed, flush-Flushed, unsent-queued}
use sharegres.Session.BackendReadable.{
  Fate, alive, destroyed, flush, read_from, on_backend_readable,
}
use sharegres.Session.Send.Broken.{Failed}
use sharegres.Session.Send.Wire.{Wire}
use sharegres.Session.Send.{SendResult, unsent}
use sharegres.Session.{SessionState, State}

module _ (pq : Libpq) (Net : Type 0) (send : Net → Bytes → SendResult × Net)
    (wire : Wire Net send) where
  open wire use {sent_on}

  -- The client's stream goes on with the text, on the wire or still to be sent; the session is ready
  -- and its backend settled, or it is gone because the socket is broken.
  abbrev pub Answered :
      Bytes → ℕ → pq.Env → State pq → Net → Option (Fate × State pq × Net) → Type 0
  Answered text conn e st w none = ⊥
  Answered text conn e st w (some (alive, st', w')) =
      (sent_on w' ++ unsent st'.session ≡ (sent_on w ++ unsent st.session) ++ text)
      × (st'.session.state ≡ SessionState.ready)
      × (st'.session.backend_busy ≡ false)
      × Settled pq (pq.transaction_status e conn) st.session.backend_shard conn e st.session
          st.pools st'
  Answered text conn e st w (some (destroyed, st', w')) =
      (left : Bytes) × (0 < length left)
      × (sent_on w' ++ left ≡ (sent_on w ++ unsent st.session) ++ text)
      × Failed Net send left w'

  Flushed-Answered :
      (text : Bytes) (conn : ℕ) (e : pq.Env) (st st' : State pq) (w : Net)
      (o : Option (Fate × State pq × Net))
      → st.session.send_pos ≤ MsgBuf.len st.session.send_buf
      → Ready pq text conn e st.session st.pools st'
      → Flushed pq Net send wire st' w o
      → Answered text conn e st w o
  Flushed-Answered text conn e st st' w none within ready f = f
  Flushed-Answered text conn e st st' w (some (alive, st₂, w')) within ready (d, rest, pools, env) =
      let (queued, pos, is_ready, not_busy, settled) = ready in
      (
        d ∙ unsent-queued st.session st'.session text (sent_on w) within queued pos,
        ap (λ t. t.state) rest ∙ is_ready,
        ap (λ t. t.backend_busy) rest ∙ not_busy,
        Settled-after pq (pq.transaction_status e conn) st.session.backend_shard conn e st.session
            st.pools st' st₂ (ap (λ t. t.backend_conn) rest) (ap (λ t. t.backend_shard) rest) pools
            env settled,
      )
  Flushed-Answered text conn e st st' w (some (destroyed, st₂, w')) within ready
        (left, some_left, d, failed) =
      let (queued, pos, _, _, _) = ready in
      (
        left,
        some_left,
        d ∙ unsent-queued st.session st'.session text (sent_on w) within queued pos,
        failed,
      )

  read_from-Answered :
      (fuel conn : ℕ) (results : List PgResult) (st : State pq) (w : Net) (e₀ e : pq.Env)
      → st.session.send_pos ≤ MsgBuf.len st.session.send_buf
      → pq.consume_input st.env conn ≡ (true, e₀)
      → pq.is_busy e₀ conn ≡ false
      → Yields pq e₀ conn results e
      → AllPlain results
      → length results < fuel
      → Answered
          (reply pq results (pq.transaction_status e conn))
          conn
          e
          st
          w
          (read_from pq Net send fuel conn st w)
  unfolding read_from
  read_from-Answered fuel conn results st w e₀ e within consumed idle yields plain enough =
      let (st', read, ready) =
        read_backend_all pq fuel conn results (record st { env = e₀ }) e enough yields plain in
      let text = reply pq results (pq.transaction_status e conn) in
      rw (consumed, idle, read)
        (Flushed-Answered text conn e st st' w (flush pq Net send st' w) within ready
          (flush-Flushed pq Net send wire st' w))

  -- When the backend of a session is readable, `PQconsumeInput` succeeds, libpq is not busy, and it
  -- gives a list of results and then NULL, of which none starts a COPY, then the handler returns, given
  -- more fuel than there are results. The client's stream goes on with the frames of all results, in
  -- their order, and one ReadyForQuery with the backend's transaction status: on the wire, or still to
  -- be sent. The session is ready and its backend no longer busy. A shard's connection outside a
  -- transaction is released to the shard's pool, and any other is kept. The session is
  -- destroyed instead, with some of the stream not sent, only where the last call of `send` has failed,
  -- with an error that is not EAGAIN. The position in the send buffer must be within it.
  pub on_backend_readable-Answered :
      (fuel conn : ℕ) (results : List PgResult) (st : State pq) (w : Net) (e₀ e : pq.Env)
      → st.session.backend_conn ≡ some conn
      → st.session.send_pos ≤ MsgBuf.len st.session.send_buf
      → pq.consume_input st.env conn ≡ (true, e₀)
      → pq.is_busy e₀ conn ≡ false
      → Yields pq e₀ conn results e
      → AllPlain results
      → length results < fuel
      → Answered
          (reply pq results (pq.transaction_status e conn))
          conn
          e
          st
          w
          (on_backend_readable pq Net send fuel false st w)
  unfolding on_backend_readable
  on_backend_readable-Answered fuel conn results st w e₀ e has within consumed idle yields plain
        enough =
      let answer : Option ℕ → Option (Fate × State pq × Net) = λ c. elim c [
        | none ↦ some (alive, st, w)
        | some conn ↦ read_from pq Net send fuel conn st w
      ] in
      subst (λ c. Answered (reply pq results (pq.transaction_status e conn)) conn e st w (answer c))
        (sym has)
        (read_from-Answered fuel conn results st w e₀ e within consumed idle yields plain enough)
