-- ===== src/Session/ScatterReadable.antt =====
-- src/session/session.c: `session_on_scatter_readable`, on the entry with the index `i`. An entry past
-- `scatter_count` was released, so that its connection is NULL.
pub mod Gather
pub mod Hangup
pub mod End
pub mod Answer
use sharegres.Base.{
  ℕ, zero, suc, Bool, true, false, not, List, [], ◌∷◌, Option, none, some, length, get_elem?, leb,
  if◌then◌else◌, ◌>>=◌,
}
use sharegres.Base.Bytes.{Bytes, codes}
use sharegres.Libpq.{Libpq, PgResult, ExecStatus}
use sharegres.Message.Codes
use sharegres.Session.Backend.{release_scatter}
use sharegres.Session.BackendReadable.{Fate, alive, flush}
use sharegres.Session.Forward.{forward_result}
use sharegres.Session.Send.{SendResult}
use sharegres.Session.{
  ClientSession, ScatterConn, SessionState, State, queue_ready, queue_command_complete,
}

-- `sc->done = true`
abbrev pub mark_done : List ScatterConn → ℕ → List ScatterConn
mark_done [] i = []
mark_done (sc ∷ scs) zero = record sc { done = true } ∷ scs
mark_done (sc ∷ scs) (suc i) = sc ∷ mark_done scs i

-- and `session->scatter_done++`, whether or not the entry was done before.
abbrev pub count_entry : ℕ → ClientSession → ClientSession
count_entry i s = record s { scatter = mark_done s.scatter i; scatter_done = suc s.scatter_done }

abbrev pub forward_part : PgResult → ClientSession → ClientSession
forward_part res s = record (forward_result s res (not s.scatter_header_sent)).1 {
  scatter_header_sent = true;
}

-- Rows are forwarded; a command's tag and an error are not.
unfoldable pub gather_result : ExecStatus → PgResult → ClientSession → ClientSession
unfolding forward_result
gather_result ExecStatus.tuples_ok res s = forward_part res s
gather_result ExecStatus.single_tuple res s = forward_part res s
gather_result _ res s = s

-- The messages that end the query.
unfoldable pub queue_end : ClientSession → ClientSession
unfolding queue_command_complete queue_ready
queue_end s =
    queue_ready
      (queue_command_complete s
        (if s.scatter_header_sent then codes "SELECT" else codes "SELECT 0"))
      Codes.txn_idle

module _ (pq : Libpq) where
  abbrev pub after_part :
      (State pq → Option (State pq)) → Option PgResult → State pq → Option (State pq)
  after_part again none st = some st
  after_part again (some res) st =
      again (record st { session = gather_result res.status res st.session })

  -- `while ((res = PQgetResult(sc->conn)) != NULL)`
  unfoldable pub gather_results : ℕ → ℕ → State pq → Option (State pq)
  unfolding gather_result
  gather_results zero conn st = none
  gather_results (suc fuel) conn st =
      let (res, e) = pq.get_result st.env conn in
      after_part (λ st'. gather_results fuel conn st') res (record st { env = e })

  -- All of its connections are released with them.
  unfoldable pub complete : State pq → State pq
  unfolding queue_end release_scatter
  complete st =
      let st' = release_scatter pq (record st { session = queue_end st.session }) in
      record st' { session = record st'.session { state = SessionState.ready } }

  module _ (Net : Type 0) (send : Net → Bytes → SendResult × Net) where
    unfoldable pub check_complete : State pq → Net → Option (Fate × State pq × Net)
    unfolding complete flush
    check_complete st w =
        if leb (length st.session.scatter) st.session.scatter_done
        then flush pq Net send (complete st) w
        else some (alive, st, w)

    abbrev pub finish_entry : ℕ → State pq → Net → Option (Fate × State pq × Net)
    finish_entry i st w = check_complete (record st { session = count_entry i st.session }) w

    unfoldable pub read_part : ℕ → ℕ → ℕ → State pq → Net → Option (Fate × State pq × Net)
    unfolding gather_results check_complete
    read_part fuel i conn st w =
        let (ok, e) = pq.consume_input st.env conn in
        let st' = record st { env = e } in
        if ok
        then (if pq.is_busy e conn
            then some (alive, st', w)
            else gather_results fuel conn st' >>= λ st''. finish_entry i st'' w)
        else finish_entry i st' w

    -- `hangup` is `events & (EPOLLERR | EPOLLHUP)`.
    unfoldable pub on_scatter_readable :
        ℕ → Bool → ℕ → State pq → Net → Option (Fate × State pq × Net)
    unfolding check_complete read_part
    on_scatter_readable fuel hangup i st w =
        if hangup
        then finish_entry i st w
        else elim (get_elem? st.session.scatter i >>= λ sc. sc.conn) [
          | none ↦ some (alive, st, w)
          | some conn ↦ read_part fuel i conn st w
        ]
