-- ===== src/Session/BackendReadable.antt =====
-- src/session/session.c: `session_on_backend_readable`. The loops over libpq's results and COPY rows
-- run on fuel, since libpq decides how many there are.
pub mod Complete
pub mod Flush
pub mod Answer
use sharegres.Base.{
  ℕ, zero, suc, Bool, true, false, List, [], ◌∷◌, Option, none, some, if◌then◌else◌, ◌>>=◌,
}
use sharegres.Base.Bytes.{Bytes, codes}
use sharegres.Libpq.{Libpq, PgResult, ExecStatus, TxnStatus, CopyRead}
use sharegres.Message.Codes
use sharegres.Session.Backend.{release_to, no_backend, destroy}
use sharegres.Session.Results.{
  Reading, next_result, all_read, copy_in_begun, copy_out_begun, answer_result, queue_copy_data,
  queue_copy_done,
}
use sharegres.Session.Send.{SendResult, SendStatus, sent, blocked, broken, session_send}
use sharegres.Session.{
  ClientSession, SessionState, State, queue_ready, queue_command_complete, send_error,
}
use sharegres.ShardMap.{Shard}

-- Is the session still there when a callback returns?
pub data Fate : Type 0 where
  alive destroyed : Fate

-- The status byte of a ReadyForQuery.
abbrev pub txn_byte : TxnStatus → ℕ
txn_byte TxnStatus.intrans = Codes.txn_in_transaction
txn_byte TxnStatus.inerror = Codes.txn_failed
txn_byte _ = Codes.txn_idle

module _ (pq : Libpq) where
  abbrev on_session : (ClientSession → ClientSession) → State pq → State pq
  on_session f st = record st { session = f st.session }

  -- What follows a result: the next round, or the end of the loop.
  abbrev pub after_answer :
      (Bool → State pq → Option (Reading × State pq))
      → Reading × Bool × ClientSession
      → State pq
      → Option (Reading × State pq)
  after_answer again (next_result, header_sent, s) st =
      again header_sent (record st { session = s })
  after_answer again (reading, header_sent, s) st = some (reading, record st { session = s })

  abbrev pub after_result :
      (Bool → State pq → Option (Reading × State pq))
      → Bool
      → Option PgResult
      → State pq
      → Option (Reading × State pq)
  after_result again header_sent none st = some (all_read, st)
  after_result again header_sent (some res) st =
      after_answer again (answer_result header_sent res st.session) st

  -- `while ((res = PQgetResult(conn)) != NULL)`
  unfoldable pub get_results : ℕ → ℕ → Bool → State pq → Option (Reading × State pq)
  unfolding answer_result
  get_results zero conn header_sent st = none
  get_results (suc fuel) conn header_sent st =
      let (res, e) = pq.get_result st.env conn in
      after_result (λ h st'. get_results fuel conn h st') header_sent res (record st { env = e })

  -- The pool's connection goes back when the backend is outside any transaction.
  unfoldable pub give_back_idle : TxnStatus → Option Shard → ℕ → State pq → State pq
  unfolding release_to
  give_back_idle TxnStatus.idle (some shard) conn st =
      on_session no_backend (release_to pq shard conn st)
  give_back_idle _ _ conn st = st

  -- A ReadyForQuery with the backend's transaction status, and the connection given back.
  unfoldable pub report_ready : ℕ → State pq → State pq
  unfolding queue_ready give_back_idle
  report_ready conn st =
      let be_txn = pq.transaction_status st.env conn in
      give_back_idle be_txn st.session.backend_shard conn
        (on_session (λ s. queue_ready s (txn_byte be_txn)) st)

  unfoldable pub finish_query : ℕ → State pq → State pq
  unfolding report_ready
  finish_query conn st =
      on_session (λ s. record s { backend_busy = false; state = SessionState.ready })
        (report_ready conn st)

  -- `while ((nbytes = PQgetCopyData(...)) > 0)`, with what ended it.
  abbrev after_row :
      (State pq → Option (CopyRead × State pq)) → CopyRead → State pq → Option (CopyRead × State pq)
  after_row again (CopyRead.row bytes) st = again (on_session (λ s. queue_copy_data s bytes) st)
  after_row again ended st = some (ended, st)

  unfoldable pub get_copy_rows : ℕ → ℕ → State pq → Option (CopyRead × State pq)
  unfolding queue_copy_data
  get_copy_rows zero conn st = none
  get_copy_rows (suc fuel) conn st =
      let (read, e) = pq.get_copy_data st.env conn in
      after_row (λ st'. get_copy_rows fuel conn st') read (record st { env = e })

  abbrev final_result : Option PgResult → ClientSession → ClientSession
  final_result none s = s
  final_result (some res) s = elim res.status [
    | ExecStatus.command_ok ↦ queue_command_complete s res.cmd_status
    | _ ↦ s
  ]

  unfoldable pub finish_copy_out : ℕ → State pq → State pq
  unfolding queue_copy_done queue_command_complete report_ready
  finish_copy_out conn st =
      let (res, e) = pq.get_result st.env conn in
      let st' = record st { session = final_result res (queue_copy_done st.session); env = e } in
      on_session (λ s. record s { state = SessionState.ready }) (report_ready conn st')

  -- `copy_out_read`
  abbrev after_copy_out : ℕ → CopyRead × State pq → State pq
  after_copy_out conn (CopyRead.copy_done, st) = finish_copy_out conn st
  after_copy_out conn (_, st) = st

  unfoldable pub read_copy_out : ℕ → ℕ → State pq → Option (State pq)
  unfolding get_copy_rows finish_copy_out
  read_copy_out fuel conn st = get_copy_rows fuel conn st >>= λ r. some (after_copy_out conn r)

  abbrev after_results : ℕ → ℕ → Reading × State pq → Option (State pq)
  after_results fuel conn (copy_in_begun, st) = some st
  after_results fuel conn (copy_out_begun, st) = read_copy_out fuel conn st
  after_results fuel conn (_, st) = some (finish_query conn st)

  unfoldable pub read_backend : ℕ → ℕ → State pq → Option (State pq)
  unfolding get_results read_copy_out finish_query
  read_backend fuel conn st = get_results fuel conn false st >>= after_results fuel conn

  module _ (Net : Type 0) (send : Net → Bytes → SendResult × Net) where
    abbrev pub Outcome : Type 0
    Outcome = Option (Fate × State pq × Net)

    abbrev pub after_flush : State pq → SendStatus × ClientSession × Net → Fate × State pq × Net
    after_flush st (broken, s, w) = (destroyed, destroy pq (record st { session = s }), w)
    after_flush st (_, s, w) = (alive, record st { session = s }, w)

    -- `if (session_send(session) < 0) session_destroy(session);`
    unfoldable pub flush : State pq → Net → Outcome
    unfolding session_send destroy
    flush st w = session_send Net send st.session w >>= λ r. some (after_flush st r)

    -- The client is told, as far as the socket takes it, and the session ends.
    unfoldable pub fail : Bytes → State pq → Net → Outcome
    unfolding send_error session_send destroy
    fail message st w =
        session_send Net send (send_error st.session (codes "FATAL") (codes "08006") message) w
        >>= λ r. some (destroyed, destroy pq (record st { session = r.1 }), r.2)

    unfoldable pub read_from : ℕ → ℕ → State pq → Net → Outcome
    unfolding fail read_backend flush
    read_from fuel conn st w =
        let (ok, e) = pq.consume_input st.env conn in
        let st' = record st { env = e } in
        if ok
        then (if pq.is_busy e conn
            then some (alive, st', w)
            else read_backend fuel conn st' >>= λ st''. flush st'' w)
        else fail (codes "backend connection error") st' w

    -- `hangup` is `events & (EPOLLERR | EPOLLHUP)`.
    unfoldable pub on_backend_readable : ℕ → Bool → State pq → Net → Outcome
    unfolding fail read_from
    on_backend_readable fuel hangup st w =
        if hangup
        then fail (codes "backend connection lost") st w
        else elim st.session.backend_conn [
          | none ↦ some (alive, st, w)
          | some conn ↦ read_from fuel conn st w
        ]
