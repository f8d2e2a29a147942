-- ===== src/Session/BackendReadable/Complete.antt =====
-- An answered query: all results of the backend reach the client's buffer, and the session is ready for
-- the next query.
use sharegres.Base.{
  ℕ, zero, suc, ◌<◌, ◌≡◌, ◌∙◌, refl, ap, arith, Bool, true, false, List, [], ◌∷◌, ◌++◌, Option,
  none, some, length, append_assoc, append-nil,
}
use sharegres.Base.Bytes.{Bytes}
use sharegres.ConnPool.{ConnPool, release}
use sharegres.Libpq.{Libpq, PgResult, TxnStatus}
use sharegres.Message.Frames.{frame, bytes-write_ready_for_query}
use sharegres.MsgBuf.Content.{bytes-put_bytes}
use sharegres.MsgBuf.{MsgBuf, init}
use sharegres.Session.Backend.{release_to}
use sharegres.Session.BackendReadable.{
  txn_byte, after_answer, get_results, give_back_idle, report_ready, finish_query, read_backend,
}
use sharegres.Session.Results.Frames.{
  answer_text, bytes-answer_result, is_plain, header_after, answer_result-plain, OnlyQueued,
  OnlyQueued-trans,
}
use sharegres.Session.Results.{
  Reading, next_result, all_read, copy_in_begun, copy_out_begun, answer_result,
}
use sharegres.Session.{ClientSession, SessionState, State, queue_ready, queue_send, set_pool}
use sharegres.ShardMap.{Shard}

-- The frames of several results, of which the first with rows has the RowDescription.
abbrev pub answers_text : Bool → List PgResult → Bytes
answers_text header_sent [] = []
answers_text header_sent (res ∷ rest) =
    answer_text res.status header_sent res
    ++ answers_text (header_after res.status header_sent) rest

-- None starts a COPY.
abbrev pub AllPlain : List PgResult → Type 0
AllPlain [] = Unit
AllPlain (res ∷ rest) = (is_plain res.status ≡ true) × AllPlain rest

module _ (pq : Libpq) where
  -- `PQgetResult` returns these results and then NULL; the last is the state of libpq behind that.
  abbrev pub Yields : pq.Env → ℕ → List PgResult → pq.Env → Type 0
  Yields e conn [] e' = pq.get_result e conn ≡ (none, e')
  Yields e conn (res ∷ rest) e' =
      (e₁ : pq.Env) × (pq.get_result e conn ≡ (some res, e₁)) × Yields e₁ conn rest e'

  -- All that the loop changes.
  abbrev AllRead : List PgResult → Bool → pq.Env → State pq → Option (Reading × State pq) → Type 0
  AllRead results header_sent e' st o =
      (s' : ClientSession) × (o ≡ some (all_read, record st { session = s'; env = e' }))
      × OnlyQueued st.session s'
      × (s'.send_buf.bytes ≡ st.session.send_buf.bytes ++ answers_text header_sent results)

  after_answer_next :
      (again : Bool → State pq → Option (Reading × State pq)) (reading : Reading)
      (header_sent h : Bool) (s : ClientSession) (st : State pq)
      → reading ≡ next_result
      → header_sent ≡ h
      → after_answer pq again (reading, header_sent, s) st ≡ again h (record st { session = s })
  after_answer_next again next_result header_sent h s st e e' =
      ap (λ x. again x (record st { session = s })) e'
  after_answer_next again all_read header_sent h s st e e' = cc
  after_answer_next again copy_in_begun header_sent h s st e e' = cc
  after_answer_next again copy_out_begun header_sent h s st e e' = cc

  get_results_all :
      (fuel conn : ℕ) (results : List PgResult) (header_sent : Bool) (st : State pq) (e' : pq.Env)
      → length results < fuel
      → Yields st.env conn results e'
      → AllPlain results
      → AllRead results header_sent e' st (get_results pq fuel conn header_sent st)
  unfolding get_results
  get_results_all zero conn results header_sent st e' h yields plain = ground arith
  get_results_all (suc fuel) conn [] header_sent st e' h yields plain =
      (st.session, rw yields refl, refl, rw append-nil)
  get_results_all (suc fuel) conn (res ∷ rest) header_sent st e' h (e₁, got, yields) (p, plain) =
      let (goes_on, same, only) = answer_result-plain header_sent res st.session p in
      let (reading, header, s₁) = answer_result header_sent res st.session in
      let h₁ = header_after res.status header_sent in
      let st₁ : State pq = record st { session = s₁; env = e₁ } in
      let (s', read, only', queued) =
        get_results_all fuel conn rest h₁ st₁ e' (omega arith) yields plain in
      (
        s',
        rw got (
            after_answer_next (λ h' st'. get_results pq fuel conn h' st') reading header h₁ s₁
              (record st { env = e₁ }) goes_on same
            ∙ read),
        OnlyQueued-trans st.session s₁ s' only only',
        queued
            ∙ rw (bytes-answer_result header_sent res st.session) (
                append_assoc st.session.send_buf.bytes (answer_text res.status header_sent res)
                  (answers_text h₁ rest)),
      )

  -- Outside a transaction the shard's connection is released to its pool, and the session has none;
  -- else the session keeps it.
  abbrev pub Settled :
      TxnStatus → Option Shard → ℕ → pq.Env → ClientSession → (ℕ → ConnPool) → State pq → Type 0
  Settled TxnStatus.idle (some shard) conn e s pools st' =
      let (p, e') = release pq (pools shard.id) (some conn) e in
      (st'.session.backend_conn ≡ none)
      × (st'.session.backend_shard ≡ none)
      × (st'.pools ≡ set_pool pools shard.id p)
      × (st'.env ≡ e')
  Settled _ _ conn e s pools st' =
      (st'.session.backend_conn ≡ s.backend_conn)
      × (st'.session.backend_shard ≡ s.backend_shard)
      × (st'.pools ≡ pools)
      × (st'.env ≡ e)

  -- The end of the handler, with the new send buffer.
  abbrev settle : TxnStatus → Option Shard → ℕ → State pq → MsgBuf → pq.Env → State pq
  settle txn shard conn st b e =
      give_back_idle pq txn shard conn
        (record st { session = record st.session { send_buf = b }; env = e })

  settle-Settled :
      (txn : TxnStatus) (shard : Option Shard) (conn : ℕ) (st : State pq) (b : MsgBuf) (e : pq.Env)
      → Settled txn shard conn e st.session st.pools (settle txn shard conn st b e)
  unfolding give_back_idle release_to
  settle-Settled TxnStatus.idle (some shard) conn st b e = (refl, refl, refl, refl)
  settle-Settled TxnStatus.idle none conn st b e = (refl, refl, refl, refl)
  settle-Settled TxnStatus.active shard conn st b e = (refl, refl, refl, refl)
  settle-Settled TxnStatus.intrans shard conn st b e = (refl, refl, refl, refl)
  settle-Settled TxnStatus.inerror shard conn st b e = (refl, refl, refl, refl)
  settle-Settled TxnStatus.unknown shard conn st b e = (refl, refl, refl, refl)

  settle-sends :
      (txn : TxnStatus) (shard : Option Shard) (conn : ℕ) (st : State pq) (b : MsgBuf) (e : pq.Env)
      → let s' = (settle txn shard conn st b e).session in
        (s'.send_buf ≡ b) × (s'.send_pos ≡ st.session.send_pos)
  unfolding give_back_idle release_to
  settle-sends TxnStatus.idle (some shard) conn st b e = (refl, refl)
  settle-sends TxnStatus.idle none conn st b e = (refl, refl)
  settle-sends TxnStatus.active shard conn st b e = (refl, refl)
  settle-sends TxnStatus.intrans shard conn st b e = (refl, refl)
  settle-sends TxnStatus.inerror shard conn st b e = (refl, refl)
  settle-sends TxnStatus.unknown shard conn st b e = (refl, refl)

  -- Whatever else of the state changes.
  pub Settled-after :
      (txn : TxnStatus) (shard : Option Shard) (conn : ℕ) (e : pq.Env) (s₀ : ClientSession)
      (pools : ℕ → ConnPool) (st st' : State pq)
      → st'.session.backend_conn ≡ st.session.backend_conn
      → st'.session.backend_shard ≡ st.session.backend_shard
      → st'.pools ≡ st.pools
      → st'.env ≡ st.env
      → Settled txn shard conn e s₀ pools st
      → Settled txn shard conn e s₀ pools st'
  Settled-after TxnStatus.idle (some shard) conn e s₀ pools st st' a b c d (a', b', c', d') =
      (a ∙ a', b ∙ b', c ∙ c', d ∙ d')
  Settled-after TxnStatus.idle none conn e s₀ pools st st' a b c d (a', b', c', d') =
      (a ∙ a', b ∙ b', c ∙ c', d ∙ d')
  Settled-after TxnStatus.active shard conn e s₀ pools st st' a b c d (a', b', c', d') =
      (a ∙ a', b ∙ b', c ∙ c', d ∙ d')
  Settled-after TxnStatus.intrans shard conn e s₀ pools st st' a b c d (a', b', c', d') =
      (a ∙ a', b ∙ b', c ∙ c', d ∙ d')
  Settled-after TxnStatus.inerror shard conn e s₀ pools st st' a b c d (a', b', c', d') =
      (a ∙ a', b ∙ b', c ∙ c', d ∙ d')
  Settled-after TxnStatus.unknown shard conn e s₀ pools st st' a b c d (a', b', c', d') =
      (a ∙ a', b ∙ b', c ∙ c', d ∙ d')

  -- The frames that answer a query.
  abbrev pub reply : List PgResult → TxnStatus → Bytes
  reply results txn = answers_text false results ++ frame b'Z' (txn_byte txn ∷ [])

  -- The text is queued and the session ready again.
  abbrev pub Ready : Bytes → ℕ → pq.Env → ClientSession → (ℕ → ConnPool) → State pq → Type 0
  Ready text conn e s pools st' =
      (st'.session.send_buf.bytes ≡ s.send_buf.bytes ++ text)
      × (st'.session.send_pos ≡ s.send_pos)
      × (st'.session.state ≡ SessionState.ready)
      × (st'.session.backend_busy ≡ false)
      × Settled (pq.transaction_status e conn) s.backend_shard conn e s pools st'

  -- The end of the handler, on a session where only the send buffer and libpq have changed.
  finish_query-Ready :
      (conn : ℕ) (st : State pq) (b : MsgBuf) (e : pq.Env) (text : Bytes)
      → b.bytes ≡ st.session.send_buf.bytes ++ text
      → Ready
          (text ++ frame b'Z' (txn_byte (pq.transaction_status e conn) ∷ []))
          conn
          e
          st.session
          st.pools
          (finish_query pq conn
            (record st { session = record st.session { send_buf = b }; env = e }))
  unfolding finish_query report_ready queue_ready queue_send init
  finish_query-Ready conn st b e text queued =
      let txn = pq.transaction_status e conn in
      let shard = st.session.backend_shard in
      let b' = (queue_ready (record st.session { send_buf = b }) (txn_byte txn)).send_buf in
      let (same, pos) = settle-sends txn shard conn st b' e in
      (
        ap (λ m. m.bytes) same
            ∙ rw (bytes-put_bytes, bytes-write_ready_for_query (init 16) (txn_byte txn), queued)
                (append_assoc st.session.send_buf.bytes text (frame b'Z' (txn_byte txn ∷ []))),
        pos,
        refl,
        refl,
        Settled-after txn shard conn e st.session st.pools (settle txn shard conn st b' e) _ refl
            refl refl refl (settle-Settled txn shard conn st b' e),
      )

  pub read_backend_all :
      (fuel conn : ℕ) (results : List PgResult) (st : State pq) (e : pq.Env)
      → length results < fuel
      → Yields st.env conn results e
      → AllPlain results
      → (st' : State pq) × (read_backend pq fuel conn st ≡ some st')
        × Ready (reply results (pq.transaction_status e conn)) conn e st.session st.pools st'
  unfolding read_backend
  read_backend_all fuel conn results st e enough yields plain =
      let (s', read, only, queued) =
        get_results_all fuel conn results false st e enough yields plain in
      let st₁ : State pq = record st {
        session = record st.session { send_buf = s'.send_buf };
        env = e;
      } in
      (
        finish_query pq conn st₁,
        rw read (ap (λ s. some (finish_query pq conn (record st { session = s; env = e }))) only),
        finish_query-Ready conn st s'.send_buf e (answers_text false results) queued,
      )
