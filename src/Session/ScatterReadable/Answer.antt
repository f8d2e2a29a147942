-- ===== src/Session/ScatterReadable/Answer.antt =====
-- A shard's part of a scattered query, from its results to the client: `session_on_scatter_readable`
-- where the shard answers.
use sharegres.Base.{
  ℕ, suc, ◌<◌, ◌≤◌, ◌≡◌, ◌∙◌, refl, sym, ap, subst, Bool, Bool-cases, inl, inr, true, false, List,
  [], ◌++◌, Option, none, some, length, get_elem?, leb, append_assoc, if◌then◌else◌, ◌>>=◌,
}
use sharegres.Base.Bytes.{Bytes}
use sharegres.Libpq.{Libpq, PgResult}
use sharegres.MsgBuf
use sharegres.MsgBuf.{init}
use sharegres.Session.BackendReadable.Complete.{Yields}
use sharegres.Session.BackendReadable.Flush.{Flushed, flush-Flushed, unsent-queued}
use sharegres.Session.BackendReadable.{Fate, alive, destroyed, flush}
use sharegres.Session.ScatterReadable.End.{end_text, Ended, complete-Ended}
use sharegres.Session.ScatterReadable.Gather.{
  Part, parts_text, header_after_all, gather_results_all,
}
use sharegres.Session.ScatterReadable.Hangup.{length-mark_done}
use sharegres.Session.ScatterReadable.{
  mark_done, count_entry, complete, check_complete, read_part, on_scatter_readable,
}
use sharegres.Session.Send.Broken.{Failed}
use sharegres.Session.Send.Wire.{Wire}
use sharegres.Session.Send.{SendResult, unsent}
use sharegres.Session.{ClientSession, SessionState, State}

module _ (pq : Libpq) (Net : Type 0) (send : Net → Bytes → SendResult × Net)
    (wire : Wire Net send) where
  open wire use {sent_on}

  -- After a part: the query goes on with the rows in the buffer and the entry counted; or, if that was
  -- the last, the client's stream goes on with the rows and the end of the query, and the session is
  -- ready and waits for no shard, unless the socket is broken.
  abbrev pub Gathered :
      Bool → Bytes → Bool → ℕ → pq.Env → State pq → Net → Option (Fate × State pq × Net) → Type 0
  Gathered last text header i e st w none = ⊥
  Gathered false text header i e st w (some (destroyed, st', w')) = ⊥
  Gathered false text header i e st w (some (alive, st', w')) =
      (st'.session ≡ record (count_entry i st.session) {
        send_buf = st'.session.send_buf;
        scatter_header_sent = header;
      })
      × (st'.session.send_buf.bytes ≡ st.session.send_buf.bytes ++ text)
      × (st'.pools ≡ st.pools)
      × (st'.env ≡ e)
      × (w' ≡ w)
  Gathered true text header i e st w (some (destroyed, st', w')) =
      (left : Bytes) × (0 < length left)
      × (sent_on w' ++ left ≡ (sent_on w ++ unsent st.session) ++ (text ++ end_text header))
      × Failed Net send left w'
  Gathered true text header i e st w (some (alive, st', w')) =
      (sent_on w' ++ unsent st'.session
        ≡ (sent_on w ++ unsent st.session) ++ (text ++ end_text header))
      × (st'.session.state ≡ SessionState.ready)
      × (st'.session.scatter ≡ [])

  Flushed-Gathered :
      (text : Bytes) (header : Bool) (i : ℕ) (e : pq.Env) (st st' : State pq) (w : Net)
      (o : Option (Fate × State pq × Net))
      → st.session.send_pos ≤ MsgBuf.len st.session.send_buf
      → Ended pq (text ++ end_text header) st.session st'.session
      → Flushed pq Net send wire st' w o
      → Gathered true text header i e st w o
  Flushed-Gathered text header i e st st' w none within ended f = f
  Flushed-Gathered text header i e st st' w (some (alive, st₂, w')) within ended
        (d, rest, pools, env) =
      let (queued, pos, is_ready, empty) = ended in
      (
        d
            ∙ unsent-queued st.session st'.session (text ++ end_text header) (sent_on w) within
                queued pos,
        ap (λ t. t.state) rest ∙ is_ready,
        ap (λ t. t.scatter) rest ∙ empty,
      )
  Flushed-Gathered text header i e st st' w (some (destroyed, st₂, w')) within ended
        (left, some_left, d, failed) =
      let (queued, pos, is_ready, empty) = ended in
      (
        left,
        some_left,
        d
            ∙ unsent-queued st.session st'.session (text ++ end_text header) (sent_on w) within
                queued pos,
        failed,
      )

  check_complete-at :
      (st : State pq) (w : Net) (b : Bool)
      → leb (length st.session.scatter) st.session.scatter_done ≡ b
      → check_complete pq Net send st w
        ≡ (if b then flush pq Net send (complete pq st) w else some (alive, st, w))
  unfolding check_complete
  check_complete-at st w b e =
      ap (λ x. if x then flush pq Net send (complete pq st) w else some (alive, st, w)) e

  finish_entry-Gathered :
      (text : Bytes) (header : Bool) (i : ℕ) (st : State pq) (s' : ClientSession) (w : Net)
      (e : pq.Env)
      → st.session.send_pos ≤ MsgBuf.len st.session.send_buf
      → Part header text st.session s'
      → Gathered
          (leb (length st.session.scatter) (suc st.session.scatter_done))
          text
          header
          i
          e
          st
          w
          (check_complete pq Net send (record st { session = count_entry i s'; env = e }) w)
  finish_entry-Gathered text header i st s' w e within (only, flag, queued) =
      let s = st.session in
      let st₂ : State pq = record st { session = count_entry i s'; env = e } in
      let entries : length (mark_done s'.scatter i) ≡ length s.scatter =
        length-mark_done s'.scatter i ∙ ap (λ t. length t.scatter) only in
      let done : s'.scatter_done ≡ s.scatter_done = ap (λ t. t.scatter_done) only in
      let test : leb (length (mark_done s'.scatter i)) (suc s'.scatter_done)
          ≡ leb (length s.scatter) (suc s.scatter_done) =
        rw (entries, done) refl in
      elim (Bool-cases (leb (length s.scatter) (suc s.scatter_done))) [
        | inl last ↦
            let (queued', pos, is_ready, empty) = complete-Ended pq st₂ in
            rw (check_complete-at st₂ w true (test ∙ last), last)
              (Flushed-Gathered text header i e st (complete pq st₂) w
                (flush pq Net send (complete pq st₂) w) within
                (
                  queued'
                      ∙ rw (queued, flag) (append_assoc s.send_buf.bytes text (end_text header)),
                  pos ∙ ap (λ t. t.send_pos) only,
                  is_ready,
                  empty,
                )
                (flush-Flushed pq Net send wire (complete pq st₂) w))
        | inr more ↦
            rw (check_complete-at st₂ w false (test ∙ more), more)
              (
                ap (λ t. count_entry i t) only
                    ∙ ap {A = Bool} {B = ClientSession}
                        (λ h. record (count_entry i s) {
                          send_buf = s'.send_buf;
                          scatter_header_sent = h;
                        })
                        flag,
                queued,
                refl,
                refl,
                refl,
              )
      ]

  read_part-Gathered :
      (fuel i conn : ℕ) (results : List PgResult) (st : State pq) (w : Net) (e₀ e : pq.Env)
      → st.session.send_pos ≤ MsgBuf.len st.session.send_buf
      → pq.consume_input st.env conn ≡ (true, e₀)
      → pq.is_busy e₀ conn ≡ false
      → Yields pq e₀ conn results e
      → length results < fuel
      → let s = st.session in
        Gathered
          (leb (length s.scatter) (suc s.scatter_done))
          (parts_text s.scatter_header_sent results)
          (header_after_all s.scatter_header_sent results)
          i
          e
          st
          w
          (read_part pq Net send fuel i conn st w)
  unfolding read_part
  read_part-Gathered fuel i conn results st w e₀ e within consumed idle yields enough =
      let s = st.session in
      let (s', read, part) =
        gather_results_all pq fuel conn results (record st { env = e₀ }) e enough yields in
      rw (consumed, idle, read)
        (finish_entry-Gathered (parts_text s.scatter_header_sent results)
          (header_after_all s.scatter_header_sent results) i st s' w e within part)

  -- When the entry of a scattered query has a connection, `PQconsumeInput` succeeds, libpq is not busy,
  -- and it gives a list of results and then NULL, then the handler returns, given more fuel than there
  -- are results. If other entries are still to be counted, nothing is sent: the rows are queued behind
  -- what was queued before, with a RowDescription before the first result with rows of all shards, if
  -- that has columns; the entry is marked as done and counted; and nothing else of the session changes.
  -- If it is the last, the client's stream goes on with the rows, a CommandComplete, which says `SELECT`
  -- if any shard gave a result with rows, be they none, and else `SELECT 0`, and a ReadyForQuery: on the
  -- wire, or still to be sent. The session is ready and has no entries left. The session is
  -- destroyed instead only where the last call of `send` has failed, with an error that is not EAGAIN.
  -- The position in the send buffer must be within it. Other results, errors among them, add nothing.
  pub on_scatter_readable-Gathered :
      (fuel i conn : ℕ) (results : List PgResult) (st : State pq) (w : Net) (e₀ e : pq.Env)
      → (get_elem? st.session.scatter i >>= λ sc. sc.conn) ≡ some conn
      → st.session.send_pos ≤ MsgBuf.len st.session.send_buf
      → pq.consume_input st.env conn ≡ (true, e₀)
      → pq.is_busy e₀ conn ≡ false
      → Yields pq e₀ conn results e
      → length results < fuel
      → let s = st.session in
        Gathered
          (leb (length s.scatter) (suc s.scatter_done))
          (parts_text s.scatter_header_sent results)
          (header_after_all s.scatter_header_sent results)
          i
          e
          st
          w
          (on_scatter_readable pq Net send fuel false i st w)
  unfolding on_scatter_readable
  on_scatter_readable-Gathered fuel i conn results st w e₀ e has within consumed idle yields
        enough =
      let s = st.session in
      let answer : Option ℕ → Option (Fate × State pq × Net) = λ c. elim c [
        | none ↦ some (alive, st, w)
        | some conn ↦ read_part pq Net send fuel i conn st w
      ] in
      subst
        (λ c.
          Gathered (leb (length s.scatter) (suc s.scatter_done))
            (parts_text s.scatter_header_sent results)
            (header_after_all s.scatter_header_sent results) i e st w (answer c))
        (sym has)
        (read_part-Gathered fuel i conn results st w e₀ e within consumed idle yields enough)
