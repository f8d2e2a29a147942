-- ===== src/Session/ScatterReadable/End.antt =====
-- The end of a scattered query: its messages, and the session that `session_release_scatter` leaves.
use sharegres.Base.{
  ◌≡◌, ◌∙◌, refl, ap, arith, Bool, List, [], ◌∷◌, ◌++◌, append_assoc, if◌then◌else◌,
}
use sharegres.Base.Bytes.{Bytes, codes}
use sharegres.Libpq.{Libpq}
use sharegres.Message.Frames.{frame, cstring, bytes-write_ready_for_query}
use sharegres.MsgBuf.Content.{bytes-put_bytes}
use sharegres.MsgBuf.{init}
use sharegres.Session.Backend.{
  release_to, release_scatter_conn, release_scatter_conns, release_scatter,
}
use sharegres.Session.Results.Frames.{bytes-queue_command_complete}
use sharegres.Session.ScatterReadable.{queue_end, complete}
use sharegres.Session.{
  ClientSession, ScatterConn, SessionState, State, queue_ready, queue_send, queue_command_complete,
}

-- The frames that end a scattered query, by whether a shard gave rows.
abbrev pub end_text : Bool → Bytes
end_text header_sent =
    frame b'C' (cstring (if header_sent then codes "SELECT" else codes "SELECT 0"))
    ++ frame b'Z' (b'I' ∷ [])

bytes-queue_end :
    (s : ClientSession)
    → (queue_end s).send_buf.bytes ≡ s.send_buf.bytes ++ end_text s.scatter_header_sent
unfolding queue_end queue_ready queue_send init
bytes-queue_end s =
    let tag = if s.scatter_header_sent then codes "SELECT" else codes "SELECT 0" in
    bytes-put_bytes (queue_command_complete s tag).send_buf _
    ∙ rw (bytes-write_ready_for_query (init 16) b'I', bytes-queue_command_complete s tag)
        (append_assoc s.send_buf.bytes (frame b'C' (cstring tag)) (frame b'Z' (b'I' ∷ [])))

send_pos-queue_end : (s : ClientSession) → (queue_end s).send_pos ≡ s.send_pos
unfolding queue_end queue_ready queue_send queue_command_complete
send_pos-queue_end s = refl

module _ (pq : Libpq) where
  session-release_scatter_conn :
      (sc : ScatterConn) (st : State pq) → (release_scatter_conn pq sc st).session ≡ st.session
  unfolding release_scatter_conn release_to
  session-release_scatter_conn sc st = ground arith

  session-release_scatter_conns :
      (scs : List ScatterConn) (st : State pq)
      → (release_scatter_conns pq scs st).session ≡ st.session
  unfolding release_scatter_conns
  session-release_scatter_conns [] st = refl
  session-release_scatter_conns (sc ∷ scs) st =
      session-release_scatter_conns scs (release_scatter_conn pq sc st)
      ∙ session-release_scatter_conn sc st

  -- The session after the last part.
  abbrev pub Ended : Bytes → ClientSession → ClientSession → Type 0
  Ended text s s' =
      (s'.send_buf.bytes ≡ s.send_buf.bytes ++ text)
      × (s'.send_pos ≡ s.send_pos)
      × (s'.state ≡ SessionState.ready)
      × (s'.scatter ≡ [])

  pub complete-Ended :
      (st : State pq)
      → Ended (end_text st.session.scatter_header_sent) st.session (complete pq st).session
  unfolding complete release_scatter queue_end
  complete-Ended st =
      let same =
        session-release_scatter_conns st.session.scatter
          (record st { session = queue_end st.session }) in
      (
        ap (λ s. s.send_buf.bytes) same ∙ bytes-queue_end st.session,
        ap (λ s. s.send_pos) same ∙ send_pos-queue_end st.session,
        refl,
        refl,
      )
