-- ===== src/FeProtocol/Reply.antt =====
-- What the frontend code queues for the client, as frames of the protocol.
use sharegres.Base.{ℕ, ◌≡◌, ◌∙◌, List, [], ◌∷◌, ◌++◌, append_assoc, append-nil}
use sharegres.Base.Bytes.{Bytes, codes}
use sharegres.FeProtocol.Query.{answer_local}
use sharegres.FeProtocol.Startup.{send_startup_response, write_params}
use sharegres.FeProtocol.{report}
use sharegres.Message.Frames.{
  Backend, auth_ok, param_status, backend_key, ready_for_query, error, command_complete, frame,
  type_of, payload_of, write, bytes-write,
}
use sharegres.MsgBuf.Content.{bytes-put_bytes}
use sharegres.MsgBuf.{MsgBuf, init}
use sharegres.Session.{ClientSession, send_error, queue_ready, queue_command_complete, queue_send}

-- The messages one after the other.
abbrev pub stream : List Backend → Bytes
stream [] = []
stream (m ∷ ms) = frame (type_of m) (payload_of m) ++ stream ms

abbrev pub queued : ClientSession → Bytes
queued s = s.send_buf.bytes

stream-cons :
    (xs : Bytes) (m : Backend) (ms : List Backend)
    → (xs ++ stream (m ∷ [])) ++ stream ms ≡ xs ++ stream (m ∷ ms)
stream-cons xs m ms = rw append-nil (append_assoc xs (frame (type_of m) (payload_of m)) (stream ms))

-- Written one after the other.
abbrev write_all : MsgBuf → List Backend → MsgBuf
write_all b [] = b
write_all b (m ∷ ms) = write_all (write b m) ms

bytes-write_all : (b : MsgBuf) (ms : List Backend) → (write_all b ms).bytes ≡ b.bytes ++ stream ms
bytes-write_all b [] = rw append-nil
bytes-write_all b (m ∷ ms) =
    rw (bytes-write_all (write b m) ms, bytes-write b m)
      (append_assoc b.bytes (frame (type_of m) (payload_of m)) (stream ms))

-- A message built in a buffer of its own and queued.
bytes-queue_send :
    (s : ClientSession) (cap : ℕ) (m : Backend)
    → queued (queue_send s (write (init cap) m).bytes) ≡ queued s ++ stream (m ∷ [])
unfolding queue_send init
bytes-queue_send s cap m = rw (bytes-put_bytes, bytes-write (init cap) m, append-nil)

-- The messages of a login.
abbrev pub greeting : ℕ → ℕ → List Backend
greeting pid secret_key =
    auth_ok
    ∷ param_status (codes "server_version") (codes "16.0 (Sharegres)")
    ∷ param_status (codes "server_encoding") (codes "UTF8")
    ∷ param_status (codes "client_encoding") (codes "UTF8")
    ∷ param_status (codes "is_superuser") (codes "off")
    ∷ param_status (codes "DateStyle") (codes "ISO, MDY")
    ∷ param_status (codes "integer_datetimes") (codes "on")
    ∷ param_status (codes "standard_conforming_strings") (codes "on")
    ∷ backend_key pid secret_key
    ∷ ready_for_query b'I'
    ∷ []

-- The startup response appends to the session's send buffer an AuthenticationOk, seven ParameterStatus
-- messages, the session's BackendKeyData and a ReadyForQuery of an idle session, in this order and
-- framed as the protocol prescribes.
pub bytes-send_startup_response :
    (s : ClientSession)
    → queued (send_startup_response s) ≡ queued s ++ stream (greeting s.pid s.secret_key)
unfolding send_startup_response write_params
bytes-send_startup_response s = bytes-write_all s.send_buf (greeting s.pid s.secret_key)

-- An error report appends an ErrorResponse and then a ReadyForQuery of an idle session.
pub bytes-report :
    (s : ClientSession) (severity code message : Bytes)
    → queued (report s severity code message)
      ≡ queued s ++ stream (error severity code message ∷ ready_for_query b'I' ∷ [])
unfolding report send_error queue_ready
bytes-report s severity code message =
    bytes-queue_send (send_error s severity code message) 16 (ready_for_query b'I')
    ∙ rw (bytes-write s.send_buf (error severity code message)) (
        append_assoc s.send_buf.bytes (frame b'E' (payload_of (error severity code message)))
          (stream (ready_for_query b'I' ∷ [])))

-- A statement that is answered locally gets a CommandComplete with the tag SET and then a ReadyForQuery
-- of an idle session.
bytes-answer_local :
    (s : ClientSession)
    → queued (answer_local s)
      ≡ queued s ++ stream (command_complete (codes "SET") ∷ ready_for_query b'I' ∷ [])
unfolding answer_local queue_ready queue_command_complete
bytes-answer_local s =
    bytes-queue_send (queue_command_complete s (codes "SET")) 16 (ready_for_query b'I')
    ∙ rw (bytes-queue_send s 64 (command_complete (codes "SET")))
        (stream-cons (queued s) (command_complete (codes "SET")) (ready_for_query b'I' ∷ []))
