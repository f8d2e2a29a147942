-- ===== src/Message/Frames.antt =====
-- Each writer of Message appends exactly one frame, whose length field is right.
use sharegres.Base.{
  ℕ, ◌+◌, ◌-◌, ◌≡◌, refl, ◌∙◌, ◌∷◌, [], ◌++◌, arith, length, length-append, append_assoc,
  take-append, drop-append, drop-drop,
}
use sharegres.Base.Bytes.{Bytes}
use sharegres.MsgBuf.{MsgBuf, put_byte, put_int32, put_string, htonl}
use sharegres.MsgBuf.Content.{contents}
use sharegres.Message.{
  write_at, begin, end, write_auth_ok, write_param_status, write_backend_key, write_ready_for_query,
  write_error, write_command_complete,
}
use sharegres.Message.Codes

-- A frame: the type byte, the length of what follows it, and the payload.
abbrev pub frame : ℕ → Bytes → Bytes
frame type payload = type ∷ (htonl (4 + length payload) ++ payload)

-- A string as the protocol writes it.
abbrev pub cstring : Bytes → Bytes
cstring s = s ++ 0 ∷ []

-- The fields of an error report.
abbrev pub error_payload : Bytes → Bytes → Bytes → Bytes
error_payload severity code message =
    b'S' ∷ (cstring severity ++ (b'C' ∷ (cstring code ++ (b'M' ∷ (cstring message ++ 0 ∷ [])))))

pub write_at-append :
    (pre old new rest : Bytes)
    → length old ≡ length new
    → write_at (pre ++ (old ++ rest)) (length pre) new ≡ pre ++ (new ++ rest)
unfolding write_at
write_at-append pre old new rest h =
    rw
      (
        take-append pre (old ++ rest),
        drop-drop (length pre) (length new) (pre ++ (old ++ rest)),
        drop-append pre (old ++ rest),
      )
      (rw (← h) (rw (drop-append old rest)))

-- Whatever is appended between `begin` and `end` is framed.
pub end-begin :
    (b c : MsgBuf) (type : ℕ) (payload : Bytes)
    → c.bytes ≡ (begin b type).0.bytes ++ payload
    → (end c (begin b type).1).bytes ≡ b.bytes ++ frame type payload
unfolding begin end htonl
end-begin b c type payload e =
    let pre = b.bytes ++ type ∷ [] in
    let typed : (put_byte b type).bytes ≡ pre = simp contents in
    let body : c.bytes ≡ pre ++ (htonl 0 ++ payload) = e ∙ simp contents (rw append_assoc) in
    let size : length c.bytes - length pre ≡ 4 + length payload =
      rw body (omega (arith, length-append pre (htonl 0 ++ payload))) in
    rw (typed, size, body)
      (write_at-append pre (htonl 0) (htonl (4 + length payload)) payload refl ∙ rw append_assoc)

-- The bytes of each message.
module _ (b : MsgBuf) where
  pub bytes-write_auth_ok :
      (write_auth_ok b).bytes ≡ b.bytes ++ frame Codes.auth_request (htonl Codes.auth_ok)
  unfolding write_auth_ok
  bytes-write_auth_ok =
      end-begin b (put_int32 (begin b Codes.auth_request).0 0) _ (htonl 0) (simp contents)

  pub bytes-write_param_status :
      (name value : Bytes)
      → (write_param_status b name value).bytes
        ≡ b.bytes ++ frame Codes.param_status (cstring name ++ cstring value)
  unfolding write_param_status
  bytes-write_param_status name value =
      end-begin b (put_string (put_string (begin b Codes.param_status).0 name) value) _
        (cstring name ++ cstring value) (simp contents (simp append_assoc))

  pub bytes-write_backend_key :
      (pid key : ℕ)
      → (write_backend_key b pid key).bytes
        ≡ b.bytes ++ frame Codes.backend_key (htonl pid ++ htonl key)
  unfolding write_backend_key
  bytes-write_backend_key pid key =
      end-begin b (put_int32 (put_int32 (begin b Codes.backend_key).0 pid) key) _
        (htonl pid ++ htonl key) (simp contents (simp append_assoc))

  pub bytes-write_ready_for_query :
      (txn_status : ℕ)
      → (write_ready_for_query b txn_status).bytes
        ≡ b.bytes ++ frame Codes.ready_for_query (txn_status ∷ [])
  unfolding write_ready_for_query
  bytes-write_ready_for_query txn_status =
      end-begin b (put_byte (begin b Codes.ready_for_query).0 txn_status) _ (txn_status ∷ [])
        (simp contents)

  pub bytes-write_error :
      (severity code message : Bytes)
      → (write_error b severity code message).bytes
        ≡ b.bytes ++ frame Codes.error_response (error_payload severity code message)
  unfolding write_error
  bytes-write_error severity code message =
      let b₁ = put_string (put_byte (begin b Codes.error_response).0 b'S') severity in
      let b₂ = put_string (put_byte b₁ b'C') code in
      let b₃ = put_string (put_byte b₂ b'M') message in
      end-begin b (put_byte b₃ 0) _ (error_payload severity code message)
        (simp contents (simp append_assoc))

  pub bytes-write_command_complete :
      (tag : Bytes)
      → (write_command_complete b tag).bytes ≡ b.bytes ++ frame Codes.cmd_complete (cstring tag)
  unfolding write_command_complete
  bytes-write_command_complete tag =
      end-begin b (put_string (begin b Codes.cmd_complete).0 tag) _ (cstring tag) (simp contents)

pub ruleset messages = (
  bytes-write_auth_ok, bytes-write_param_status, bytes-write_backend_key,
  bytes-write_ready_for_query, bytes-write_error, bytes-write_command_complete,
)

-- The kinds of messages that Message writes, and the writer of each.
pub data Backend : Type 0 where
  auth_ok : Backend
  param_status : Bytes → Bytes → Backend
  backend_key : ℕ → ℕ → Backend
  ready_for_query : ℕ → Backend
  error : Bytes → Bytes → Bytes → Backend
  command_complete : Bytes → Backend

abbrev pub write : MsgBuf → Backend → MsgBuf
write b auth_ok = write_auth_ok b
write b (param_status name value) = write_param_status b name value
write b (backend_key pid key) = write_backend_key b pid key
write b (ready_for_query status) = write_ready_for_query b status
write b (error severity code message) = write_error b severity code message
write b (command_complete tag) = write_command_complete b tag

-- The payload that the protocol prescribes.
abbrev pub payload_of : Backend → Bytes
payload_of auth_ok = htonl 0
payload_of (param_status name value) = cstring name ++ cstring value
payload_of (backend_key pid key) = htonl pid ++ htonl key
payload_of (ready_for_query status) = status ∷ []
payload_of (error severity code message) = error_payload severity code message
payload_of (command_complete tag) = cstring tag

abbrev pub type_of : Backend → ℕ
type_of auth_ok = b'R'
type_of (param_status _ _) = b'S'
type_of (backend_key _ _) = b'K'
type_of (ready_for_query _) = b'Z'
type_of (error _ _ _) = b'E'
type_of (command_complete _) = b'C'

-- Each of the six writers appends to any buffer one frame: the message's type byte, the big-endian
-- length of the payload plus 4, and the payload that the protocol prescribes. What the buffer held
-- before stays in front.
pub bytes-write :
    (b : MsgBuf) (m : Backend) → (write b m).bytes ≡ b.bytes ++ frame (type_of m) (payload_of m)
bytes-write b auth_ok = bytes-write_auth_ok b
bytes-write b (param_status name value) = bytes-write_param_status b name value
bytes-write b (backend_key pid key) = bytes-write_backend_key b pid key
bytes-write b (ready_for_query status) = bytes-write_ready_for_query b status
bytes-write b (error severity code message) = bytes-write_error b severity code message
bytes-write b (command_complete tag) = bytes-write_command_complete b tag
