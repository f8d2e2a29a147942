-- ===== src/FeProtocol/Startup.antt =====
-- src/protocol/fe_protocol.c: `fe_send_startup_response` and `handle_startup_message`.
use sharegres.Base.{
  ℕ, zero, suc, ◌+◌, ◌/◌, Bool, true, false, ◌||◌, List, [], ◌∷◌, Option, none, some, length, drop,
  leb, ltb, ◌==◌, if◌then◌else◌, ◌>>=◌,
}
use sharegres.Base.Bytes.{Bytes, codes, equal}
use sharegres.Message.Codes
use sharegres.Message.{write_auth_ok, write_param_status, write_backend_key, write_ready_for_query}
use sharegres.MsgBuf.{MsgBuf, c_string, ntohl}
use sharegres.Session.{ClientSession, SessionState, queue_send}
use sharegres.Session.Receive.{consume}

-- The settings that every client is told.
abbrev pub server_params : List (Bytes × Bytes)
server_params =
    (codes "server_version", codes "16.0 (Sharegres)")
    ∷ (codes "server_encoding", codes "UTF8")
    ∷ (codes "client_encoding", codes "UTF8")
    ∷ (codes "is_superuser", codes "off")
    ∷ (codes "DateStyle", codes "ISO, MDY")
    ∷ (codes "integer_datetimes", codes "on")
    ∷ (codes "standard_conforming_strings", codes "on")
    ∷ []

unfoldable pub write_params : MsgBuf → List (Bytes × Bytes) → MsgBuf
unfolding write_param_status
write_params b [] = b
write_params b ((name, value) ∷ params) = write_params (write_param_status b name value) params

unfoldable pub send_startup_response : ClientSession → ClientSession
unfolding write_params write_auth_ok write_backend_key write_ready_for_query
send_startup_response s =
    let greeted = write_params (write_auth_ok s.send_buf) server_params in
    record s {
      send_buf =
          write_ready_for_query (write_backend_key greeted s.pid s.secret_key) Codes.txn_idle;
    }

abbrev pub set_param : Bytes → Bytes → ClientSession → ClientSession
set_param key value s =
    if equal key (codes "user")
    then record s { user = some value }
    else if equal key (codes "database")
    then record s { database = some value }
    else s

-- The loop over the parameters, from `pos` on; `none` where a string has no end in the buffer. A round
-- takes two bytes at least.
unfoldable pub read_params : ℕ → Bytes → ℕ → ℕ → ClientSession → Option ClientSession
unfolding c_string equal
read_params zero bytes msg_len pos s = none
read_params (suc fuel) bytes msg_len pos s =
    if leb msg_len pos
    then some s
    else c_string (drop pos bytes) >>= λ key.
        let value_at = pos + (length key + 1) in
        if (length key == 0) || leb msg_len value_at
        then some s
        else c_string (drop value_at bytes) >>= λ value.
            read_params fuel bytes msg_len (value_at + (length value + 1)) (set_param key value s)

abbrev pub or_else : Option Bytes → Bytes → Bytes
or_else none b = b
or_else (some a) b = a

-- A user that is not named is "unknown", and a database that is not named is the user's.
abbrev pub default_names : ClientSession → ClientSession
default_names s =
    let user = or_else s.user (codes "unknown") in
    record s { user = some user; database = some (or_else s.database user) }

abbrev pub consumed : ℕ → ClientSession → ClientSession
consumed n s = record s { recv_buf = consume n s.recv_buf }

unfoldable pub log_in : ℕ → ClientSession → Option (Bool × ClientSession)
unfolding read_params send_startup_response consume
log_in msg_len s = read_params msg_len s.recv_buf.bytes msg_len 8 s >>= λ named. some (
  true,
  record (send_startup_response (consumed msg_len (default_names named))) {
    state = SessionState.ready;
  },
)

abbrev pub no_ssl : Bytes
no_ssl = b'N' ∷ []

-- By the version word behind the length.
unfoldable pub startup_version : ℕ → ℕ → ClientSession → Option (Bool × ClientSession)
unfolding log_in queue_send consume
startup_version version msg_len s =
    if version == Codes.pg_ssl_request
    then some (true, consumed msg_len (queue_send s no_ssl))
    else if version == Codes.pg_cancel_request
    then some (false, consumed msg_len s)
    else if version / 65536 == Codes.pg_protocol_major
    then log_in msg_len s
    else some (false, s)

-- The flag is false where the source returns -1.
unfoldable pub handle_startup_message : ℕ → ClientSession → Option (Bool × ClientSession)
unfolding startup_version ntohl
handle_startup_message msg_len s =
    if ltb msg_len 8
    then some (false, s)
    else ntohl (drop 4 s.recv_buf.bytes) >>= λ version. startup_version version msg_len s
