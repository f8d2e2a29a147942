-- ===== src/FeProtocol/Login.antt =====
-- src/protocol/fe_protocol.c, `handle_startup_message`, on a startup packet as the protocol writes it.
use sharegres.Base.{
  ℕ, zero, suc, ltb, ◌+◌, ◌*◌, ◌/◌, ◌<◌, ◌≡◌, ◌∙◌, refl, arith, Bool-cases, inl, inr, true, false,
  List, [], ◌∷◌, ◌++◌, Option, some, length, length-append, drop, All, append_assoc, leb, ◌==◌,
  if◌then◌else◌,
}
use sharegres.Base.Bytes.{Bytes, codes, equal, equal_iff}
use sharegres.FeProtocol.Reply.{queued, stream, greeting, bytes-send_startup_response}
use sharegres.FeProtocol.Startup.{
  read_params, set_param, or_else, default_names, log_in, startup_version, handle_startup_message,
  consumed, send_startup_response,
}
use sharegres.Message.Codes
use sharegres.Message.Frames.{cstring}
use sharegres.MsgBuf.{htonl, ntohl, c_string}
use sharegres.MsgBuf.Words.{c_string-append, drop-add-length, ntohl-htonl}
use sharegres.Session.Receive.{RecvBuf, consume}
use sharegres.Session.{ClientSession, SessionState}

-- The parameters of a startup packet, and the byte behind the last.
abbrev pub params_text : List (Bytes × Bytes) → Bytes
params_text [] = 0 ∷ []
params_text ((k, v) ∷ ps) = cstring k ++ (cstring v ++ params_text ps)

-- A name that is not empty, and a name and a value without zero bytes.
abbrev pub IsParam : Bytes × Bytes → Type 0
IsParam (k, v) = (0 < length k) × All (λ c. 0 < c) k × All (λ c. 0 < c) v

-- The last value of a parameter, or what was known before.
abbrev pub last_of : Bytes → List (Bytes × Bytes) → Option Bytes → Option Bytes
last_of name [] before = before
last_of name ((k, v) ∷ ps) before = last_of name ps (if equal k name then some v else before)

abbrev set_params : List (Bytes × Bytes) → ClientSession → ClientSession
set_params [] s = s
set_params ((k, v) ∷ ps) s = set_params ps (set_param k v s)

set_params-last_of :
    (ps : List (Bytes × Bytes)) (s : ClientSession)
    → set_params ps s ≡ record s {
      user = last_of (codes "user") ps s.user;
      database = last_of (codes "database") ps s.database;
    }
set_params-last_of [] s = refl
set_params-last_of ((k, v) ∷ ps) s = elim (Bool-cases (equal k (codes "user"))) [
  | inl u ↦
      let is_user : k ≡ codes "user" = (equal_iff k (codes "user")).0 u in
      let d : equal k (codes "database") ≡ false = rw is_user (unfold equal in refl) in
      rw (u, d) (set_params-last_of ps (record s { user = some v }))
  | inr u ↦ elim (Bool-cases (equal k (codes "database"))) [
    | inl d ↦ rw (u, d) (set_params-last_of ps (record s { database = some v }))
    | inr d ↦ rw (u, d) (set_params-last_of ps s)
  ]
]

c_string-cstring : (s rest : Bytes) → All (λ c. 0 < c) s → c_string (cstring s ++ rest) ≡ some s
c_string-cstring s rest h = rw append_assoc (c_string-append s rest h)

read_params-text :
    (fuel : ℕ) (bytes rest : Bytes) (msg_len pos : ℕ) (s : ClientSession)
    (ps : List (Bytes × Bytes))
    → drop pos bytes ≡ params_text ps ++ rest
    → pos + length (params_text ps) ≡ msg_len
    → All IsParam ps
    → length ps < fuel
    → read_params fuel bytes msg_len pos s ≡ some (set_params ps s)
unfolding read_params
read_params-text zero bytes rest msg_len pos s ps at end h more = ground arith
read_params-text (suc fuel) bytes rest msg_len pos s [] at end h more =
    let more_text : leb msg_len pos ≡ false = ground arith in
    let no_name : c_string (drop pos bytes) ≡ some [] = rw at (unfold c_string in refl) in
    rw (more_text, no_name)
read_params-text (suc fuel) bytes rest msg_len pos s ((k, v) ∷ ps) at end h more =
    let tail = params_text ps ++ rest in
    let from_key : drop pos bytes ≡ cstring k ++ (cstring v ++ tail) = at ∙ simp append_assoc in
    let size_k : length (cstring k) ≡ length k + 1 = length-append k (0 ∷ []) in
    let size_v : length (cstring v) ≡ length v + 1 = length-append v (0 ∷ []) in
    let from_value : drop (pos + (length k + 1)) bytes ≡ cstring v ++ tail =
      rw (← size_k) (drop-add-length pos bytes (cstring k) _ from_key) in
    let from_next : drop (pos + (length k + 1) + (length v + 1)) bytes ≡ tail =
      rw (← size_v) (drop-add-length (pos + (length k + 1)) bytes (cstring v) _ from_value) in
    let sizes : length (params_text ((k, v) ∷ ps))
        ≡ length k + 1 + (length v + 1 + length (params_text ps)) =
      omega (
        arith,
        size_k,
        size_v,
        length-append (cstring k) (cstring v ++ params_text ps),
        length-append (cstring v) (params_text ps),
      ) in
    let more_text : leb msg_len pos ≡ false = ground (arith, sizes, end) in
    let more_value : leb msg_len (pos + (length k + 1)) ≡ false = ground (arith, sizes, end) in
    let named : (length k == 0) ≡ false = ground (arith, h.0.0) in
    let name : c_string (drop pos bytes) ≡ some k = rw from_key (c_string-cstring k _ h.0.1) in
    let value : c_string (drop (pos + (length k + 1)) bytes) ≡ some v =
      rw from_value (c_string-cstring v _ h.0.2) in
    rw (more_text, name, named, more_value, value)
      (read_params-text fuel bytes rest msg_len (pos + (length k + 1) + (length v + 1))
        (set_param k v s) ps from_next (omega (arith, sizes, end)) h.1 (omega (arith, more)))

-- The buffer begins with a startup packet of protocol 3 and of the given minor version.
pub record HoldsStartup (rb : RecvBuf) (minor : ℕ) (ps : List (Bytes × Bytes)) (rest : Bytes)
    : Type 0 where
  pub bytes_are :
      rb.bytes
      ≡ htonl (8 + length (params_text ps))
        ++ (htonl (3 * 65536 + minor) ++ (params_text ps ++ rest))
  pub is_minor : minor < 65536
  pub are_params : All IsParam ps

-- The session after a login.
pub record LoggedIn (before : ClientSession) (ps : List (Bytes × Bytes)) (s : ClientSession)
    : Type 0 where
  pub is_ready : s.state ≡ SessionState.ready
  pub user_is : s.user ≡ some (or_else (last_of (codes "user") ps before.user) (codes "unknown"))
  pub database_is :
      s.database
      ≡ some (
          or_else
            (last_of (codes "database") ps before.database)
            (or_else (last_of (codes "user") ps before.user) (codes "unknown")))
  pub taken_out : s.recv_buf ≡ consume (8 + length (params_text ps)) before.recv_buf
  pub greeted : queued s ≡ queued before ++ stream (greeting before.pid before.secret_key)
  pub pos_kept : s.send_pos ≡ before.send_pos

length-params_text : (ps : List (Bytes × Bytes)) → length ps < length (params_text ps)
length-params_text [] = omega arith
length-params_text ((k, v) ∷ ps) = omega (
  arith,
  length-params_text ps,
  length-append k (0 ∷ []),
  length-append v (0 ∷ []),
  length-append (cstring k) (cstring v ++ params_text ps),
  length-append (cstring v) (params_text ps),
)

-- The session that a login leaves, from the session with the names of the packet.
abbrev after_login : ℕ → ClientSession → ClientSession
after_login msg_len named =
    record (send_startup_response (consumed msg_len (default_names named))) {
      state = SessionState.ready;
    }

after_login-LoggedIn :
    (s : ClientSession) (ps : List (Bytes × Bytes))
    → LoggedIn s ps (after_login (8 + length (params_text ps)) (set_params ps s))
unfolding send_startup_response
after_login-LoggedIn s ps = rw (set_params-last_of ps s) (record {
  is_ready = refl;
  user_is = refl;
  database_is = refl;
  taken_out = refl;
  pos_kept = refl;
  greeted = bytes-send_startup_response (
      consumed (8 + length (params_text ps)) (
        default_names (record s {
          user = last_of (codes "user") ps s.user;
          database = last_of (codes "database") ps s.database;
        })));
})

-- A startup packet of protocol 3, as the protocol writes it, logs the client in, whatever else is in the
-- buffer: the session is ready, the packet is taken out of the buffer, and the client is sent the
-- startup response. The user is the last one named by the packet, or else "unknown"; the database is
-- the last one named, or else the user.
pub handle_startup_message-LoggedIn :
    (s : ClientSession) (minor : ℕ) (ps : List (Bytes × Bytes)) (rest : Bytes)
    → HoldsStartup s.recv_buf minor ps rest
    → (s' : ClientSession) × (handle_startup_message (8 + length (params_text ps)) s
        ≡ some (true, s'))
      × LoggedIn s ps s'
unfolding handle_startup_message startup_version log_in htonl
handle_startup_message-LoggedIn s minor ps rest h =
    let size = 8 + length (params_text ps) in
    let behind : drop 8 s.recv_buf.bytes ≡ params_text ps ++ rest = rw h.bytes_are in
    let word : ntohl (drop 4 s.recv_buf.bytes) ≡ some (3 * 65536 + minor) =
      rw h.bytes_are
        (ntohl-htonl (3 * 65536 + minor) (params_text ps ++ rest) (omega (arith, h.is_minor))) in
    let no_ssl : ((3 * 65536 + minor) == Codes.pg_ssl_request) ≡ false =
      ground (arith, h.is_minor) in
    let no_cancel : ((3 * 65536 + minor) == Codes.pg_cancel_request) ≡ false =
      ground (arith, h.is_minor) in
    let major : ((3 * 65536 + minor) / 65536 == Codes.pg_protocol_major) ≡ true =
      ground (arith, h.is_minor) in
    let large : ltb size 8 ≡ false = ground arith in
    let params : read_params size s.recv_buf.bytes size 8 s ≡ some (set_params ps s) =
      read_params-text size s.recv_buf.bytes rest size 8 s ps behind refl h.are_params
        (omega (arith, length-params_text ps)) in
    (
      after_login size (set_params ps s),
      rw (large, word, no_ssl, no_cancel, major, params),
      after_login-LoggedIn s ps,
    )
