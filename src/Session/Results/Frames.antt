-- ===== src/Session/Results/Frames.antt =====
-- What the answer to one result of the backend adds to the send buffer, and that it leaves the rest of
-- the session.
use sharegres.Base.{
  ℕ, zero, suc, ◌≡◌, ◌∙◌, refl, ap, arith, Bool, true, false, not, List, [], ◌∷◌, ◌++◌, Option,
  none, some, length, append_assoc, append-nil,
}
use sharegres.Base.Bytes.{Bytes}
use sharegres.Libpq.{Field, PgResult, ExecStatus}
use sharegres.Message.Frames.{frame, cstring, end-begin, bytes-write_command_complete}
use sharegres.Message.{begin, write_command_complete}
use sharegres.MsgBuf.Content.{contents, bytes-put_bytes, bytes-put_byte}
use sharegres.MsgBuf.{MsgBuf, htons, init, put_byte, put_int16, reset}
use sharegres.Session.Forward.Rows.{bytes-forward_result, header_text, rows_text}
use sharegres.Session.Forward.{write_data_row, forward_rows, forward_header, forward_result}
use sharegres.Session.Results.{
  put_formats, write_copy_response, put_error_field, write_result_error, command_tag, next_result,
  answer_at, answer_result,
}
use sharegres.Session.{ClientSession, queue_send, queue_command_complete}

abbrev queued : ClientSession → Bytes
queued s = s.send_buf.bytes

-- One zero word for each column.
abbrev pub formats : ℕ → Bytes
formats zero = []
formats (suc n) = htons 0 ++ formats n

abbrev pub error_field : ℕ → Option Bytes → Bytes
error_field type none = []
error_field type (some value) = type ∷ cstring value

abbrev pub copy_payload : ℕ → Bytes
copy_payload nfields = 0 ∷ (htons nfields ++ formats nfields)

abbrev pub result_error_payload : PgResult → Bytes
result_error_payload res =
    error_field b'S' res.severity
    ++ (error_field b'C' res.sqlstate
        ++ (error_field b'M' res.primary ++ (error_field b'D' res.detail ++ 0 ∷ [])))

-- The frames that a result is answered with.
abbrev pub answer_text : ExecStatus → Bool → PgResult → Bytes
answer_text ExecStatus.tuples_ok header_sent res =
    header_text (not header_sent) res.fields
    ++ (rows_text (length res.fields) res.rows
        ++ frame b'C' (cstring (command_tag res.cmd_status (length res.rows))))
answer_text ExecStatus.single_tuple header_sent res =
    header_text (not header_sent) res.fields ++ rows_text (length res.fields) res.rows
answer_text ExecStatus.command_ok header_sent res = frame b'C' (cstring res.cmd_status)
answer_text ExecStatus.copy_in header_sent res = frame b'G' (copy_payload (length res.fields))
answer_text ExecStatus.copy_out header_sent res = frame b'H' (copy_payload (length res.fields))
answer_text ExecStatus.fatal_error header_sent res = frame b'E' (result_error_payload res)
answer_text ExecStatus.other header_sent res = []

bytes-put_formats : (b : MsgBuf) (n : ℕ) → (put_formats b n).bytes ≡ b.bytes ++ formats n
unfolding put_formats
bytes-put_formats b zero = rw append-nil
bytes-put_formats b (suc n) =
    bytes-put_formats (put_int16 b 0) n ∙ simp contents (append_assoc b.bytes (htons 0) (formats n))

bytes-write_copy_response :
    (b : MsgBuf) (type nfields : ℕ)
    → (write_copy_response b type nfields).bytes ≡ b.bytes ++ frame type (copy_payload nfields)
unfolding write_copy_response
bytes-write_copy_response b type nfields =
    let b₁ = put_int16 (put_byte (begin b type).0 0) nfields in
    end-begin b (put_formats b₁ nfields) type (copy_payload nfields)
      (bytes-put_formats b₁ nfields ∙ simp contents (simp append_assoc))

bytes-put_error_field :
    (b : MsgBuf) (type : ℕ) (value : Option Bytes)
    → (put_error_field b type value).bytes ≡ b.bytes ++ error_field type value
unfolding put_error_field
bytes-put_error_field b type none = rw append-nil
bytes-put_error_field b type (some value) = simp contents (simp append_assoc)

bytes-write_result_error :
    (b : MsgBuf) (res : PgResult)
    → (write_result_error b res).bytes ≡ b.bytes ++ frame b'E' (result_error_payload res)
unfolding write_result_error
bytes-write_result_error b res =
    let b₁ = put_error_field (begin b b'E').0 b'S' res.severity in
    let b₂ = put_error_field (put_error_field b₁ b'C' res.sqlstate) b'M' res.primary in
    end-begin b (put_byte (put_error_field b₂ b'D' res.detail) 0) _ (result_error_payload res)
      (simp (bytes-put_byte, bytes-put_error_field) (simp append_assoc))

-- A message built in an empty buffer and queued.
bytes-queue_send :
    (s : ClientSession) (b : MsgBuf) (text : Bytes)
    → b.bytes ≡ text
    → queued (queue_send s b.bytes) ≡ queued s ++ text
unfolding queue_send
bytes-queue_send s b text e = rw (bytes-put_bytes s.send_buf b.bytes, e)

pub bytes-queue_command_complete :
    (s : ClientSession) (tag : Bytes)
    → queued (queue_command_complete s tag) ≡ queued s ++ frame b'C' (cstring tag)
unfolding queue_command_complete init
bytes-queue_command_complete s tag =
    bytes-queue_send s (write_command_complete (init 64) tag) (frame b'C' (cstring tag))
      (bytes-write_command_complete (init 64) tag)

bytes-answer_at :
    (status : ExecStatus) (header_sent : Bool) (res : PgResult) (s : ClientSession)
    → queued (answer_at status header_sent res s).2 ≡ queued s ++ answer_text status header_sent res
unfolding answer_at init
bytes-answer_at ExecStatus.tuples_ok header_sent res s =
    let s' = (forward_result s res (not header_sent)).1 in
    bytes-queue_command_complete s' (command_tag res.cmd_status (length res.rows))
    ∙ rw ((bytes-forward_result s res (not header_sent)).1) (simp append_assoc)
bytes-answer_at ExecStatus.single_tuple header_sent res s =
    (bytes-forward_result s res (not header_sent)).1
bytes-answer_at ExecStatus.command_ok header_sent res s =
    bytes-queue_command_complete s res.cmd_status
bytes-answer_at ExecStatus.copy_in header_sent res s =
    bytes-queue_send s (write_copy_response (init 32) b'G' (length res.fields))
      (frame b'G' (copy_payload (length res.fields)))
      (bytes-write_copy_response (init 32) b'G' (length res.fields))
bytes-answer_at ExecStatus.copy_out header_sent res s =
    bytes-queue_send s (write_copy_response (init 32) b'H' (length res.fields))
      (frame b'H' (copy_payload (length res.fields)))
      (bytes-write_copy_response (init 32) b'H' (length res.fields))
bytes-answer_at ExecStatus.fatal_error header_sent res s =
    bytes-queue_send s (write_result_error (init 256) res) (frame b'E' (result_error_payload res))
      (bytes-write_result_error (init 256) res)
bytes-answer_at ExecStatus.other header_sent res s = rw append-nil

-- A result of the backend is answered by these frames, behind what is queued: its rows, behind a
-- RowDescription if none was sent before, and a CommandComplete if they are the last; a
-- CommandComplete with the backend's tag; a CopyInResponse or a CopyOutResponse in text format for
-- every column; an ErrorResponse with those of severity, SQLSTATE, primary message and detail that
-- the result has; and nothing for any other status.
pub bytes-answer_result :
    (header_sent : Bool) (res : PgResult) (s : ClientSession)
    → (answer_result header_sent res s).2.send_buf.bytes
      ≡ s.send_buf.bytes ++ answer_text res.status header_sent res
unfolding answer_result
bytes-answer_result header_sent res s = bytes-answer_at res.status header_sent res s

-- Only the send buffer differs.
abbrev pub OnlyQueued : ClientSession → ClientSession → Type 0
OnlyQueued s s' = s' ≡ record s { send_buf = s'.send_buf }

forward_rows-OnlyQueued :
    (msg : MsgBuf) (nfields : ℕ) (rows : List (List (Option Bytes))) (s : ClientSession)
    → OnlyQueued s (forward_rows msg nfields rows s)
unfolding forward_rows queue_send
forward_rows-OnlyQueued msg nfields [] s = refl
forward_rows-OnlyQueued msg nfields (row ∷ rows) s =
    let msg' = write_data_row (reset msg) nfields row in
    forward_rows-OnlyQueued msg' nfields rows (queue_send s msg'.bytes)

forward_header-OnlyQueued :
    (send_header : Bool) (msg : MsgBuf) (fields : List Field) (s : ClientSession)
    → OnlyQueued s (forward_header send_header msg fields s).1
unfolding forward_header queue_send
forward_header-OnlyQueued false msg fields s = refl
forward_header-OnlyQueued true msg [] s = ground arith
forward_header-OnlyQueued true msg (f ∷ fs) s = ground arith

pub OnlyQueued-trans :
    (s s₁ s₂ : ClientSession) → OnlyQueued s s₁ → OnlyQueued s₁ s₂ → OnlyQueued s s₂
OnlyQueued-trans s s₁ s₂ e₁ e₂ =
    e₂ ∙ ap {A = ClientSession} {B = ClientSession} (λ t. record t { send_buf = s₂.send_buf }) e₁

pub forward_result-OnlyQueued :
    (s : ClientSession) (res : PgResult) (send_header : Bool)
    → OnlyQueued s (forward_result s res send_header).1
unfolding forward_result
forward_result-OnlyQueued s res send_header =
    OnlyQueued-trans s _ _ (forward_header-OnlyQueued send_header (init 256) res.fields s)
      (forward_rows-OnlyQueued _ _ res.rows _)

-- A result that starts no COPY.
abbrev pub is_plain : ExecStatus → Bool
is_plain ExecStatus.copy_in = false
is_plain ExecStatus.copy_out = false
is_plain _ = true

-- Was a header sent, after a result with this status?
abbrev pub header_after : ExecStatus → Bool → Bool
header_after ExecStatus.tuples_ok header_sent = true
header_after ExecStatus.single_tuple header_sent = true
header_after _ header_sent = header_sent

answer_at-plain :
    (status : ExecStatus) (header_sent : Bool) (res : PgResult) (s : ClientSession)
    → is_plain status ≡ true
    → let (reading, h, s') = answer_at status header_sent res s in
      (reading ≡ next_result) × (h ≡ header_after status header_sent) × OnlyQueued s s'
unfolding answer_at queue_command_complete queue_send
answer_at-plain ExecStatus.tuples_ok header_sent res s plain =
    let forwarded = forward_result-OnlyQueued s res (not header_sent) in
    (refl, refl, OnlyQueued-trans s (forward_result s res (not header_sent)).1 _ forwarded refl)
answer_at-plain ExecStatus.single_tuple header_sent res s plain =
    (refl, refl, forward_result-OnlyQueued s res (not header_sent))
answer_at-plain ExecStatus.command_ok header_sent res s plain = (refl, refl, refl)
answer_at-plain ExecStatus.copy_in header_sent res s plain = cc
answer_at-plain ExecStatus.copy_out header_sent res s plain = cc
answer_at-plain ExecStatus.fatal_error header_sent res s plain = (refl, refl, refl)
answer_at-plain ExecStatus.other header_sent res s plain = (refl, refl, refl)

-- Such a result lets the loop go on, and leaves all of the session but the send buffer.
pub answer_result-plain :
    (header_sent : Bool) (res : PgResult) (s : ClientSession)
    → is_plain res.status ≡ true
    → let (reading, h, s') = answer_result header_sent res s in
      (reading ≡ next_result) × (h ≡ header_after res.status header_sent) × OnlyQueued s s'
unfolding answer_result
answer_result-plain header_sent res s plain = answer_at-plain res.status header_sent res s plain
