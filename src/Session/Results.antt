-- ===== src/Session/Results.antt =====
-- src/session/session.c, `session_on_backend_readable`: what one result of the backend queues for the
-- client.
pub mod Frames
use sharegres.Base.{
  ℕ, zero, suc, ◌+◌, Bool, true, false, not, List, [], ◌∷◌, ◌++◌, Option, none, some, length, take,
}
use sharegres.Base.Bytes.{Bytes, codes}
use sharegres.Base.Decimal.{decimal}
use sharegres.Libpq.{PgResult, ExecStatus}
use sharegres.Message.{begin, end}
use sharegres.Message.Codes
use sharegres.MsgBuf
use sharegres.MsgBuf.{MsgBuf, put_byte, put_int16, put_int32, put_string, put_bytes}
use sharegres.Session.Forward.{forward_result}
use sharegres.Session.{ClientSession, SessionState, queue_send, queue_command_complete}

-- Text format for each column.
unfoldable pub put_formats : MsgBuf → ℕ → MsgBuf
put_formats b zero = b
put_formats b (suc n) = put_formats (put_int16 b 0) n

-- A CopyInResponse or a CopyOutResponse.
unfoldable pub write_copy_response : MsgBuf → ℕ → ℕ → MsgBuf
unfolding put_formats begin end
write_copy_response b type nfields =
    let (b₁, off) = begin b type in
    end (put_formats (put_int16 (put_byte b₁ 0) nfields) nfields) off

-- `if (field) { ... }`
unfoldable pub put_error_field : MsgBuf → ℕ → Option Bytes → MsgBuf
put_error_field b type none = b
put_error_field b type (some value) = put_string (put_byte b type) value

unfoldable pub write_result_error : MsgBuf → PgResult → MsgBuf
unfolding put_error_field begin end
write_result_error b res =
    let (b₁, off) = begin b Codes.error_response in
    let b₂ = put_error_field (put_error_field b₁ b'S' res.severity) b'C' res.sqlstate in
    let b₃ = put_error_field (put_error_field b₂ b'M' res.primary) b'D' res.detail in
    end (put_byte b₃ 0) off

-- The tag in a buffer of 128 bytes: the command status, or else the number of rows.
unfoldable pub command_tag : Bytes → ℕ → Bytes
unfolding decimal
command_tag [] rows = codes "SELECT " ++ decimal rows
command_tag (c ∷ cs) rows = take 127 (c ∷ cs)

-- Where the loop over the results goes on: with the next result, or out of it.
pub data Reading : Type 0 where
  next_result all_read copy_in_begun copy_out_begun : Reading

-- The case of a status: what the loop does, whether a header was sent, and the session.
unfoldable pub answer_at :
    ExecStatus → Bool → PgResult → ClientSession → Reading × Bool × ClientSession
unfolding forward_result queue_command_complete command_tag queue_send write_copy_response
    write_result_error
answer_at ExecStatus.tuples_ok header_sent res s =
    let (rows, s') = forward_result s res (not header_sent) in
    (next_result, true, queue_command_complete s' (command_tag res.cmd_status rows))
answer_at ExecStatus.single_tuple header_sent res s =
    let (rows, s') = forward_result s res (not header_sent) in (next_result, true, s')
answer_at ExecStatus.command_ok header_sent res s =
    (next_result, header_sent, queue_command_complete s res.cmd_status)
answer_at ExecStatus.copy_in header_sent res s = (
  copy_in_begun,
  header_sent,
  record (queue_send s
      (write_copy_response (MsgBuf.init 32) Codes.copy_in_resp (length res.fields)).bytes) {
        state = SessionState.copy_in;
      },
)
answer_at ExecStatus.copy_out header_sent res s = (
  copy_out_begun,
  header_sent,
  record (queue_send s
      (write_copy_response (MsgBuf.init 32) Codes.copy_out_resp (length res.fields)).bytes) {
        state = SessionState.copy_out;
      },
)
answer_at ExecStatus.fatal_error header_sent res s =
    (next_result, header_sent, queue_send s (write_result_error (MsgBuf.init 256) res).bytes)
answer_at ExecStatus.other header_sent res s = (next_result, header_sent, s)

unfoldable pub answer_result : Bool → PgResult → ClientSession → Reading × Bool × ClientSession
unfolding answer_at
answer_result header_sent res s = answer_at res.status header_sent res s

-- A CopyData message, and the CopyDone behind the last.
unfoldable pub queue_copy_data : ClientSession → Bytes → ClientSession
unfolding queue_send
queue_copy_data s row =
    let typed = put_byte (MsgBuf.init (length row + 8)) Codes.copy_data in
    queue_send s (put_bytes (put_int32 typed (length row + 4)) row).bytes

unfoldable pub queue_copy_done : ClientSession → ClientSession
unfolding queue_send
queue_copy_done s = queue_send s (put_int32 (put_byte (MsgBuf.init 8) Codes.copy_done) 4).bytes
