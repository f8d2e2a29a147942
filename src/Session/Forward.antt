-- ===== src/Session/Forward.antt =====
-- src/session/session.c: `session_forward_result`, which sends the rows of a result to the client.
-- A length of -1 is given by its bit pattern.
pub mod Rows
use sharegres.Base.{
  ℕ, ◌-◌, ◌^◌, Bool, true, false, ◌&&◌, List, [], ◌∷◌, Option, none, some, length, ltb,
  if◌then◌else◌,
}
use sharegres.Base.Bytes.{Bytes}
use sharegres.Libpq.{Field, PgResult}
use sharegres.Message.{begin, end}
use sharegres.Message.Codes
use sharegres.MsgBuf
use sharegres.MsgBuf.{MsgBuf, put_int16, put_int32, put_string, put_bytes, reset}
use sharegres.Session.{ClientSession, queue_send}

-- Name, table, column, type, size, modifier and format.
unfoldable pub write_field : MsgBuf → Field → MsgBuf
write_field b f =
    let b₁ = put_int16 (put_int32 (put_string b f.name) 0) 0 in
    let b₂ = put_int16 (put_int32 b₁ f.type_oid) f.size in put_int16 (put_int32 b₂ f.modifier) 0

unfoldable pub write_fields : MsgBuf → List Field → MsgBuf
unfolding write_field
write_fields b [] = b
write_fields b (f ∷ fs) = write_fields (write_field b f) fs

unfoldable pub write_row_description : MsgBuf → List Field → MsgBuf
unfolding write_fields begin end
write_row_description b fields =
    let (b₁, off) = begin b Codes.row_description in
    end (write_fields (put_int16 b₁ (length fields)) fields) off

unfoldable pub write_value : MsgBuf → Option Bytes → MsgBuf
write_value b none = put_int32 b (2 ^ 32 - 1)
write_value b (some value) = put_bytes (put_int32 b (length value)) value

unfoldable pub write_values : MsgBuf → List (Option Bytes) → MsgBuf
unfolding write_value
write_values b [] = b
write_values b (v ∷ vs) = write_values (write_value b v) vs

unfoldable pub write_data_row : MsgBuf → ℕ → List (Option Bytes) → MsgBuf
unfolding write_values begin end
write_data_row b nfields row =
    let (b₁, off) = begin b Codes.data_row in end (write_values (put_int16 b₁ nfields) row) off

-- The loop over the rows, which builds each message in the same buffer.
unfoldable pub forward_rows :
    MsgBuf → ℕ → List (List (Option Bytes)) → ClientSession → ClientSession
unfolding write_data_row queue_send reset
forward_rows msg nfields [] s = s
forward_rows msg nfields (row ∷ rows) s =
    let msg' = write_data_row (reset msg) nfields row in
    forward_rows msg' nfields rows (queue_send s msg'.bytes)

unfoldable pub forward_header : Bool → MsgBuf → List Field → ClientSession → MsgBuf × ClientSession
unfolding write_row_description queue_send
forward_header send_header msg fields s =
    if send_header && ltb 0 (length fields)
    then (let msg' = write_row_description msg fields in (msg', queue_send s msg'.bytes))
    else (msg, s)

-- The number of rows, and the session.
unfoldable pub forward_result : ClientSession → PgResult → Bool → ℕ × ClientSession
unfolding forward_header forward_rows
forward_result s res send_header =
    let (msg, s') = forward_header send_header (MsgBuf.init 256) res.fields s in
    (length res.rows, forward_rows msg (length res.fields) res.rows s')
