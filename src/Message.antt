-- ===== src/Message.antt =====
-- src/protocol/message.c: complete backend messages, a type byte and a payload behind its length.
pub mod Codes
pub mod Frames
pub mod Tests
use sharegres.Base.{ℕ, zero, ◌+◌, ◌-◌, List, [], ◌∷◌, ◌++◌, length, take, drop}
use sharegres.Base.Bytes.{Bytes, codes}
use sharegres.MsgBuf
use sharegres.MsgBuf.{MsgBuf, put_byte, put_int32, put_string, htonl}
use Codes

-- memcpy to `data + offset`
unfoldable pub write_at : Bytes → ℕ → Bytes → Bytes
write_at bytes offset new = take offset bytes ++ (new ++ drop (offset + length new) bytes)

-- The type byte and room for the length; the second part is the place of the length.
unfoldable pub begin : MsgBuf → ℕ → MsgBuf × ℕ
begin b type = let typed = put_byte b type in (put_int32 typed 0, MsgBuf.len typed)

-- The length counts itself and the payload, not the type byte.
unfoldable pub end : MsgBuf → ℕ → MsgBuf
unfolding write_at
end b len_offset = record b {
  bytes = write_at b.bytes len_offset (htonl (MsgBuf.len b - len_offset));
}

unfoldable pub write_auth_ok : MsgBuf → MsgBuf
unfolding begin end
write_auth_ok b = let (b₁, off) = begin b Codes.auth_request in end (put_int32 b₁ Codes.auth_ok) off

unfoldable pub write_param_status : MsgBuf → Bytes → Bytes → MsgBuf
unfolding begin end
write_param_status b name value =
    let (b₁, off) = begin b Codes.param_status in end (put_string (put_string b₁ name) value) off

unfoldable pub write_backend_key : MsgBuf → ℕ → ℕ → MsgBuf
unfolding begin end
write_backend_key b pid key =
    let (b₁, off) = begin b Codes.backend_key in end (put_int32 (put_int32 b₁ pid) key) off

unfoldable pub write_ready_for_query : MsgBuf → ℕ → MsgBuf
unfolding begin end
write_ready_for_query b txn_status =
    let (b₁, off) = begin b Codes.ready_for_query in end (put_byte b₁ txn_status) off

unfoldable pub write_error : MsgBuf → Bytes → Bytes → Bytes → MsgBuf
unfolding begin end
write_error b severity code message =
    let (b₁, off) = begin b Codes.error_response in
    let b₂ = put_string (put_byte b₁ b'S') severity in
    let b₃ = put_string (put_byte b₂ b'C') code in
    let b₄ = put_string (put_byte b₃ b'M') message in end (put_byte b₄ 0) off

unfoldable pub write_command_complete : MsgBuf → Bytes → MsgBuf
unfolding begin end
write_command_complete b tag =
    let (b₁, off) = begin b Codes.cmd_complete in end (put_string b₁ tag) off
