-- ===== src/FeProtocol/Frames.antt =====
-- How `fe_protocol_process` takes one message from the receive buffer.
use sharegres.Base.{
  ℕ, ◌+◌, ◌-◌, ◌^◌, ◌≤◌, ◌<◌, ◌≡◌, ◌++◌, some, arith, length, take, drop, append_assoc, drop-append,
  take-append, take-append-drop,
}
use sharegres.Base.Bytes.{Bytes}
use sharegres.FeProtocol.Process.{message, read_header, first_byte, total_of, max_message}
use sharegres.Message.Frames.{frame}
use sharegres.MsgBuf.{htonl, ntohl}
use sharegres.MsgBuf.Words.{ntohl-htonl}
use sharegres.Session.Receive.{RecvBuf, consume}

-- The buffer holds a complete frame, and `rest` behind it.
pub record Holds (rb : RecvBuf) (type : ℕ) (payload rest : Bytes) : Type 0 where
  pub bytes_are : rb.bytes ≡ frame type payload ++ rest
  pub received : 5 + length payload ≤ rb.len
  pub small : 5 + length payload ≤ max_message

module _ (rb : RecvBuf) (type : ℕ) (payload rest : Bytes) (h : Holds rb type payload rest) where
  pub total_of-frame : total_of (4 + length payload) ≡ 5 + length payload
  total_of-frame = omega (arith, h.small)

  pub read_header-frame : read_header rb ≡ message type (4 + length payload)
  unfolding read_header
  read_header-frame =
      let below : 4 + length payload < 2 ^ 32 = omega (arith, h.small) in
      let word : ntohl (drop 1 rb.bytes) ≡ some (4 + length payload) =
        rw h.bytes_are
          (rw append_assoc (ntohl-htonl (4 + length payload) (payload ++ rest) below)) in
      let first : first_byte rb.bytes ≡ type = rw h.bytes_are in
      rw (word, read_header, first) (ground (arith, h.small, h.received, total_of-frame))

  -- The payload stands behind the header.
  pub payload_at : drop 5 rb.bytes ≡ payload ++ rest
  unfolding htonl
  payload_at = rw h.bytes_are

-- Taking out all that was received moves nothing.
pub bytes-consume_all : (n : ℕ) (rb : RecvBuf) → rb.len ≡ n → (consume n rb).bytes ≡ rb.bytes
unfolding consume
bytes-consume_all n rb e = let zero_left : rb.len - n ≡ 0 = omega arith in rw (zero_left)

-- Taking out the first of two parts moves the second to the front.
pub bytes-consume_first :
    (n : ℕ) (rb : RecvBuf) (first second junk : Bytes)
    → n ≡ length first
    → rb.len ≡ length first + length second
    → rb.bytes ≡ first ++ (second ++ junk)
    → (consume n rb).bytes ≡ second ++ drop (length second) rb.bytes
unfolding consume
bytes-consume_first n rb first second junk at_first all e =
    let left : rb.len - n ≡ length second = omega arith in
    let moved : take (length second) (drop n rb.bytes) ≡ second =
      rw (at_first, e, drop-append first (second ++ junk)) (take-append second junk) in
    rw (left, moved)

pub consume-zero : (rb : RecvBuf) → consume 0 rb ≡ rb
unfolding consume
consume-zero rb = let left : rb.len - 0 ≡ rb.len = omega arith in rw left (rw take-append-drop)
