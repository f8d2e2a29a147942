-- ===== src/Session/Send.antt =====
-- src/session/session.c: `session_send`, over a socket that is a parameter: `send` gets the bytes from
-- `send_pos` on.
pub mod Wire
pub mod Rest
pub mod Broken
use sharegres.Base.{
  ℕ, zero, suc, ◌+◌, ◌-◌, Bool, true, false, List, [], ◌∷◌, Option, none, some, drop, ltb,
  if◌then◌else◌,
}
use sharegres.Base.Bytes.{Bytes}
use sharegres.MsgBuf
use sharegres.MsgBuf.{reset}
use sharegres.Session.{ClientSession, input, output}

-- What `send` returns: a number of bytes, EAGAIN or EWOULDBLOCK, or another error.
pub data SendResult : Type 0 where
  wrote : ℕ → SendResult
  would_block : SendResult
  error : SendResult

-- All is sent, or some is left and the socket is watched for room, or the return value -1.
pub data SendStatus : Type 0 where
  sent blocked broken : SendStatus

abbrev pub unsent : ClientSession → Bytes
unsent s = drop s.send_pos s.send_buf.bytes

module _ (Net : Type 0) (send : Net → Bytes → SendResult × Net) where
  abbrev pub Outcome : Type 0
  Outcome = Option (SendStatus × ClientSession × Net)

  abbrev pub after_send :
      (ClientSession → Net → Outcome) → SendResult × Net → ClientSession → Outcome
  after_send again (wrote n, w) s = again (record s { send_pos = s.send_pos + n }) w
  after_send again (would_block, w) s = some (blocked, record s { client_events = output }, w)
  after_send again (error, w) s = some (broken, s, w)

  unfoldable pub send_loop : ℕ → ClientSession → Net → Outcome
  unfolding reset
  send_loop zero s w = none
  send_loop (suc fuel) s w =
      if ltb s.send_pos (MsgBuf.len s.send_buf)
      then after_send (λ s' w'. send_loop fuel s' w') (send w (unsent s)) s
      else some
          (sent, record s { send_buf = reset s.send_buf; send_pos = 0; client_events = input }, w)

  -- A round sends a byte at least, and one more round ends the loop.
  unfoldable pub session_send : ClientSession → Net → Outcome
  unfolding send_loop
  session_send s w = send_loop (MsgBuf.len s.send_buf - s.send_pos + 1) s w
