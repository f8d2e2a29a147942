-- ===== src/Session/Send/Rest.antt =====
-- `session_send` leaves all of the session but the send buffer, the position in it, and the events of
-- the client's socket.
use sharegres.Base.{
  ℕ, zero, suc, ◌+◌, ◌-◌, ◌≡◌, refl, Bool-cases, inl, inr, Option, none, some, ltb,
}
use sharegres.Base.Bytes.{Bytes}
use sharegres.MsgBuf
use sharegres.MsgBuf.{reset}
use sharegres.Session.Send.Wire.{SendResult-cases}
use sharegres.Session.Send.{SendResult, SendStatus, unsent, send_loop, session_send}
use sharegres.Session.{ClientSession}

abbrev pub OnlySent : ClientSession → ClientSession → Type 0
OnlySent s s' =
    s'
    ≡ record s { send_buf = s'.send_buf; send_pos = s'.send_pos; client_events = s'.client_events }

module _ (Net : Type 0) (send : Net → Bytes → SendResult × Net) where
  abbrev pub Rest : ClientSession → Option (SendStatus × ClientSession × Net) → Type 0
  Rest s none = Unit
  Rest s (some (_, s', _)) = OnlySent s s'

  send_loop-Rest : (fuel : ℕ) (s : ClientSession) (w : Net) → Rest s (send_loop Net send fuel s w)
  unfolding send_loop
  send_loop-Rest zero s w = tt
  send_loop-Rest (suc fuel) s w = elim (Bool-cases (ltb s.send_pos (MsgBuf.len s.send_buf))) [
    | inr all ↦ rw all refl
    | inl more ↦ elim (SendResult-cases (send w (unsent s)).0) [
      | inl (n, e) ↦
          rw (more, e)
            (send_loop-Rest fuel (record s { send_pos = s.send_pos + n }) (send w (unsent s)).1)
      | inr (inl e) ↦ rw (more, e) refl
      | inr (inr e) ↦ rw (more, e) refl
    ]
  ]

  pub session_send-Rest : (s : ClientSession) (w : Net) → Rest s (session_send Net send s w)
  unfolding session_send
  session_send-Rest s w = send_loop-Rest (MsgBuf.len s.send_buf - s.send_pos + 1) s w
