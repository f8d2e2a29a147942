-- ===== src/Session/Send/Broken.antt =====
-- `session_send` reports -1 only where the last call of `send` has failed with an error other than EAGAIN.
use sharegres.Base.{
  ℕ, zero, suc, ◌+◌, ◌-◌, ◌≡◌, refl, Bool-cases, inl, inr, Option, none, some, ltb,
}
use sharegres.Base.Bytes.{Bytes}
use sharegres.MsgBuf
use sharegres.Session.Send.Wire.{SendResult-cases}
use sharegres.Session.Send.{
  SendResult, error, SendStatus, sent, blocked, broken, unsent, send_loop, session_send,
}
use sharegres.Session.{ClientSession}

module _ (Net : Type 0) (send : Net → Bytes → SendResult × Net) where
  -- The call of `send` that was given these bytes failed and left the socket as it is.
  abbrev pub Failed : Bytes → Net → Type 0
  Failed bytes w' = (w : Net) × ((send w bytes).0 ≡ error) × (w' ≡ (send w bytes).1)

  abbrev pub FailedIf : SendStatus → ClientSession → Net → Type 0
  FailedIf sent s w = Unit {0}
  FailedIf blocked s w = Unit {0}
  FailedIf broken s w = Failed (unsent s) w

  abbrev pub BrokenOnly : Option (SendStatus × ClientSession × Net) → Type 0
  BrokenOnly none = Unit {0}
  BrokenOnly (some (status, s, w)) = FailedIf status s w

  send_loop-BrokenOnly :
      (fuel : ℕ) (s : ClientSession) (w : Net) → BrokenOnly (send_loop Net send fuel s w)
  unfolding send_loop
  send_loop-BrokenOnly zero s w = tt
  send_loop-BrokenOnly (suc fuel) s w = elim (Bool-cases (ltb s.send_pos (MsgBuf.len s.send_buf))) [
    | inr all ↦ rw (all, send_loop) tt
    | inl more ↦ elim (SendResult-cases (send w (unsent s)).0) [
      | inl (n, e) ↦
          rw (more, e)
            (send_loop-BrokenOnly fuel (record s { send_pos = s.send_pos + n })
              (send w (unsent s)).1)
      | inr (inl e) ↦ rw (more, e) tt
      | inr (inr e) ↦ rw (more, e) (w, e, refl)
    ]
  ]

  pub session_send-BrokenOnly :
      (s : ClientSession) (w : Net) → BrokenOnly (session_send Net send s w)
  unfolding session_send
  session_send-BrokenOnly s w = send_loop-BrokenOnly (MsgBuf.len s.send_buf - s.send_pos + 1) s w
