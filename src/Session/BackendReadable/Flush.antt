-- ===== src/Session/BackendReadable/Flush.antt =====
-- What is sent at the end of a callback.
use sharegres.Base.{
  ℕ, zero, suc, ◌<◌, ◌≤◌, ◌≡◌, refl, sym, arith, [], ◌∷◌, ◌++◌, Option, none, some, length, drop,
  append_assoc, ◌>>=◌,
}
use sharegres.MsgBuf
use sharegres.Base.Bytes.{Bytes}
use sharegres.Libpq.{Libpq}
use sharegres.Session.BackendReadable.{Fate, alive, destroyed, after_flush, flush}
use sharegres.Session.Send.Broken.{Failed, BrokenOnly, session_send-BrokenOnly}
use sharegres.Session.Send.Rest.{OnlySent, Rest, session_send-Rest}
use sharegres.Session.Send.Wire.{Wire, Delivered, session_send-Delivered}
use sharegres.Session.Send.{SendResult, SendStatus, sent, blocked, broken, unsent, session_send}
use sharegres.Session.{ClientSession, State}

drop-append_within : (n : ℕ) (xs ys : Bytes) → n ≤ length xs → drop n (xs ++ ys) ≡ drop n xs ++ ys
drop-append_within zero xs ys h = refl
drop-append_within (suc n) [] ys h = ground arith
drop-append_within (suc n) (x ∷ xs) ys h = drop-append_within n xs ys (omega arith)

-- The client's stream, when text is queued.
pub unsent-queued :
    (s s' : ClientSession) (text wire : Bytes)
    → s.send_pos ≤ MsgBuf.len s.send_buf
    → s'.send_buf.bytes ≡ s.send_buf.bytes ++ text
    → s'.send_pos ≡ s.send_pos
    → wire ++ unsent s' ≡ (wire ++ unsent s) ++ text
unsent-queued s s' text wire within queued pos =
    rw (queued, pos)
      (rw (drop-append_within s.send_pos s.send_buf.bytes text within)
        (sym (append_assoc wire (unsent s) text)))

module _ (pq : Libpq) (Net : Type 0) (send : Net → Bytes → SendResult × Net)
    (wire : Wire Net send) where
  open wire use {sent_on}

  -- The client's stream is as it was, on the wire and still to be sent, and only the send buffer has
  -- changed; or the session is gone, with some of the stream not sent, because `send`
  -- has failed on it.
  abbrev pub Flushed : State pq → Net → Option (Fate × State pq × Net) → Type 0
  Flushed st w none = ⊥
  Flushed st w (some (alive, st', w')) =
      (sent_on w' ++ unsent st'.session ≡ sent_on w ++ unsent st.session)
      × OnlySent st.session st'.session
      × (st'.pools ≡ st.pools)
      × (st'.env ≡ st.env)
  Flushed st w (some (destroyed, st', w')) =
      (left : Bytes) × (0 < length left)
      × (sent_on w' ++ left ≡ sent_on w ++ unsent st.session)
      × Failed Net send left w'

  after_flush-Flushed :
      (st : State pq) (w : Net) (o : Option (SendStatus × ClientSession × Net))
      → Delivered Net send wire st.session w o
      → Rest Net send st.session o
      → BrokenOnly Net send o
      → Flushed st w (o >>= λ r. some (after_flush pq Net send st r))
  after_flush-Flushed st w none d rest why = d
  after_flush-Flushed st w (some (sent, s, w')) (d, left) rest why = (d, rest, refl, refl)
  after_flush-Flushed st w (some (blocked, s, w')) (d, left) rest why = (d, rest, refl, refl)
  after_flush-Flushed st w (some (broken, s, w')) (d, left) rest why = (unsent s, left, d, why)

  pub flush-Flushed : (st : State pq) (w : Net) → Flushed st w (flush pq Net send st w)
  unfolding flush
  flush-Flushed st w =
      after_flush-Flushed st w (session_send Net send st.session w)
        (session_send-Delivered Net send wire st.session w)
        (session_send-Rest Net send st.session w) (session_send-BrokenOnly Net send st.session w)
