-- ===== src/Session/Send/Wire.antt =====
-- What a client receives of what is queued for it.
use sharegres.Base.{
  ℕ, zero, suc, ◌+◌, ◌-◌, ◌≤◌, ◌<◌, ◌≡◌, ◌⊎◌, ◌∙◌, refl, ap, arith, Bool-cases, inl, inr, [], ◌∷◌,
  ◌++◌, Option, none, some, drop, take, length, ltb, append_assoc, take-append-drop, drop-drop,
  length-drop,
}
use sharegres.Base.Bytes.{Bytes}
use sharegres.MsgBuf
use sharegres.MsgBuf.{reset}
use sharegres.Session.{ClientSession}
use sharegres.Session.Send.{
  SendResult, wrote, would_block, error, SendStatus, sent, blocked, broken, unsent, send_loop,
  session_send,
}

-- Documented behaviour of a stream socket: `sent_on` is what went over the wire. A call that is given
-- some bytes sends some of them, from the front, or none and reports why.
pub record Wire (Net : Type 0) (send : Net → Bytes → SendResult × Net) : Type 0 where
  pub sent_on : Net → Bytes
  pub sends :
      (w : Net) (bytes : Bytes) (n : ℕ)
      → 0 < length bytes
      → (send w bytes).0 ≡ wrote n
      → (0 < n) × (n ≤ length bytes) × (sent_on (send w bytes).1 ≡ sent_on w ++ take n bytes)
  pub keeps_blocked :
      (w : Net) (bytes : Bytes)
      → (send w bytes).0 ≡ would_block
      → sent_on (send w bytes).1 ≡ sent_on w
  pub keeps_broken :
      (w : Net) (bytes : Bytes) → (send w bytes).0 ≡ error → sent_on (send w bytes).1 ≡ sent_on w

drop-all : (n : ℕ) (xs : Bytes) → length xs ≤ n → drop n xs ≡ []
drop-all zero [] h = refl
drop-all zero (x ∷ xs) h = ground arith
drop-all (suc n) [] h = refl
drop-all (suc n) (x ∷ xs) h = drop-all n xs (omega arith)

pub SendResult-cases :
    (r : SendResult) → ((n : ℕ) × (r ≡ wrote n)) ⊎ ((r ≡ would_block) ⊎ (r ≡ error))
SendResult-cases (wrote n) = inl (n, refl)
SendResult-cases would_block = inr (inl refl)
SendResult-cases error = inr (inr refl)

-- If all is sent, nothing is left.
abbrev pub Left : SendStatus → ClientSession → Type 0
Left sent s = (s.send_buf.bytes ≡ []) × (s.send_pos ≡ 0)
Left blocked s = 0 < length (unsent s)
Left broken s = 0 < length (unsent s)

module _ (Net : Type 0) (send : Net → Bytes → SendResult × Net) (wire : Wire Net send) where
  open wire use {sent_on, sends, keeps_blocked, keeps_broken}

  -- What is on the wire and what is not sent yet, one behind the other, is as it was.
  abbrev pub Delivered : ClientSession → Net → Option (SendStatus × ClientSession × Net) → Type 0
  Delivered s w none = ⊥
  Delivered s w (some (status, s', w')) =
      (sent_on w' ++ unsent s' ≡ sent_on w ++ unsent s) × Left status s'

  Delivered-after :
      (s : ClientSession) (w : Net) (s₁ : ClientSession) (w₁ : Net)
      (o : Option (SendStatus × ClientSession × Net))
      → sent_on w₁ ++ unsent s₁ ≡ sent_on w ++ unsent s
      → Delivered s₁ w₁ o
      → Delivered s w o
  Delivered-after s w s₁ w₁ none e d = d
  Delivered-after s w s₁ w₁ (some (status, s', w')) e (d, left) = (d ∙ e, left)

  step :
      (s : ClientSession) (w : Net) (n : ℕ) (w₁ : Net)
      → sent_on w₁ ≡ sent_on w ++ take n (unsent s)
      → sent_on w₁ ++ unsent (record s { send_pos = s.send_pos + n }) ≡ sent_on w ++ unsent s
  step s w n w₁ on_wire =
      rw (on_wire, drop-drop s.send_pos n s.send_buf.bytes)
        (append_assoc (sent_on w) (take n (unsent s)) (drop n (unsent s))
          ∙ ap (λ xs. sent_on w ++ xs) (take-append-drop n (unsent s)))

  send_loop-Delivered :
      (fuel : ℕ) (s : ClientSession) (w : Net)
      → MsgBuf.len s.send_buf - s.send_pos < fuel
      → Delivered s w (send_loop Net send fuel s w)
  unfolding send_loop reset
  send_loop-Delivered zero s w h = ground arith
  send_loop-Delivered (suc fuel) s w h =
      elim (Bool-cases (ltb s.send_pos (MsgBuf.len s.send_buf))) [
        | inr all ↦
            let nothing : unsent s ≡ [] = drop-all s.send_pos s.send_buf.bytes (ground arith) in
            rw (send_loop, all, nothing) (refl, (refl, refl))
        | inl more ↦
            let left : 0 < length (unsent s) =
              ground (arith, length-drop s.send_pos s.send_buf.bytes) in
            elim (SendResult-cases (send w (unsent s)).0) [
              | inl (n, e) ↦
                  let (some_sent, within, on_wire) = sends w (unsent s) n left e in
                  let s₁ = record s { send_pos = s.send_pos + n } in
                  let w₁ = (send w (unsent s)).1 in
                  let goes_on : Delivered s₁ w₁ (send_loop Net send fuel s₁ w₁) =
                    send_loop-Delivered fuel s₁ w₁ (ground arith) in
                  rw (send_loop, more, e)
                    (Delivered-after s w s₁ w₁ (send_loop Net send fuel s₁ w₁)
                      (step s w n w₁ on_wire) goes_on)
              | inr (inl e) ↦
                  rw (send_loop, more, e)
                    (ap (λ xs. xs ++ unsent s) (keeps_blocked w (unsent s) e), left)
              | inr (inr e) ↦
                  rw (send_loop, more, e)
                    (ap (λ xs. xs ++ unsent s) (keeps_broken w (unsent s) e), left)
            ]
      ]

  -- `session_send` ends, and loses, repeats and reorders nothing: what is on the wire afterwards, with
  -- what is still unsent behind it, is what was on the wire before with what was unsent. If it reports
  -- that all is sent, the send buffer is empty and the position 0; otherwise something is left.
  pub session_send-Delivered :
      (s : ClientSession) (w : Net) → Delivered s w (session_send Net send s w)
  unfolding session_send
  session_send-Delivered s w =
      send_loop-Delivered (MsgBuf.len s.send_buf - s.send_pos + 1) s w (omega arith)
