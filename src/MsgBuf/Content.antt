-- ===== src/MsgBuf/Content.antt =====
-- What the writing primitives of a `MsgBuf` add to its bytes.
use sharegres.Base.{ℕ, ◌≡◌, ◌∷◌, [], ◌++◌, arith}
use sharegres.Base.Bytes.{Bytes}
use sharegres.MsgBuf.{
  MsgBuf, ensure, htons, htonl, put_byte, put_int16, put_int32, put_string, put_bytes,
}
use sharegres.MsgBuf.Growth.{bytes-ensure}

module _ (b : MsgBuf) where
  pub bytes-put_byte : (val : ℕ) → (put_byte b val).bytes ≡ b.bytes ++ val ∷ []
  unfolding put_byte
  bytes-put_byte val = rw (bytes-ensure b 1)

  pub bytes-put_int16 : (val : ℕ) → (put_int16 b val).bytes ≡ b.bytes ++ htons val
  unfolding put_int16
  bytes-put_int16 val = rw (bytes-ensure b 2)

  pub bytes-put_int32 : (val : ℕ) → (put_int32 b val).bytes ≡ b.bytes ++ htonl val
  unfolding put_int32
  bytes-put_int32 val = rw (bytes-ensure b 4)

  pub bytes-put_string : (str : Bytes) → (put_string b str).bytes ≡ b.bytes ++ (str ++ 0 ∷ [])
  unfolding put_string
  bytes-put_string str = rw (bytes-ensure b _)

  pub bytes-put_bytes : (new : Bytes) → (put_bytes b new).bytes ≡ b.bytes ++ new
  unfolding put_bytes
  bytes-put_bytes new = rw (bytes-ensure b _)

module _ (b : MsgBuf) where
  pos-ensure : (n : ℕ) → (ensure b n).pos ≡ b.pos
  unfolding ensure
  pos-ensure n = ground arith

  pub pos-put_byte : (val : ℕ) → (put_byte b val).pos ≡ b.pos
  unfolding put_byte
  pos-put_byte val = pos-ensure 1

  pub pos-put_int16 : (val : ℕ) → (put_int16 b val).pos ≡ b.pos
  unfolding put_int16
  pos-put_int16 val = pos-ensure 2

  pub pos-put_int32 : (val : ℕ) → (put_int32 b val).pos ≡ b.pos
  unfolding put_int32
  pos-put_int32 val = pos-ensure 4

  pub pos-put_string : (str : Bytes) → (put_string b str).pos ≡ b.pos
  unfolding put_string
  pos-put_string str = pos-ensure _

pub ruleset positions = (pos-put_byte, pos-put_int16, pos-put_int32, pos-put_string)

pub ruleset contents =
    (bytes-put_byte, bytes-put_int16, bytes-put_int32, bytes-put_string, bytes-put_bytes)
