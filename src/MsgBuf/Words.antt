-- ===== src/MsgBuf/Words.antt =====
-- Words and strings written to a `MsgBuf` are read back.
use sharegres.Base.{
  ℕ, ◌+◌, ◌≡◌, ◌<◌, ◌^◌, ◌∷◌, [], ◌++◌, refl, arith, Option, some, length, drop, drop-append,
  drop-drop, All, append_assoc, ◌>>=◌,
}
use sharegres.Base.Bytes.{Bytes}
use sharegres.MsgBuf.{
  MsgBuf, htons, htonl, ntohs, ntohl, c_string, put_byte, put_int16, put_int32, put_string,
  get_byte, get_int16, get_int32, get_string, advance,
}
use sharegres.MsgBuf.Content.{contents, positions}

pub ntohl-htonl : (v : ℕ) (rest : Bytes) → v < 2 ^ 32 → ntohl (htonl v ++ rest) ≡ some v
unfolding ntohl htonl
ntohl-htonl v rest h = ap-some (omega arith)
  where
    ap-some : {x y : ℕ} → x ≡ y → some x ≡ some y
    ap-some e = rw e

pub ntohs-htons : (v : ℕ) (rest : Bytes) → v < 2 ^ 16 → ntohs (htons v ++ rest) ≡ some v
unfolding ntohs htons
ntohs-htons v rest h = ground arith

-- Without a zero byte, the string up to the terminator is found again.
pub c_string-append : (s rest : Bytes) → All (λ x. 0 < x) s → c_string (s ++ 0 ∷ rest) ≡ some s
unfolding c_string
c_string-append [] rest h = refl
c_string-append (x ∷ s) rest h = ground (arith, c_string-append s rest h.1)

abbrev unread : MsgBuf → Bytes
unread b = drop b.pos b.bytes

-- A reader in front of a word reads it and moves past it.
module _ (b : MsgBuf) (rest : Bytes) where
  get_byte-at : (x : ℕ) → unread b ≡ x ∷ rest → get_byte b ≡ some (x, advance b 1)
  unfolding get_byte
  get_byte-at x e = rw (e, get_byte)

  get_int16-at :
      (v : ℕ) → v < 2 ^ 16 → unread b ≡ htons v ++ rest → get_int16 b ≡ some (v, advance b 2)
  unfolding get_int16
  get_int16-at v h e = rw (e, get_int16, ntohs-htons v rest h)

  get_int32-at :
      (v : ℕ) → v < 2 ^ 32 → unread b ≡ htonl v ++ rest → get_int32 b ≡ some (v, advance b 4)
  unfolding get_int32
  get_int32-at v h e = rw (e, get_int32, ntohl-htonl v rest h)

  get_string-at :
      (s : Bytes)
      → All (λ x. 0 < x) s
      → unread b ≡ s ++ 0 ∷ rest
      → get_string b ≡ some (s, advance b (length s + 1))
  unfolding get_string
  get_string-at s h e = rw (e, get_string, c_string-append s rest h)

pub drop-add-length :
    (n : ℕ) (xs ys zs : Bytes) → drop n xs ≡ ys ++ zs → drop (n + length ys) xs ≡ zs
drop-add-length n xs ys zs e = rw (drop-drop n (length ys) xs, e) (drop-append ys zs)

abbrev pub written : MsgBuf → ℕ → ℕ → ℕ → Bytes → MsgBuf
written b x v w s = put_string (put_int32 (put_int16 (put_byte b x) v) w) s

abbrev pub read_all : MsgBuf → Option (ℕ × ℕ × ℕ × Bytes)
read_all b₀ = do
  (x, b₁) ← get_byte b₀
  (v, b₂) ← get_int16 b₁
  (w, b₃) ← get_int32 b₂
  (s, b₄) ← get_string b₃
  some (x, v, w, s)

-- What is written to a buffer whose reader stands at its end, a byte, a 16-bit word, a 32-bit word and a
-- string without zero bytes, is read back by the readers, in that order.
pub read_all-written :
    (b : MsgBuf) (x v w : ℕ) (s : Bytes)
    → b.pos ≡ length b.bytes
    → v < 2 ^ 16
    → w < 2 ^ 32
    → All (λ c. 0 < c) s
    → read_all (written b x v w s) ≡ some (x, v, w, s)
unfolding htons htonl
read_all-written b x v w s start hv hw hs =
    let c = written b x v w s in
    let bytes_are : c.bytes ≡ b.bytes ++ (x ∷ (htons v ++ (htonl w ++ (s ++ 0 ∷ [])))) =
      simp contents (simp append_assoc) in
    let pos_is : c.pos ≡ length b.bytes = simp positions start in
    let at : unread c ≡ x ∷ (htons v ++ (htonl w ++ (s ++ 0 ∷ []))) =
      rw (bytes_are, pos_is) (drop-append b.bytes _) in
    let after_byte = drop-add-length c.pos c.bytes (x ∷ []) _ at in
    let after_int16 = drop-add-length (c.pos + 1) c.bytes (htons v) _ after_byte in
    let after_int32 = drop-add-length (c.pos + 1 + 2) c.bytes (htonl w) _ after_int16 in
    rw (get_byte-at c _ x at) (
      rw (get_int16-at (advance c 1) _ v hv after_byte) (
        rw (get_int32-at (advance (advance c 1) 2) _ w hw after_int16)
          (rw (get_string-at (advance (advance (advance c 1) 2) 4) [] s hs after_int32))))
