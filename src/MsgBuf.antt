-- ===== src/MsgBuf.antt =====
-- src/protocol/message.c and message.h: `MsgBuf`, the growable buffer of wire-protocol bytes.
-- `data` holds the bytes written so far, so the source's `len` is its length and `cap` is the size of
-- the allocation behind it. Sizes are `size_t`: sums and doublings wrap at 2 ^ 64. A read past the
-- written bytes is `none`; the source does not check for it.
pub mod Growth
pub mod Content
pub mod Words
pub mod Tests
use Prim.Native.Nat.{min}
use sharegres.Base.{
  ℕ, zero, suc, ◌+◌, ◌*◌, ◌/◌, ◌%◌, ◌^◌, Bool, true, false, List, [], ◌∷◌, ◌++◌, Option, none, some,
  length, take, drop, leb, ltb, ◌==◌, if◌then◌else◌,
}
use sharegres.Base.Bytes.{Bytes}

pub record MsgBuf : Type 0 where
  pub bytes : Bytes
  pub cap : ℕ
  pub pos : ℕ

abbrev pub size_mod : ℕ
size_mod = 2 ^ 64

abbrev pub len : MsgBuf → ℕ
len b = length b.bytes

unfoldable pub init : ℕ → MsgBuf
init initial_cap = record { bytes = []; cap = initial_cap; pos = 0 }

unfoldable pub reset : MsgBuf → MsgBuf
reset b = record b { bytes = []; pos = 0 }

-- `while (new_cap < needed) new_cap *= 2;`, for as many rounds as there is fuel.
unfoldable pub grow : ℕ → ℕ → ℕ → ℕ
grow zero new_cap needed = new_cap
grow (suc rounds) new_cap needed =
    let rest = grow rounds ((new_cap * 2) % size_mod) needed in
    if ltb new_cap needed then rest else new_cap

-- 64 rounds double any non-zero capacity past every size (`Growth`). Every call of `msgbuf_init` gives a
-- capacity that is not 0, and after `msgbuf_free` a buffer is not written to. At capacity 0 the
-- source's loop would not end, and the model's capacity stays 0.
abbrev pub max_rounds : ℕ
max_rounds = 64

unfoldable pub ensure : MsgBuf → ℕ → MsgBuf
unfolding grow
ensure b additional =
    let needed = (len b + additional) % size_mod in
    if leb needed b.cap
    then b
    else record b { cap = grow max_rounds ((b.cap * 2) % size_mod) needed }

-- memcpy to `data + len`, and `len += n`
abbrev pub append : MsgBuf → Bytes → MsgBuf
append b new = record b { bytes = b.bytes ++ new }

unfoldable pub put_byte : MsgBuf → ℕ → MsgBuf
put_byte b val = append (ensure b 1) (val ∷ [])

-- `htons` and `htonl`: the bytes of a word, the highest first.
unfoldable pub htons : ℕ → Bytes
htons v = (v / 256 % 256) ∷ (v % 256) ∷ []

unfoldable pub htonl : ℕ → Bytes
htonl v = (v / 16777216 % 256) ∷ (v / 65536 % 256) ∷ (v / 256 % 256) ∷ (v % 256) ∷ []

-- A 16-bit and a 32-bit integer are given by their bit patterns.
unfoldable pub put_int16 : MsgBuf → ℕ → MsgBuf
put_int16 b val = append (ensure b 2) (htons val)

unfoldable pub put_int32 : MsgBuf → ℕ → MsgBuf
put_int32 b val = append (ensure b 4) (htonl val)

-- The bytes of the string and its terminator.
unfoldable pub put_string : MsgBuf → Bytes → MsgBuf
put_string b str = append (ensure b (length str + 1)) (str ++ 0 ∷ [])

unfoldable pub put_bytes : MsgBuf → Bytes → MsgBuf
put_bytes b new = append (ensure b (length new)) new

-- What a read finds at `pos`, and the buffer behind it.
abbrev pub advance : MsgBuf → ℕ → MsgBuf
advance b n = record b { pos = b.pos + n }

unfoldable pub get_byte : MsgBuf → Option (ℕ × MsgBuf)
get_byte b = elim (drop b.pos b.bytes) [ [] ↦ none | x ∷ _ ↦ some (x, advance b 1) ]

unfoldable pub ntohs : Bytes → Option ℕ
ntohs (x ∷ y ∷ _) = some (x * 256 + y)
ntohs _ = none

unfoldable pub ntohl : Bytes → Option ℕ
ntohl (w ∷ x ∷ y ∷ z ∷ _) = some (w * 16777216 + x * 65536 + y * 256 + z)
ntohl _ = none

unfoldable pub get_int16 : MsgBuf → Option (ℕ × MsgBuf)
unfolding ntohs
get_int16 b = elim (ntohs (drop b.pos b.bytes)) [ none ↦ none | some v ↦ some (v, advance b 2) ]

unfoldable pub get_int32 : MsgBuf → Option (ℕ × MsgBuf)
unfolding ntohl
get_int32 b = elim (ntohl (drop b.pos b.bytes)) [ none ↦ none | some v ↦ some (v, advance b 4) ]

-- The bytes before the first zero; `none` where no zero follows.
unfoldable pub c_string : Bytes → Option Bytes
c_string [] = none
c_string (x ∷ xs) =
    let rest = c_string xs in
    if x == 0 then some [] else elim rest [ none ↦ none | some s ↦ some (x ∷ s) ]

unfoldable pub get_string : MsgBuf → Option (Bytes × MsgBuf)
unfolding c_string
get_string b = elim (c_string (drop b.pos b.bytes)) [
  | none ↦ none
  | some s ↦ some (s, advance b (length s + 1))
]
