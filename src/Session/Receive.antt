-- ===== src/Session/Receive.antt =====
-- src/session/session.c and session.h: `RecvBuf`, the bytes received and not yet handled. `bytes` is
-- the whole allocation, so that its length is the source's `cap`; the first `len` of them are
-- received. A handled message is moved out by `memmove`, which leaves the bytes behind `len` alone.
use sharegres.Base.{ℕ, ◌+◌, ◌-◌, ◌*◌, ◌%◌, ◌++◌, length, take, drop, leb, if◌then◌else◌}
use sharegres.Base.Bytes.{Bytes}
use sharegres.MsgBuf.{grow, size_mod, max_rounds}

pub record RecvBuf : Type 0 where
  pub bytes : Bytes
  pub len : ℕ

-- `memmove(data, data + n, len - n); len -= n;`
unfoldable pub consume : ℕ → RecvBuf → RecvBuf
consume n rb =
    let left = rb.len - n in
    record { bytes = take left (drop n rb.bytes) ++ drop left rb.bytes; len = left }

-- The capacity that `recvbuf_ensure` leaves.
unfoldable pub ensured_cap : ℕ → RecvBuf → ℕ
unfolding grow
ensured_cap additional rb =
    let needed = (rb.len + additional) % size_mod in
    let cap = length rb.bytes in
    if leb needed cap then cap else grow max_rounds ((cap * 2) % size_mod) needed

-- `recvbuf_ensure`: `fresh` is what `realloc` finds in the new part of the allocation.
unfoldable pub ensure : ℕ → (ℕ → Bytes) → RecvBuf → RecvBuf
unfolding ensured_cap
ensure additional fresh rb = record rb {
  bytes = rb.bytes ++ fresh (ensured_cap additional rb - length rb.bytes);
}

-- `recv` writes at `data + len`, and `len += n`.
unfoldable pub receive : Bytes → RecvBuf → RecvBuf
receive chunk rb = record {
  bytes = take rb.len rb.bytes ++ (chunk ++ drop (rb.len + length chunk) rb.bytes);
  len = rb.len + length chunk;
}
