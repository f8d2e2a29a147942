-- ===== src/MsgBuf/Growth.antt =====
-- The capacity of a `MsgBuf`: `ensure` makes room, and the doubling loop ends.
use native.Mathlib.Nat.{pow-suc}
use sharegres.Base.{
  ℕ, zero, suc, ◌+◌, ◌++◌, ◌*◌, ◌%◌, ◌^◌, ◌≤◌, ◌<◌, ◌≡◌, ◌⊎◌, refl, inl, inr, Bool-cases, arith,
  length, length-append, ltb, leb, leb→le, ltb→lt,
}
use sharegres.Base.Bytes.{Bytes}
use sharegres.MsgBuf.{MsgBuf, size_mod, len, grow, ensure, max_rounds, append}

module _ (new_cap needed : ℕ) where
  doubles : (k : ℕ) → new_cap * 2 ^ suc k ≡ new_cap * 2 * 2 ^ k
  doubles k = rw (pow-suc 2 k) (grind arith)

  doubled : needed ≤ 2 ^ 63 → new_cap < needed → (new_cap * 2) % size_mod ≡ new_cap * 2
  doubled h less = omega arith

-- A round doubles the capacity, so `rounds` rounds are enough from `needed / 2 ^ rounds` on.
-- The loop stops below twice the size that is needed, if it does not start above that.
pub grow_bounds :
    (rounds new_cap needed : ℕ)
    → needed ≤ 2 ^ 63
    → needed ≤ new_cap * 2 ^ rounds
    → new_cap < 2 * needed
    → (needed ≤ grow rounds new_cap needed) × (grow rounds new_cap needed < 2 * needed)
unfolding grow
grow_bounds zero new_cap needed h e small = (omega arith, small)
grow_bounds (suc rounds) new_cap needed h e small = elim (Bool-cases (ltb new_cap needed)) [
  | inl less ↦
      rw (less, doubled new_cap needed h (ltb→lt new_cap needed less))
        (grow_bounds rounds (new_cap * 2) needed h (omega (arith, doubles new_cap needed rounds))
          (omega (arith, ltb→lt new_cap needed less)))
  | inr more ↦ rw more (ground arith)
]

pub bytes-ensure : (b : MsgBuf) (n : ℕ) → (ensure b n).bytes ≡ b.bytes
unfolding ensure
bytes-ensure b n = ground arith

-- A buffer with an allocation, whose bytes lie within it.
pub record IsValid (b : MsgBuf) : Type 0 where
  pub allocated : 0 < b.cap
  pub within : len b ≤ b.cap

-- `ensure` on a valid buffer makes room for `n` more bytes if the total is at most 2 ^ 63. It changes
-- no byte and not the read position, and the new capacity is the old one or below twice the total.
pub ensure_room :
    (b : MsgBuf) (n : ℕ)
    → IsValid b
    → len b + n ≤ 2 ^ 63
    → ((ensure b n).bytes ≡ b.bytes)
      × ((ensure b n).pos ≡ b.pos)
      × (len b + n ≤ (ensure b n).cap)
      × (((ensure b n).cap ≡ b.cap) ⊎ ((ensure b n).cap < 2 * (len b + n)))
unfolding ensure
ensure_room b n v h = elim (Bool-cases (leb ((len b + n) % size_mod) b.cap)) [
  | inl fits ↦ rw fits (refl, refl, omega (arith, leb→le _ _ fits), inl refl)
  | inr full ↦
      let more : b.cap < len b + n = ground arith in
      let same : (len b + n) % size_mod ≡ len b + n = omega arith in
      rw (full, same, doubled b.cap (len b + n) h more)
        (let bounds =
            grow_bounds max_rounds (b.cap * 2) (len b + n) h (omega arith) (omega arith) in
          (refl, refl, bounds.0, inr bounds.1))
]

-- Bytes appended after `ensure` made room for them leave the buffer valid: they lie within the
-- allocation, if the total is at most 2 ^ 63.
append-ensure-IsValid :
    (b : MsgBuf) (new : Bytes)
    → IsValid b
    → len b + length new ≤ 2 ^ 63
    → IsValid (append (ensure b (length new)) new)
append-ensure-IsValid b new v h =
    let (same, _, room, growth) = ensure_room b (length new) v h in
    let inside : length ((ensure b (length new)).bytes ++ new) ≤ (ensure b (length new)).cap =
      rw same (omega (arith, length-append b.bytes new)) in
    let positive : 0 < (ensure b (length new)).cap = omega (arith, v.allocated, growth, room) in
    record { allocated = positive; within = inside }
