-- ===== src/Timer/Clock.antt =====
-- The arithmetic of times.
use sharegres.Base.{
  ℕ, zero, suc, ◌+◌, ◌-◌, ◌*◌, ◌/◌, ◌≤◌, ◌<◌, ◌≡◌, refl, inl, inr, arith, leb, Bool-cases,
}
use sharegres.Base.Int.{+ℤ_parts, sub_ℕ, pos_part, neg_part}
use sharegres.Timer.{Timespec, carry, timespec_add_ms, timespec_diff_ms, second}

abbrev pub nanoseconds : Timespec → ℕ
nanoseconds ts = ts.sec * second + ts.nsec

carry-normal :
    (fuel : ℕ) (ts : Timespec)
    → ts.nsec ≤ fuel
    → ((carry fuel ts).nsec < second) × (nanoseconds (carry fuel ts) ≡ nanoseconds ts)
unfolding carry
carry-normal zero ts h = (omega (arith, h), refl)
carry-normal (suc fuel) ts h = elim (Bool-cases (leb second ts.nsec)) [
  | inl more ↦
      let (small, same) =
        carry-normal fuel (record { sec = ts.sec + 1; nsec = ts.nsec - second }) (ground arith) in
      rw (carry, more) (small, ground arith)
  | inr less ↦ rw (carry, less) (ground arith, refl)
]

-- Adding milliseconds to a time gives a time with less than a second of nanoseconds, later by exactly
-- that many milliseconds, whatever the time and the interval.
pub timespec_add_ms-later :
    (ts : Timespec) (ms : ℕ)
    → ((timespec_add_ms ts ms).nsec < second)
      × (nanoseconds (timespec_add_ms ts ms) ≡ nanoseconds ts + ms * 1000000)
unfolding timespec_add_ms
timespec_add_ms-later ts ms =
    let (small, same) =
      carry-normal (ts.nsec + ms * 1000000) (record ts { nsec = ts.nsec + ms * 1000000 })
        (omega arith) in
    (small, omega (arith, same))

abbrev pub millisecond : ℕ
millisecond = 1000000

abbrev pub IsNormal : Timespec → Type 0
IsNormal ts = ts.nsec < second

-- `timespec_diff_ms` is off by less than a millisecond, either way.
pub timespec_diff_ms-near :
    (a b : Timespec)
    → IsNormal a
    → IsNormal b
    → let d = timespec_diff_ms a b in
      (nanoseconds b + pos_part d * millisecond
        < nanoseconds a + neg_part d * millisecond + millisecond)
      × (nanoseconds a + neg_part d * millisecond
          < nanoseconds b + pos_part d * millisecond + millisecond)
unfolding timespec_diff_ms
timespec_diff_ms-near a b ha hb =
    let s = sub_ℕ (a.sec * 1000) (b.sec * 1000) in
    let n = sub_ℕ ((a.nsec - b.nsec) / 1000000) ((b.nsec - a.nsec) / 1000000) in
    let sums = +ℤ_parts s n in ground arith
